-- ===== src/Context/Registry/Entries.antt =====
-- Changes of the association lists that stand for the maps of idker/src/context/registry.rs.
use idkernel.Base.{
  ℕ, ◌≡◌, ◌≢◌, ◌⊎◌, inl, inr, refl, ◌∙◌, sym, ap, none, some, List, [], ◌∷◌, ◌++◌, ◌==◌, assoc,
  assoc_set, assoc_remove, assoc-append_none, assoc-append, arith, ==_iff, Bool-cases, Option-cases,
}
use idkernel.Context.Kernel.Sound.{Unique}

module _ {V : Type 0} where
  set_missing :
      (q k : ℕ) (v : V) (m : List (ℕ × V)) → assoc q m ≡ none → assoc q (assoc_set k v m) ≡ none
  set_missing q k v [] e = refl
  set_missing q k v ((j, w) ∷ m) e = ground (arith, set_missing q k v m)

  pub assoc_set-Unique : (k : ℕ) (v : V) (m : List (ℕ × V)) → Unique m → Unique (assoc_set k v m)
  assoc_set-Unique k v [] u = tt
  assoc_set-Unique k v ((j, w) ∷ m) u = elim (Bool-cases (j == k)) [
    | inl here ↦ rw (here, sym ((==_iff j k).0 here)) u
    | inr other ↦ rw other (set_missing j k v m u.0, assoc_set-Unique k v m u.1)
  ]

  pub assoc_set_found :
      (q k : ℕ) (v : V) (m : List (ℕ × V)) (c : V)
      → assoc q (assoc_set k v m) ≡ some c
      → ((q ≡ k) × (c ≡ v)) ⊎ (assoc q m ≡ some c)
  assoc_set_found q k v [] c e = inr e
  assoc_set_found q k v ((j, w) ∷ m) c e = elim (Bool-cases (j == k)) [
    | inl here ↦ elim (Bool-cases (k == q)) [
      | inl hit ↦ inl (ground (arith, hit), ground (arith, e, here, hit))
      | inr miss ↦ inr (ground (arith, e, here, miss))
    ]
    | inr other ↦ elim (Bool-cases (j == q)) [
      | inl hit ↦ inr (ground (arith, e, other, hit))
      | inr miss ↦ elim (assoc_set_found q k v m c (ground (arith, e, other, miss))) [
        | inl here ↦ inl here
        | inr found ↦ inr (ground (arith, found, miss))
      ]
    ]
  ]

  remove_missing :
      (q k : ℕ) (m : List (ℕ × V)) → assoc q m ≡ none → assoc q (assoc_remove k m) ≡ none
  remove_missing q k [] e = refl
  remove_missing q k ((j, w) ∷ m) e = ground (arith, remove_missing q k m)

  pub assoc_remove-Unique : (k : ℕ) (m : List (ℕ × V)) → Unique m → Unique (assoc_remove k m)
  assoc_remove-Unique k [] u = tt
  assoc_remove-Unique k ((j, w) ∷ m) u = elim (Bool-cases (j == k)) [
    | inl here ↦ rw here u.1
    | inr other ↦ rw other (remove_missing j k m u.0, assoc_remove-Unique k m u.1)
  ]

  pub assoc_remove_found :
      (q k : ℕ) (m : List (ℕ × V)) (c : V)
      → Unique m
      → assoc q (assoc_remove k m) ≡ some c
      → assoc q m ≡ some c
  assoc_remove_found q k [] c u e = e
  assoc_remove_found q k ((j, w) ∷ m) c u e = elim (Bool-cases (j == k)) [
    | inl here ↦ elim (Bool-cases (j == q)) [
      | inl hit ↦ absurd (ground (arith, e, here, ap (λ n. assoc n m) ((==_iff j q).0 hit), u.0))
      | inr miss ↦ ground (arith, e, here, miss)
    ]
    | inr other ↦ elim (Bool-cases (j == q)) [
      | inl hit ↦ ground (arith, e, other, hit)
      | inr miss ↦
          let found : assoc q m ≡ some c =
            assoc_remove_found q k m c u.1 (ground (arith, e, other, miss)) in
          ground (arith, found, miss)
    ]
  ]

  append_missing :
      (q k : ℕ) (v : V) (m : List (ℕ × V))
      → assoc q m ≡ none
      → q ≢ k
      → assoc q (m ++ (k, v) ∷ []) ≡ none
  append_missing q k v m e apart = assoc-append_none q m ((k, v) ∷ []) e ∙ ground (arith, apart)

  pub append-Unique :
      (k : ℕ) (v : V) (m : List (ℕ × V)) → Unique m → assoc k m ≡ none → Unique (m ++ (k, v) ∷ [])
  append-Unique k v [] u e = (refl, tt)
  append-Unique k v ((j, w) ∷ m) u e =
      (append_missing j k v m u.0 (ground (arith, e)), append-Unique k v m u.1 (ground (arith, e)))

  pub append_found :
      (q k : ℕ) (v : V) (m : List (ℕ × V)) (c : V)
      → assoc q (m ++ (k, v) ∷ []) ≡ some c
      → ((q ≡ k) × (c ≡ v)) ⊎ (assoc q m ≡ some c)
  append_found q k v m c e = elim (Option-cases (assoc q m)) [
    | inl missing ↦ inl (
      ground (arith, assoc-append_none q m ((k, v) ∷ []) missing, e),
      ground (arith, assoc-append_none q m ((k, v) ∷ []) missing, e),
    )
    | inr (d, found) ↦ inr (found ∙ sym (assoc-append q m ((k, v) ∷ []) d found) ∙ e)
  ]
