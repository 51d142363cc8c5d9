-- ===== src/Context/Process/Fairness.antt =====
-- Which task of the queue of idker/src/context/mod.rs comes to run, and when, if each task yields.
use idkernel.Base.{
  ℕ, zero, suc, ◌≡◌, ◌≢◌, refl, ◌∙◌, sym, ap, subst, some, List, [], ◌∷◌, ◌++◌, length, All,
  All-append, Prog, ok, ◌>>◌, pure, arith, >>=-ok,
}
use idkernel.Abi.{SyscallError}
use idkernel.Context.Lock.{SpinRwLock, unlocked}
use idkernel.Context.Task.{user}
use idkernel.Context.Registry.{Cell}
use idkernel.Context.Kernel.{Kernel, cell_of}
use idkernel.Context.Kernel.Switching.Laws.{Ready, saved}
use idkernel.Context.Process.{yield}
use idkernel.Context.Process.Laws.{yield_round_robin}

-- A task that can run: registered under its own, nonzero id, unlocked and in user state.
pub record Runnable (k : Kernel) (id : ℕ) : Type 0 where
  pub cell : Cell
  pub registered : cell_of id k ≡ some cell
  pub free : cell.lock ≡ unlocked
  pub live : cell.context.state ≡ user
  pub identity : cell.context.id ≡ id
  pub named : id ≢ 0

abbrev pub Distinct : List ℕ → Type 0
Distinct [] = Unit {0}
Distinct (x ∷ xs) = All (λ y. y ≢ x) xs × Distinct xs

-- The running task and those of the queue can run, and none of them is there twice.
pub record Waiting (k : Kernel) (queue : List ℕ) : Type 0 where
  pub queued : k.registry.executable_tasks ≡ queue
  pub runnable : All (Runnable k) (k.task_id ∷ queue)
  pub distinct : Distinct (k.task_id ∷ queue)

All-zip :
    {P Q R : ℕ → Type 0} (xs : List ℕ)
    → ((x : ℕ) → P x → Q x → R x)
    → All P xs
    → All Q xs
    → All R xs
All-zip [] f h g = tt
All-zip (x ∷ xs) f h g = (f x h.0 g.0, All-zip xs f h.1 g.1)

Distinct-snoc : (xs : List ℕ) (a : ℕ) → All (λ y. y ≢ a) xs → Distinct xs → Distinct (xs ++ a ∷ [])
Distinct-snoc [] a h d = (tt, tt)
Distinct-snoc (x ∷ xs) a h d =
    (All-append (λ y. y ≢ x) xs (a ∷ []) d.0 ((λ e. h.0 (sym e)), tt), Distinct-snoc xs a h.1 d.1)

Runnable-same :
    (k k' : Kernel) (id : ℕ) → cell_of id k' ≡ cell_of id k → Runnable k id → Runnable k' id
Runnable-same k k' id e r = record {
  cell = r.cell;
  registered = e ∙ r.registered;
  free = r.free;
  live = r.live;
  identity = r.identity;
  named = r.named;
}

append_assoc : (xs ys zs : List ℕ) → (xs ++ ys) ++ zs ≡ xs ++ (ys ++ zs)
append_assoc [] ys zs = refl
append_assoc (x ∷ xs) ys zs = ap (λ l. x ∷ l) (append_assoc xs ys zs)

module _ (sp : SpinRwLock) where
  -- One yield turns the queue by one.
  yield-Waiting :
      (k : Kernel) (n : ℕ) (queue : List ℕ)
      → Waiting k (n ∷ queue)
      → (k' : Kernel) × (yield sp k ≡ ok tt k')
        × (k'.task_id ≡ n)
        × Waiting k' (queue ++ k.task_id ∷ [])
  yield-Waiting k n queue w =
      let (c, (t, others)) = w.runnable in
      let (apart, (alone, rest)) = w.distinct in
      let ready : Ready k c.cell t.cell n = record {
        running = c.registered;
        from_free = c.free;
        named = c.named;
        identity = c.identity;
        apart = apart.0;
        waiting = t.registered;
        next_free = t.free;
      } in
      let (k', ends, current, queued, _, from_cell, next_cell, same) =
        yield_round_robin sp k c.cell t.cell n queue ready c.live w.queued in
      let next : Runnable k' n = record {
        cell = t.cell;
        registered = next_cell;
        free = t.free;
        live = t.live;
        identity = t.identity;
        named = t.named;
      } in
      let last : Runnable k' k.task_id = record {
        cell = record { lock = unlocked; context = saved k c.cell.context t.cell.context };
        registered = from_cell;
        free = refl;
        live = c.live;
        identity = c.identity;
        named = c.named;
      } in
      let kept : All (Runnable k') queue =
        All-zip {P = Runnable k} {Q = λ q. (q ≢ k.task_id) × (q ≢ n)} queue
          (λ q r e. Runnable-same k k' q (same q e.0 e.1) r) others
          (All-zip queue (λ q x y. (x, y)) apart.1 alone) in
      (
        k',
        ends,
        current,
        record {
          queued = queued;
          runnable = (
            (subst (Runnable k') (sym current) next),
            All-append (Runnable k') queue (k.task_id ∷ []) kept (last, tt),
          );
          distinct =
              subst (λ m. Distinct (m ∷ (queue ++ k.task_id ∷ []))) (sym current)
                (
                  All-append (λ y. y ≢ n) queue (k.task_id ∷ []) alone ((λ e. apart.0 (sym e)), tt),
                  Distinct-snoc queue k.task_id apart.1 rest,
                );
        },
      )

  -- So many yields in a row, each by the task that runs then.
  unfoldable pub yields : ℕ → Prog Kernel SyscallError (Unit {0})
  yields zero = pure tt
  yields (suc n) = let rest = yields n in do yield sp; rest

  -- Let the running task and those of the queue be distinct, registered under their own, nonzero
  -- ids, unlocked and in user state. Then a task of the queue runs after exactly as many yields as
  -- its place in the queue, counted from 1, each by the task that runs then; all these yields
  -- succeed, and the queue then holds the tasks that were behind it, the one that ran first, and
  -- those that were ahead, again distinct, registered, unlocked and in user state.
  pub yields-Waiting :
      (k : Kernel) (ahead : List ℕ) (n : ℕ) (behind : List ℕ)
      → Waiting k (ahead ++ n ∷ behind)
      → (k' : Kernel) × (yields (suc (length ahead)) k ≡ ok tt k')
        × (k'.task_id ≡ n)
        × Waiting k' (behind ++ k.task_id ∷ ahead)
  unfolding yields
  yields-Waiting k [] n behind w =
      let (k', ends, current, after) = yield-Waiting k n behind w in
      (k', ground (arith, ends), current, after)
  yields-Waiting k (p ∷ ps) n behind w =
      let (k1, first, current1, w1) = yield-Waiting k p (ps ++ n ∷ behind) w in
      let (k2, ends, current, after) =
        yields-Waiting k1 ps n (behind ++ k.task_id ∷ [])
          (subst (Waiting k1) (append_assoc ps (n ∷ behind) (k.task_id ∷ [])) w1) in
      (
        k2,
        >>=-ok (yield sp) (λ _. yields (suc (length ps))) k first ∙ ends,
        current,
        subst (Waiting k2)
            (append_assoc behind (k.task_id ∷ []) (k1.task_id ∷ ps)
              ∙ ap (λ m. behind ++ k.task_id ∷ m ∷ ps) current1)
            after,
      )
