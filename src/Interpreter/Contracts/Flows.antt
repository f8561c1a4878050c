-- ===== src/Interpreter/Contracts/Flows.antt =====
-- The effects of the profile's update of the stack, and of the flow of a state to other indices
-- (Profiled.antt, Actions.antt, Jumps.antt).
use pyjion.Prelude.{
  ◌≡◌, ◌≢◌, refl, arith, ℕ, ◌+◌, ◌-◌, if◌then◌else◌, Bool, true, false, none, [], ◌∷◌, ◌++◌, length,
  All, All-append,
}
use pyjion.State.{InterpreterState}
use pyjion.Interpreter.{
  Context, Machine, Action, Result, ok, fault, ◌>>=◌, stack_underflow, stack_imbalance, undefined,
}
use pyjion.Interpreter.Actions.{gets, modify, update_start, branch_state, branch_to}
use pyjion.Interpreter.Contracts.{IsValid, Meets, HasEffect, then_Meets, cast_Meets}
use pyjion.Interpreter.Contracts.Updates.{Updated, update_start-Updated}

module _ {ctx : Context} {size : ℕ} where
  pub update_start-HasEffect :
      (state : InterpreterState) (target : ℕ)
      → length state.locals ≡ size
      → HasEffect ctx size 0 0 Bool (update_start ctx state target)
  update_start-HasEffect state target e = record {
    run = λ m v.
        let u = update_start-Updated ctx size m target state e v in
        rw (u.equation) (omega arith, refl, u.consistent, u.keeps);
  }

  queued_Meets :
      (m : Machine) (target : ℕ) (state : InterpreterState) (r : Result Bool)
      → Updated ctx size m target state r
      → Meets ctx size 0 0 m (elim r [
        | ok changed m' ↦
            ok changed (record m' { queue = if changed then m'.queue ++ target ∷ [] else m'.queue })
        | fault e ↦ fault e
      ])
  queued_Meets m target state r u = rw (u.equation) (
    omega arith,
    refl,
    record {
      local_count = u.consistent.local_count;
      start_counts = u.consistent.start_counts;
      queued =
          elim u.changed
            as (λ b. All (λ i. u.starts i ≢ none) (if b then m.queue ++ target ∷ [] else m.queue)) [
              | true ↦ All-append _ m.queue (target ∷ []) u.consistent.queued (u.started, tt)
              | false ↦ u.consistent.queued
            ];
      blocks = u.consistent.blocks;
    },
    u.keeps,
  )

  pub branch_state-HasEffect :
      (state : InterpreterState) (target : ℕ)
      → length state.locals ≡ size
      → HasEffect ctx size 0 0 Bool (branch_state ctx state target)
  unfolding branch_state ◌>>=◌
  branch_state-HasEffect state target e = record {
    run = λ m v. queued_Meets m target state _ (update_start-Updated ctx size m target state e v);
  }

  -- What follows a look at the state knows how many locals it has.
  pub state-HasEffect :
      {B : Type 0} {n k : ℕ} {g : InterpreterState → Action B}
      → ((s : InterpreterState) → length s.locals ≡ size → HasEffect ctx size n k B (g s))
      → HasEffect ctx size n k B (gets (λ m. m.state) >>= g)
  unfolding ◌>>=◌
  state-HasEffect q = record { run = λ m v. (q m.state v.local_count).run m v }

  pub branch_to-HasEffect : (target : ℕ) → HasEffect ctx size 0 0 Bool (branch_to ctx target)
  unfolding branch_to
  branch_to-HasEffect target = state-HasEffect (λ s e. branch_state-HasEffect s target e)

  copied_Meets :
      {A B : Type 0} (n k k' : ℕ) (m : Machine) (g : A → InterpreterState → Action B) (r : Result A)
      → IsValid ctx size m
      → Meets ctx size n k m r
      → ((a : A) (s : InterpreterState)
          → length s.locals ≡ size
          → HasEffect ctx size 0 k' B (g a s))
      → Meets ctx size n
          (k' + n)
          m
          (elim r [ ok a m' ↦ g a m'.state (record m' { state = m.state }) | fault e ↦ fault e ])
  copied_Meets n k k' m g (ok a m') v (h, e, v', s) next =
      let restored : Machine = record m' { state = m.state } in
      cast_Meets ctx size (n + (0 - n)) (k' + (n - 0)) n (k' + n) m (g a m'.state restored)
        (omega arith) (omega arith)
        (then_Meets ctx size n n 0 k' m restored (g a m'.state restored) h refl s (
          (next a m'.state v'.local_count).run restored (record {
            local_count = v.local_count;
            start_counts = v'.start_counts;
            queued = v'.queued;
            blocks = v'.blocks;
          })))
  copied_Meets n k k' m g (fault stack_underflow) v l next = l
  copied_Meets n k k' m g (fault stack_imbalance) v l next = l
  copied_Meets n k k' m g (fault undefined) v l next = tt

  -- An action on a copy of the state, which what follows gets.
  pub copy-HasEffect :
      {A B : Type 0} {n k k' : ℕ} {f : Action A} {g : A → InterpreterState → Action B}
      → HasEffect ctx size n k A f
      → ((a : A) (s : InterpreterState)
          → length s.locals ≡ size
          → HasEffect ctx size 0 k' B (g a s))
      → HasEffect ctx size n (k' + n) B (
          gets (λ m. m.state) >>= λ state. f >>= λ a. gets (λ m. m.state) >>= λ copy.
          modify (λ m. record m { state = state }) >>= λ u. g a copy)
  unfolding ◌>>=◌
  copy-HasEffect {n = n} {k = k} {k' = k'} {f = f} {g = g} p q = record {
    run = λ m v. copied_Meets n k k' m g (f m) v (p.run m v) q;
  }
