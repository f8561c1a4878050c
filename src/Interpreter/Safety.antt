-- ===== src/Interpreter/Safety.antt =====
-- What a round of `interpret` (src/pyjion/absint.cpp) keeps true of the start states.
pub mod Rounds
pub mod Worklist
pub mod Runs
pub mod Branches
use pyjion.Prelude.{
  ◌≡◌, ◌≢◌, refl, sym, ◌∙◌, ◌⊎◌, inl, inr, arith, ap, ℕ, zero, suc, ◌+◌, ◌%◌, ◌*◌, ◌^◌,
  if◌then◌else◌, Bool, true, false, Option, none, some, List, [], ◌∷◌, length, All, Bool-cases,
}
use pyjion.Opcode.{Opcode}
use pyjion.State.{InterpreterState}
use pyjion.Interpreter.{
  Context, Machine, stack_underflow, stack_imbalance, undefined, Result, ok, fault, Action, pure,
  ◌>>=◌, Flow, next, next_block, finished,
}
use pyjion.Interpreter.Actions.{gets, modify, update_start}
use pyjion.Interpreter.Dispatch.{interpret_opcode}
use pyjion.Interpreter.Step.{
  push_exception, enter_handler, state_or_empty, set_probe, fall_through, finish_opcode,
  process_opcode, is_extended_arg, process, load_start, interpret_index, has_effect,
}
use pyjion.Interpreter.Contracts.{
  IsValid, IsStarted, AreConsistent, Meets, HasEffect, restores, ◌▹◌, cast-HasEffect,
}
use pyjion.Interpreter.Contracts.Primitives.{
  pure-HasEffect, gets-HasEffect, modify-HasEffect, push_many-HasEffect,
}
use pyjion.Interpreter.Contracts.Updates.{update-AreConsistent, Updated, update_start-Updated}
use pyjion.Interpreter.Contracts.Jumping.{Left, handle_pop_block-Left, handle_pop_except-Left}
use pyjion.Interpreter.Contracts.Effects.{interpret_opcode-HasEffect}

-- The outcome is a valid machine that has the start states of the one before, and of which `P`
-- holds; or a fault other than an imbalance.
abbrev pub Sound :
    (ctx : Context) (size : ℕ) {A : Type 0} → (A → Machine → Type 0) → Machine → Result A → Type 0
Sound ctx size P m (ok a m') =
    IsValid ctx size m' × ((i : ℕ) → IsStarted m i → IsStarted m' i) × P a m'
Sound ctx size P m (fault stack_underflow) = Unit
Sound ctx size P m (fault stack_imbalance) = ⊥
Sound ctx size P m (fault undefined) = Unit

-- The action does so from any valid machine that has a start state at `cur`.
pub record IsSound (ctx : Context) (size cur : ℕ) (A : Type 0) (P : A → Machine → Type 0)
    (f : Action A) : Type 0 where
  pub run : (m : Machine) → IsValid ctx size m → IsStarted m cur → Sound ctx size P m (f m)

abbrev pub Anything : {A : Type 0} → A → Machine → Type 0
Anything a m = Unit

module _ (ctx : Context) (size : ℕ) where
  Meets-Sound :
      {A : Type 0} (n k : ℕ) (m : Machine) (r : Result A)
      → Meets ctx size n k m r
      → Sound ctx size Anything m r
  Meets-Sound n k m (ok a m') (h, e, v, s) = (v, s, tt)
  Meets-Sound n k m (fault stack_underflow) l = tt
  Meets-Sound n k m (fault stack_imbalance) l = l
  Meets-Sound n k m (fault undefined) l = tt

  Left-Sound :
      (taken start : ℕ) (m : Machine) (r : Result Flow)
      → Left ctx size taken start m r
      → Sound ctx size Anything m r
  Left-Sound taken start m (ok flow m') (h, v, s) = (v, s, tt)
  Left-Sound taken start m (fault stack_underflow) l = tt
  Left-Sound taken start m (fault stack_imbalance) l = l
  Left-Sound taken start m (fault undefined) l = tt

  then_Sound :
      {A : Type 0} (P : A → Machine → Type 0) (m m' : Machine) (r : Result A)
      → ((i : ℕ) → IsStarted m i → IsStarted m' i)
      → Sound ctx size P m' r
      → Sound ctx size P m r
  then_Sound P m m' (ok a m2) k (v, s, p) = (v, λ i q. s i (k i q), p)
  then_Sound P m m' (fault stack_underflow) k l = tt
  then_Sound P m m' (fault stack_imbalance) k l = l
  then_Sound P m m' (fault undefined) k l = tt

  bind_Sound :
      {A B : Type 0} (P : A → Machine → Type 0) (Q : B → Machine → Type 0) (cur : ℕ) (m : Machine)
      (r : Result A) (g : A → Action B)
      → IsStarted m cur
      → Sound ctx size P m r
      → ((a : A) → IsSound ctx size cur B Q (g a))
      → Sound ctx size Q m (elim r [ ok a m' ↦ g a m' | fault e ↦ fault e ])
  bind_Sound P Q cur m (ok a m') g p (v, s, x) rest =
      then_Sound Q m m' (g a m') s ((rest a).run m' v (s cur p))
  bind_Sound P Q cur m (fault stack_underflow) g p l rest = tt
  bind_Sound P Q cur m (fault stack_imbalance) g p l rest = l
  bind_Sound P Q cur m (fault undefined) g p l rest = tt

module _ {ctx : Context} {size cur : ℕ} where
  pub bind-IsSound :
      {A B : Type 0} {P : A → Machine → Type 0} {Q : B → Machine → Type 0} {f : Action A}
      {g : A → Action B}
      → IsSound ctx size cur A P f
      → ((a : A) → IsSound ctx size cur B Q (g a))
      → IsSound ctx size cur B Q (f >>= g)
  unfolding ◌>>=◌
  bind-IsSound {P = P} {Q = Q} {f = f} {g = g} p q = record {
    run = λ m v s. bind_Sound ctx size P Q cur m (f m) g s (p.run m v s) q;
  }

  pub HasEffect-IsSound :
      {A : Type 0} {n k : ℕ} {f : Action A}
      → HasEffect ctx size n k A f
      → IsSound ctx size cur A Anything f
  HasEffect-IsSound {n = n} {k = k} {f = f} p = record {
    run = λ m v s. Meets-Sound ctx size n k m (f m) (p.run m v);
  }

  -- What follows a look at the state knows how many locals it has.
  pub state-IsSound :
      {B : Type 0} {Q : B → Machine → Type 0} {g : InterpreterState → Action B}
      → ((s : InterpreterState) → length s.locals ≡ size → IsSound ctx size cur B Q (g s))
      → IsSound ctx size cur B Q (gets (λ m. m.state) >>= g)
  unfolding ◌>>=◌
  state-IsSound q = record { run = λ m v s. (q m.state v.local_count).run m v s }

  Updated-Sound :
      {B : Type 0} (Q : B → Machine → Type 0) (g : Bool → Action B) (m : Machine) (target : ℕ)
      (state : InterpreterState) (r : Result Bool)
      → IsStarted m cur
      → Updated ctx size m target state r
      → ((b : Bool) (m : Machine)
          → IsValid ctx size m
          → IsStarted m cur
          → IsStarted m target
          → Sound ctx size Q m (g b m))
      → Sound ctx size Q m (elim r [ ok a m' ↦ g a m' | fault e ↦ fault e ])
  Updated-Sound Q g m target state r s u q =
      let m' : Machine = record m { start_states = u.starts; sets = u.sets } in
      rw (u.equation) (
        then_Sound ctx size Q m m' (g u.changed m') u.keeps
          (q u.changed m' u.consistent (u.keeps cur s) u.started))

  -- What follows the flow of a state to an index finds a start state there.
  pub update-IsSound :
      {B : Type 0} {Q : B → Machine → Type 0} (g : Bool → Action B) (state : InterpreterState)
      (target : ℕ)
      → length state.locals ≡ size
      → ((b : Bool) (m : Machine)
          → IsValid ctx size m
          → IsStarted m cur
          → IsStarted m target
          → Sound ctx size Q m (g b m))
      → IsSound ctx size cur B Q (update_start ctx state target >>= g)
  unfolding ◌>>=◌
  update-IsSound {Q = Q} g state target e q = record {
    run = λ m v s.
        Updated-Sound Q g m target state _ s (update_start-Updated ctx size m target state e v) q;
  }
