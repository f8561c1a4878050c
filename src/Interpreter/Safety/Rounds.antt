-- ===== src/Interpreter/Safety/Rounds.antt =====
-- The rounds of `interpret`, and the worklist: every index that is visited has a start state.
use pyjion.Prelude.{
  ◌≡◌, ◌≢◌, refl, sym, ◌∙◌, inl, inr, ap, ℕ, ◌+◌, if◌then◌else◌, Bool, true, false, Option, none,
  some,
}
use pyjion.Opcode.{Opcode}
use pyjion.State.{InterpreterState}
use pyjion.Interpreter.{Context, Machine, Action, pure, ◌>>=◌, Flow, next, next_block, finished}
use pyjion.Interpreter.Actions.{gets}
use pyjion.Interpreter.Dispatch.{interpret_opcode}
use pyjion.Interpreter.Step.{
  push_exception, enter_handler, state_or_empty, set_probe, fall_through, finish_opcode,
  process_opcode,
}
use pyjion.Interpreter.Contracts.{IsValid, IsStarted, restores}
use pyjion.Interpreter.Contracts.Primitives.{gets-HasEffect, modify-HasEffect, push_many-HasEffect}
use pyjion.Interpreter.Contracts.Updates.{update-AreConsistent}
use pyjion.Interpreter.Contracts.Jumping.{handle_pop_block-Left, handle_pop_except-Left}
use pyjion.Interpreter.Contracts.Effects.{interpret_opcode-HasEffect}
use mathlib.Core.Path.{subst}
use pyjion.Interpreter.Contracts.Restoring.{restores-cases}
use pyjion.Interpreter.Safety.{
  Sound, IsSound, Anything, Left-Sound, bind-IsSound, HasEffect-IsSound, state-IsSound,
  update-IsSound,
}

-- Where the analysis goes on with the next opcode, that one has a start state.
abbrev pub Continues : ℕ → Flow → Machine → Type 0
Continues cur (next skip_effect jump) m = IsStarted m (cur + 2)
Continues cur next_block m = Unit
Continues cur (finished r) m = Unit

started_Continues :
    (cur : ℕ) (flow : Flow) (m : Machine) → IsStarted m (cur + 2) → Continues cur flow m
started_Continues cur (next skip jump) m s = s
started_Continues cur next_block m s = tt
started_Continues cur (finished r) m s = tt

module _ {ctx : Context} {size cur : ℕ} where
  pub pure-IsSound :
      {A : Type 0} {P : A → Machine → Type 0} (a : A)
      → ((m : Machine) → P a m)
      → IsSound ctx size cur A P (pure a)
  pure-IsSound a p = record { run = λ m v s. (v, λ i q. q, p m) }

  if-IsSound :
      {A : Type 0} {P : A → Machine → Type 0} (b : Bool) {f g : Action A}
      → IsSound ctx size cur A P f
      → IsSound ctx size cur A P g
      → IsSound ctx size cur A P (if b then f else g)
  if-IsSound true p q = p
  if-IsSound false p q = q

  pub gets-IsSound : {A : Type 0} (f : Machine → A) → IsSound ctx size cur A Anything (gets f)
  gets-IsSound f = HasEffect-IsSound (gets-HasEffect f)

  push_exception-IsSound : (o : Option ℕ) → IsSound ctx size cur Bool Anything (push_exception o)
  unfolding push_exception
  push_exception-IsSound none = pure-IsSound _ (λ m. tt)
  push_exception-IsSound (some setup) =
      bind-IsSound (HasEffect-IsSound (push_many-HasEffect setup _ 6))
        (λ u. pure-IsSound _ (λ m. tt))

  pub enter_handler-IsSound : (at : ℕ) → IsSound ctx size cur Bool Anything (enter_handler at)
  unfolding enter_handler
  enter_handler-IsSound at =
      bind-IsSound
        (HasEffect-IsSound (modify-HasEffect _ (λ m. refl) (λ m. refl) (λ m. refl) (λ m. refl)))
        (λ u. bind-IsSound (gets-IsSound _) push_exception-IsSound)

  pop_block-IsSound :
      (oparg : ℕ)
      → Opcode.pop_block ≡ ctx.code.opcode_at cur
      → IsSound ctx size cur Flow Anything (interpret_opcode ctx cur Opcode.pop_block oparg)
  unfolding interpret_opcode
  pop_block-IsSound oparg e = record {
    run = λ m v s.
        Left-Sound ctx size 0 (ctx.block_starts cur) m _
          (handle_pop_block-Left ctx size cur m v (v.blocks cur (sym (ap restores e))));
  }

  pop_except-IsSound :
      (oparg : ℕ)
      → Opcode.pop_except ≡ ctx.code.opcode_at cur
      → IsSound ctx size cur Flow Anything (interpret_opcode ctx cur Opcode.pop_except oparg)
  unfolding interpret_opcode
  pop_except-IsSound oparg e = record {
    run = λ m v s.
        Left-Sound ctx size 3 (ctx.block_starts cur) m _
          (handle_pop_except-Left ctx size cur m v (v.blocks cur (sym (ap restores e))));
  }

  -- The handler of the opcode at an index keeps the machine valid and the start states that there
  -- are, and throws no `StackImbalanceException`.
  pub interpret_opcode-IsSound :
      (opcode : Opcode) (oparg : ℕ)
      → opcode ≡ ctx.code.opcode_at cur
      → IsSound ctx size cur Flow Anything (interpret_opcode ctx cur opcode oparg)
  interpret_opcode-IsSound opcode oparg e = elim (restores-cases opcode) [
    | inl r ↦ HasEffect-IsSound (interpret_opcode-HasEffect cur opcode oparg r)
    | inr (inl r) ↦
        subst (λ o. IsSound ctx size cur Flow Anything (interpret_opcode ctx cur o oparg)) (sym r)
          (pop_block-IsSound oparg (sym r ∙ e))
    | inr (inr r) ↦
        subst (λ o. IsSound ctx size cur Flow Anything (interpret_opcode ctx cur o oparg)) (sym r)
          (pop_except-IsSound oparg (sym r ∙ e))
  ]

  set_probe-Sound :
      (flow : Flow) (m : Machine) (o : Option InterpreterState)
      → IsValid ctx size m
      → IsStarted m (cur + 2)
      → m.start_states cur ≡ o
      → o ≢ none
      → Sound ctx size (Continues cur) m ((set_probe cur >>= λ u. pure flow) m)
  unfolding set_probe state_or_empty ◌>>=◌
  set_probe-Sound flow m none v t e s = absurd (s refl)
  set_probe-Sound flow m (some state) v t e s =
      let (c, k) = update-AreConsistent m cur _ (rw e (v.start_counts cur state e)) v in
      (c, k, started_Continues cur flow _ (k (cur + 2) t))

  fall_through-IsSound :
      (flow : Flow) → IsSound ctx size cur Flow (Continues cur) (fall_through ctx cur flow)
  unfolding fall_through
  fall_through-IsSound flow = state-IsSound (λ state e.
      update-IsSound _ state (cur + 2) e
        (λ b m v s t. set_probe-Sound flow m (m.start_states cur) v t refl s))

  finish_opcode-IsSound :
      (opcode : Opcode) (oparg before : ℕ) (entered : Bool) (flow : Flow)
      → IsSound ctx size cur Flow
          (Continues cur)
          (finish_opcode ctx cur opcode oparg before entered flow)
  unfolding finish_opcode
  finish_opcode-IsSound opcode oparg before entered (next skip jump) =
      bind-IsSound (gets-IsSound _)
        (λ after. if-IsSound _ (fall_through-IsSound _) (pure-IsSound _ (λ m. tt)))
  finish_opcode-IsSound opcode oparg before entered next_block = pure-IsSound _ (λ m. tt)
  finish_opcode-IsSound opcode oparg before entered (finished r) = pure-IsSound _ (λ m. tt)

  pub process_opcode-IsSound :
      (opcode : Opcode) (oparg : ℕ)
      → opcode ≡ ctx.code.opcode_at cur
      → IsSound ctx size cur Flow (Continues cur) (process_opcode ctx cur opcode oparg)
  unfolding process_opcode
  process_opcode-IsSound opcode oparg e = bind-IsSound (gets-IsSound _) (λ before.
      bind-IsSound (enter_handler-IsSound cur) (λ entered.
        bind-IsSound (interpret_opcode-IsSound opcode oparg e)
          (finish_opcode-IsSound opcode oparg before entered)))
