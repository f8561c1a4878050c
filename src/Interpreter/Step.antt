-- ===== src/Interpreter/Step.antt =====
-- One round of the loop of `interpret` (src/pyjion/absint.cpp): the exception values that a handler
-- begins with, the switch, the check of the stack effect, and the flow to the opcode that follows.
pub mod Fuel
use pyjion.Prelude.{
  ℕ, zero, suc, ltb, ◌+◌, ◌*◌, ◌%◌, ◌^◌, if◌then◌else◌, Bool, true, false, ◌||◌, Option, none, some,
  [], length,
}
use pyjion.Prelude.Int.{sub_ℕ, eq_ℤ}
use pyjion.Opcode.{Opcode}
use pyjion.Value.{any_value}
use pyjion.Links.{update}
use pyjion.State.{InterpreterState}
use pyjion.Interpreter.{
  Context, undefined, compilation_stack_effect_fault, Action, pure, raise, ◌>>=◌, ◌>>◌, Flow, next,
  finished,
}
use pyjion.Interpreter.Actions.{gets, modify, push_many, update_start}
use pyjion.Interpreter.Dispatch.{interpret_opcode}

unfoldable pub push_exception : Option ℕ → Action Bool
unfolding push_many
push_exception none = pure false
push_exception (some setup) = do push_many setup any_value 6; pure true

-- Where an exception handler begins, six values stand for the exception.
unfoldable pub enter_handler : ℕ → Action Bool
unfolding push_exception
enter_handler cur = do
  modify (λ m. record m { stack_position = 0 })
  setup ← gets (λ m. m.try_except_markers cur)
  push_exception setup

abbrev pub empty_state : InterpreterState
empty_state = record { stack = []; locals = []; requires_pgc_probe = false; pgc_probe_size = 0 }

unfoldable pub state_or_empty : Option InterpreterState → InterpreterState
state_or_empty none = empty_state
state_or_empty (some s) = s

-- `mStartStates[cur].pgcProbeSize = ...; mStartStates[cur].requiresPgcProbe = ...`
unfoldable pub set_probe : ℕ → Action (Unit {0})
unfolding state_or_empty
set_probe cur = modify (λ m. record m {
  start_states = update m.start_states cur (
      some (record (state_or_empty (m.start_states cur)) {
        requires_pgc_probe = m.pgc_required;
        pgc_probe_size = m.pgc_size;
      }));
})

-- The state flows to the opcode that follows.
unfoldable pub fall_through : Context → ℕ → Flow → Action Flow
unfolding update_start set_probe
fall_through ctx cur flow = do
  state ← gets (λ m. m.state)
  update_start ctx state (cur + 2)
  set_probe cur
  pure flow

-- Whether the stack has grown as CPython says. `before` is the size of the stack where the opcode
-- began.
unfoldable pub has_effect : Context → Opcode → ℕ → Bool → ℕ → ℕ → Bool
has_effect ctx opcode oparg jump before after =
    eq_ℤ (ctx.stack_effect opcode oparg jump) (sub_ℕ after before)

unfoldable pub finish_opcode : Context → ℕ → Opcode → ℕ → ℕ → Bool → Flow → Action Flow
unfolding has_effect fall_through
finish_opcode ctx cur opcode oparg before entered (next skip_effect jump) = do
  after ← gets (λ m. length m.state.stack)
  (if (entered || skip_effect) || has_effect ctx opcode oparg jump before after
      then fall_through ctx cur (next skip_effect jump)
      else pure (finished compilation_stack_effect_fault))
finish_opcode ctx cur opcode oparg before entered flow = pure flow

unfoldable pub process_opcode : Context → ℕ → Opcode → ℕ → Action Flow
unfolding enter_handler interpret_opcode finish_opcode
process_opcode ctx cur opcode oparg = do
  before ← gets (λ m. length m.state.stack)
  entered ← enter_handler cur
  flow ← interpret_opcode ctx cur opcode oparg
  finish_opcode ctx cur opcode oparg before entered flow

unfoldable pub is_extended_arg : Opcode → Bool
is_extended_arg Opcode.extended_arg = true
is_extended_arg _ = false

-- From `processOpCode` on, with the index where the opcode is found after its prefixes. The opcode
-- after a prefix is read without a look at the size of the code: at its end, that is a read past it.
-- The fuel counts the code units.
unfoldable pub process : ℕ → Context → ℕ → Opcode → ℕ → Action (ℕ × Flow)
unfolding is_extended_arg enter_handler update_start process_opcode
process zero ctx cur opcode oparg = raise undefined
process (suc n) ctx cur opcode oparg = elim (is_extended_arg opcode) [
  | true ↦ do
    enter_handler cur
    state ← gets (λ m. m.state)
    update_start ctx state (cur + 2)
    elim (ltb (cur + 2) ctx.code.size) [
      | true ↦
          process n ctx (cur + 2) (ctx.code.opcode_at (cur + 2))
            ((oparg * 256 + ctx.code.byte_at (cur + 2)) % 2 ^ 16)
      | false ↦ raise undefined
    ]
  | false ↦ do flow ← process_opcode ctx cur opcode oparg; pure (cur, flow)
]

unfoldable pub load_start : Option InterpreterState → Action (Unit {0})
load_start none = raise undefined
load_start (some state) =
    modify (λ m. record m { state = state; pgc_required = false; pgc_size = 0 })

-- The body of the `for` loop at the index `cur`.
unfoldable pub interpret_index : Context → ℕ → Action (ℕ × Flow)
unfolding load_start process
interpret_index ctx cur = do
  start ← gets (λ m. m.start_states cur)
  load_start start
  process ctx.code.size ctx cur (ctx.code.opcode_at cur) (ctx.code.byte_at cur)
