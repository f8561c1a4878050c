-- ===== src/Interpreter/Jumps.antt =====
-- The opcodes of `interpret` that jump, and those that set up and leave blocks
-- (src/pyjion/absint.cpp). The index `target` is `jumpsTo(opcode, oparg, opcodeIndex)`.
use pyjion.Prelude.{ℕ, true, false, Option, none, some, []}
use pyjion.Value.{any_value}
use pyjion.Binary.{next}
use pyjion.Links.{update}
use pyjion.State.{InterpreterState}
use pyjion.Interpreter.{Context, Machine, Action, pure, ◌>>=◌, ◌>>◌, Flow, next_block}
use pyjion.Interpreter
use pyjion.Interpreter.Actions.{
  gets, modify, pop, pop_value, pop_values, push, push_fresh, branch_state, branch_to,
}
use pyjion.Interpreter.Shuffles.{go_on, renew}

unfoldable pub handle_pop_jump : Context → ℕ → ℕ → Action Flow
unfolding pop_value branch_to
handle_pop_jump ctx cur target = do pop_value cur; branch_to ctx target; go_on

unfoldable pub handle_jump_or_pop : Context → ℕ → ℕ → Action Flow
unfolding pop_value renew push branch_to
handle_jump_or_pop ctx cur target = do
  top ← pop_value cur
  top' ← renew cur top
  push top'
  branch_to ctx target
  pop_value cur
  go_on

unfoldable pub handle_jump_if_not_exc_match : Context → ℕ → ℕ → Action Flow
unfolding pop_values branch_to
handle_jump_if_not_exc_match ctx cur target = do
  pop_values cur 2
  branch_to ctx target
  pure next_block

unfoldable pub handle_jump : Context → ℕ → Action Flow
unfolding branch_to
handle_jump ctx target = do branch_to ctx target; pure next_block

unfoldable pub handle_return_value : ℕ → Action Flow
unfolding pop_value
handle_return_value cur = do pop_value cur; pure next_block

-- The iterator is popped in a copy of the state, which flows to the end of the loop; a renewed
-- iterator and the next value are pushed in the state itself.
unfoldable pub handle_for_iter : Context → ℕ → ℕ → Action Flow
unfolding pop branch_state renew push next push_fresh
handle_for_iter ctx cur target = do
  state ← gets (λ m. m.state)
  iterator ← pop cur 0
  leave ← gets (λ m. m.state)
  modify (λ m. record m { state = state })
  branch_state ctx leave target
  iterator' ← renew cur iterator
  push iterator'
  push_fresh cur (next iterator.value)
  pure (Interpreter.next true false)

-- `mStartStates[index].mStack`; an index that has no state gets an empty one.
unfoldable pub start_stack : ℕ → Option InterpreterState → Action (Unit {0})
start_stack index none = modify (λ m. record m {
  state = record m.state { stack = [] };
  start_states =
      update m.start_states index
        (some (record { stack = []; locals = []; requires_pgc_probe = false; pgc_probe_size = 0 }));
})
start_stack index (some s) = modify (λ m. record m { state = record m.state { stack = s.stack } })

unfoldable pub restore_stack : Context → ℕ → Action (Unit {0})
unfolding start_stack
restore_stack ctx cur = do
  s ← gets (λ m. m.start_states (ctx.block_starts cur))
  start_stack (ctx.block_starts cur) s

unfoldable pub handle_pop_block : Context → ℕ → Action Flow
unfolding restore_stack
handle_pop_block ctx cur = do restore_stack ctx cur; pure next_block

unfoldable pub handle_pop_except : Context → ℕ → Action Flow
unfolding pop_values restore_stack
handle_pop_except ctx cur = do pop_values cur 3; restore_stack ctx cur; pure next_block

-- The value of `__enter__` is on the stack where the block ends too; `jump` tells whether the
-- state there changed.
unfoldable pub handle_setup_with : Context → ℕ → ℕ → Action Flow
unfolding push_fresh branch_state
handle_setup_with ctx cur target = do
  state ← gets (λ m. m.state)
  push_fresh cur any_value
  finally_state ← gets (λ m. m.state)
  modify (λ m. record m { state = state })
  changed ← branch_state ctx finally_state target
  push_fresh cur any_value
  pure (Interpreter.next false changed)

-- The block of the handler starts at `target`.
unfoldable pub handle_setup_finally : Context → ℕ → ℕ → Action Flow
unfolding branch_to
handle_setup_finally ctx cur target = do
  modify (λ m. record m { try_except_markers = update m.try_except_markers target (some cur) })
  branch_to ctx target
  go_on
