-- ===== src/Interpreter/Contracts/Jumping.antt =====
-- The effects of the opcodes that jump, and of those that set up and leave blocks (Jumps.antt).
use pyjion.Prelude.{◌≡◌, refl, arith, ℕ, Option, none, some, List, length, ◌<◌}
use pyjion.Interpreter.{Context, Action, Flow, ◌>>=◌}
use pyjion.Interpreter.Actions.{pop_values}
use pyjion.Interpreter.Contracts.{HasEffect, ◌▹◌, cast-HasEffect}
use pyjion.Interpreter.Contracts.Primitives.{
  pure-HasEffect, modify-HasEffect, pop-HasEffect, pop_value-HasEffect, pop_values-HasEffect,
  push-HasEffect, push_fresh-HasEffect,
}
use pyjion.State.{ValueWithSources, InterpreterState}
use pyjion.Interpreter.{
  Machine, pure, next_block, ok, fault, Result, stack_underflow, stack_imbalance, undefined,
}
use pyjion.Interpreter.Jumps.{
  handle_pop_jump, handle_jump_or_pop, handle_jump_if_not_exc_match, handle_jump,
  handle_return_value, handle_for_iter, start_stack, restore_stack, handle_pop_block,
  handle_pop_except, handle_setup_with, handle_setup_finally,
}
use pyjion.Interpreter.Contracts.{Meets, IsValid, IsStarted}
use pyjion.Interpreter.Contracts.Flows.{branch_to-HasEffect, branch_state-HasEffect, copy-HasEffect}
use pyjion.Interpreter.Contracts.Shuffling.{renew-HasEffect}

abbrev pub HasStack : Option InterpreterState → List ValueWithSources → Type 0
HasStack none stack = ⊥
HasStack (some s) stack = stack ≡ s.stack

-- The outcome leaves the block that starts at `start`: the stack is the one of the state there, and
-- start states stay. There is no imbalance, and an underflow only with fewer values than `taken`.
abbrev pub Left : (ctx : Context) (size taken start : ℕ) → Machine → Result Flow → Type 0
Left ctx size taken start m (ok flow m') =
    HasStack (m'.start_states start) m'.state.stack
    × IsValid ctx size m'
    × ((i : ℕ) → IsStarted m i → IsStarted m' i)
Left ctx size taken start m (fault stack_underflow) = length m.state.stack < taken
Left ctx size taken start m (fault stack_imbalance) = ⊥
Left ctx size taken start m (fault undefined) = Unit

module _ {ctx : Context} {size : ℕ} where
  pub handle_pop_jump-HasEffect :
      (cur target : ℕ) → HasEffect ctx size (1) (0) Flow (handle_pop_jump ctx cur target)
  unfolding handle_pop_jump
  handle_pop_jump-HasEffect cur target =
      cast-HasEffect (omega arith) (omega arith)
        (pop_value-HasEffect cur ▹ λ v. branch_to-HasEffect target ▹ λ b. pure-HasEffect _)

  pub handle_jump_or_pop-HasEffect :
      (cur target : ℕ) → HasEffect ctx size (1) (0) Flow (handle_jump_or_pop ctx cur target)
  unfolding handle_jump_or_pop
  handle_jump_or_pop-HasEffect cur target = cast-HasEffect (omega arith) (omega arith) (
      pop_value-HasEffect cur ▹ λ top. renew-HasEffect cur top ▹ λ w. push-HasEffect _ ▹ λ u.
      branch_to-HasEffect target ▹ λ b. pop_value-HasEffect cur ▹ λ v. pure-HasEffect _)

  pub handle_jump_if_not_exc_match-HasEffect :
      (cur target : ℕ)
      → HasEffect ctx size (2) (0) Flow (handle_jump_if_not_exc_match ctx cur target)
  unfolding handle_jump_if_not_exc_match
  handle_jump_if_not_exc_match-HasEffect cur target =
      cast-HasEffect (omega arith) (omega arith)
        (pop_values-HasEffect cur (2) ▹ λ u. branch_to-HasEffect target ▹ λ b. pure-HasEffect _)

  pub handle_jump-HasEffect :
      (target : ℕ) → HasEffect ctx size (0) (0) Flow (handle_jump ctx target)
  unfolding handle_jump
  handle_jump-HasEffect target =
      cast-HasEffect (omega arith) (omega arith)
        (branch_to-HasEffect target ▹ λ b. pure-HasEffect _)

  pub handle_return_value-HasEffect :
      (cur : ℕ) → HasEffect ctx size (1) (0) Flow (handle_return_value cur)
  unfolding handle_return_value
  handle_return_value-HasEffect cur =
      cast-HasEffect (omega arith) (omega arith) (pop_value-HasEffect cur ▹ λ v. pure-HasEffect _)

  pub handle_for_iter-HasEffect :
      (cur target : ℕ) → HasEffect ctx size 1 3 Flow (handle_for_iter ctx cur target)
  unfolding handle_for_iter
  handle_for_iter-HasEffect cur target =
      copy-HasEffect {k' = 2} (pop-HasEffect cur 0) (λ iterator leave e.
        cast-HasEffect (omega arith) (omega arith) (
          branch_state-HasEffect leave target e ▹ λ b. renew-HasEffect cur iterator ▹ λ w.
          push-HasEffect _ ▹ λ u. push_fresh-HasEffect cur _ ▹ λ u. pure-HasEffect _))

  pub handle_setup_with-HasEffect :
      (cur target : ℕ) → HasEffect ctx size 0 1 Flow (handle_setup_with ctx cur target)
  unfolding handle_setup_with
  handle_setup_with-HasEffect cur target =
      copy-HasEffect {k' = 1} (push_fresh-HasEffect cur _) (λ u finally_state e.
        cast-HasEffect (omega arith) (omega arith) (
          branch_state-HasEffect finally_state target e ▹ λ b.
          push_fresh-HasEffect cur _ ▹ λ u. pure-HasEffect _))

  pub handle_setup_finally-HasEffect :
      (cur target : ℕ) → HasEffect ctx size (0) (0) Flow (handle_setup_finally ctx cur target)
  unfolding handle_setup_finally
  handle_setup_finally-HasEffect cur target = cast-HasEffect (omega arith) (omega arith) (
      modify-HasEffect _ (λ m. refl) (λ m. refl) (λ m. refl) (λ m. refl) ▹ λ u.
      branch_to-HasEffect target ▹ λ b. pure-HasEffect _)

module _ (ctx : Context) (size : ℕ) where
  start_stack-Left :
      (start : ℕ) (m : Machine)
      → IsValid ctx size m
      → IsStarted m start
      → (o : Option InterpreterState) → m.start_states start ≡ o
      → Left ctx size 0 start m ((start_stack start o >>= λ u. pure next_block) m)
  unfolding start_stack ◌>>=◌
  start_stack-Left start m v s none e = absurd (s e)
  start_stack-Left start m v s (some state) e = (rw e refl, v, λ i p. p)

  restore_stack-Left :
      (cur : ℕ) (m : Machine)
      → IsValid ctx size m
      → IsStarted m (ctx.block_starts cur)
      → Left ctx size 0
          (ctx.block_starts cur)
          m
          ((restore_stack ctx cur >>= λ u. pure next_block) m)
  unfolding restore_stack ◌>>=◌
  restore_stack-Left cur m v s = start_stack-Left (ctx.block_starts cur) m v s _ refl

  -- Popping three values first.
  weaken-Left :
      (start : ℕ) (m m' : Machine) (r : Result Flow)
      → ((i : ℕ) → IsStarted m i → IsStarted m' i)
      → Left ctx size 0 start m' r
      → Left ctx size 3 start m r
  weaken-Left start m m' (ok flow m2) k (h, v, s) = (h, v, λ i p. s i (k i p))
  weaken-Left start m m' (fault stack_underflow) k l = absurd (omega (arith, l))
  weaken-Left start m m' (fault stack_imbalance) k l = l
  weaken-Left start m m' (fault undefined) k l = tt

  popped_Left :
      (start : ℕ) (m : Machine) (r : Result (Unit {0})) (f : Action Flow)
      → IsStarted m start
      → Meets ctx size 3 0 m r
      → ((m : Machine) → IsValid ctx size m → IsStarted m start → Left ctx size 0 start m (f m))
      → Left ctx size 3 start m (elim r [ ok u m' ↦ f m' | fault e ↦ fault e ])
  popped_Left start m (ok u m') f p (h, e, v, s) next =
      weaken-Left start m m' (f m') s (next m' v (s start p))
  popped_Left start m (fault stack_underflow) f p l next = l
  popped_Left start m (fault stack_imbalance) f p l next = l
  popped_Left start m (fault undefined) f p l next = tt

  pub handle_pop_block-Left :
      (cur : ℕ) (m : Machine)
      → IsValid ctx size m
      → IsStarted m (ctx.block_starts cur)
      → Left ctx size 0 (ctx.block_starts cur) m (handle_pop_block ctx cur m)
  unfolding handle_pop_block
  handle_pop_block-Left cur m v s = restore_stack-Left cur m v s

  pub handle_pop_except-Left :
      (cur : ℕ) (m : Machine)
      → IsValid ctx size m
      → IsStarted m (ctx.block_starts cur)
      → Left ctx size 3 (ctx.block_starts cur) m (handle_pop_except ctx cur m)
  unfolding handle_pop_except ◌>>=◌
  handle_pop_except-Left cur m v s =
      popped_Left (ctx.block_starts cur) m (pop_values cur 3 m)
        (restore_stack ctx cur >>= λ u. pure next_block) s ((pop_values-HasEffect cur 3).run m v)
        (λ m' v' s'. restore_stack-Left cur m' v' s')
