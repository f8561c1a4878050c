-- ===== src/Interpreter/Contracts/Shuffling.antt =====
-- The effects of the opcodes that move values on the stack, and load and store locals
-- (Shuffles.antt).
use pyjion.Prelude.{arith, ℕ}
use pyjion.Interpreter.{Context, Flow}
use pyjion.Interpreter.Contracts.{HasEffect, ◌▹◌, cast-HasEffect, peek-HasEffect}
use pyjion.Interpreter.Contracts.Primitives.{
  pure-HasEffect, or_undefined-HasEffect, pop_value-HasEffect, push-HasEffect,
  new_intermediate-HasEffect, combine_sources-HasEffect, set_opcode_sources-HasEffect,
  add_opcode_source-HasEffect, get_local-HasEffect, replace_local-HasEffect,
}
use pyjion.Interpreter.Contracts.Peeking.{probe_if-Peeks}
use pyjion.State.{ValueWithSources}
use pyjion.Interpreter.Shuffles.{
  renew, handle_rot_two, handle_rot_three, handle_rot_four, handle_dup_top, handle_dup_top_two,
  handle_load_const, handle_load_fast, handle_store_fast, handle_delete_fast,
}

module _ {ctx : Context} {size : ℕ} where
  pub renew-HasEffect :
      (cur : ℕ) (v : ValueWithSources) → HasEffect ctx size 0 0 ValueWithSources (renew cur v)
  unfolding renew
  renew-HasEffect cur v =
      cast-HasEffect (omega arith) (omega arith)
        (new_intermediate-HasEffect cur ▹ λ s. pure-HasEffect _)

  pub handle_rot_two-HasEffect : (cur : ℕ) → HasEffect ctx size 2 2 Flow (handle_rot_two cur)
  unfolding handle_rot_two
  handle_rot_two-HasEffect cur = cast-HasEffect (omega arith) (omega arith) (
      pop_value-HasEffect cur ▹ λ a. pop_value-HasEffect cur ▹ λ b.
      combine_sources-HasEffect _ _ ▹ λ s. set_opcode_sources-HasEffect cur _ ▹ λ u.
      renew-HasEffect cur a ▹ λ w.
      renew-HasEffect cur b ▹ λ w. push-HasEffect _ ▹ λ u. push-HasEffect _ ▹ λ u. pure-HasEffect _)

  pub handle_rot_three-HasEffect : (cur : ℕ) → HasEffect ctx size 3 3 Flow (handle_rot_three cur)
  unfolding handle_rot_three
  handle_rot_three-HasEffect cur = cast-HasEffect (omega arith) (omega arith) (
      pop_value-HasEffect cur ▹ λ a. pop_value-HasEffect cur ▹ λ b. pop_value-HasEffect cur ▹ λ c.
      combine_sources-HasEffect _ _ ▹ λ s. combine_sources-HasEffect _ _ ▹ λ s.
      set_opcode_sources-HasEffect cur _ ▹ λ u. renew-HasEffect cur a ▹ λ w.
      renew-HasEffect cur b ▹ λ w. renew-HasEffect cur c ▹ λ w.
      push-HasEffect _ ▹ λ u. push-HasEffect _ ▹ λ u. push-HasEffect _ ▹ λ u. pure-HasEffect _)

  pub handle_rot_four-HasEffect : (cur : ℕ) → HasEffect ctx size 4 4 Flow (handle_rot_four cur)
  unfolding handle_rot_four
  handle_rot_four-HasEffect cur = cast-HasEffect (omega arith) (omega arith) (
      pop_value-HasEffect cur ▹ λ a. pop_value-HasEffect cur ▹ λ b. pop_value-HasEffect cur ▹ λ c.
      pop_value-HasEffect cur ▹ λ d. combine_sources-HasEffect _ _ ▹ λ s.
      combine_sources-HasEffect _ _ ▹ λ s. combine_sources-HasEffect _ _ ▹ λ s.
      set_opcode_sources-HasEffect cur _ ▹ λ u. renew-HasEffect cur a ▹ λ w.
      renew-HasEffect cur b ▹ λ w. renew-HasEffect cur c ▹ λ w. renew-HasEffect cur d ▹ λ w.
      push-HasEffect _ ▹ λ u.
      push-HasEffect _ ▹ λ u. push-HasEffect _ ▹ λ u. push-HasEffect _ ▹ λ u. pure-HasEffect _)

  pub handle_dup_top-HasEffect : (cur : ℕ) → HasEffect ctx size 1 2 Flow (handle_dup_top cur)
  unfolding handle_dup_top
  handle_dup_top-HasEffect cur = cast-HasEffect (omega arith) (omega arith) (
      pop_value-HasEffect cur ▹ λ a. renew-HasEffect cur a ▹ λ w.
      push-HasEffect _ ▹ λ u. renew-HasEffect cur a ▹ λ w. push-HasEffect _ ▹ λ u. pure-HasEffect _)

  pub handle_dup_top_two-HasEffect :
      (cur : ℕ) → HasEffect ctx size 2 4 Flow (handle_dup_top_two cur)
  unfolding handle_dup_top_two
  handle_dup_top_two-HasEffect cur = cast-HasEffect (omega arith) (omega arith) (
      pop_value-HasEffect cur ▹ λ a. pop_value-HasEffect cur ▹ λ b. renew-HasEffect cur a ▹ λ w.
      renew-HasEffect cur b ▹ λ w. push-HasEffect _ ▹ λ u.
      push-HasEffect _ ▹ λ u. push-HasEffect _ ▹ λ u. push-HasEffect _ ▹ λ u. pure-HasEffect _)

  pub handle_load_const-HasEffect :
      (cur oparg : ℕ) → HasEffect ctx size 0 1 Flow (handle_load_const ctx cur oparg)
  unfolding handle_load_const
  handle_load_const-HasEffect cur oparg = cast-HasEffect (omega arith) (omega arith) (
      or_undefined-HasEffect _ ▹ λ c.
      add_opcode_source-HasEffect cur _ ▹ λ s. push-HasEffect _ ▹ λ u. pure-HasEffect _)

  pub handle_load_fast-HasEffect :
      (cur oparg : ℕ) → HasEffect ctx size 0 1 Flow (handle_load_fast cur oparg)
  unfolding handle_load_fast
  handle_load_fast-HasEffect cur oparg = cast-HasEffect (omega arith) (omega arith) (
      add_opcode_source-HasEffect cur _ ▹ λ s.
      get_local-HasEffect oparg ▹ λ l. push-HasEffect _ ▹ λ u. pure-HasEffect _)

  pub handle_store_fast-HasEffect :
      (cur oparg : ℕ) → HasEffect ctx size 1 0 Flow (handle_store_fast ctx cur oparg)
  unfolding handle_store_fast
  handle_store_fast-HasEffect cur oparg =
      peek-HasEffect (probe_if-Peeks _ cur _ _)
        (λ u. cast-HasEffect (omega arith) (omega arith) (
          pop_value-HasEffect cur ▹ λ v. set_opcode_sources-HasEffect cur _ ▹ λ u.
          replace_local-HasEffect oparg _ ▹ λ w. pure-HasEffect _))
        (omega arith)

  pub handle_delete_fast-HasEffect :
      (oparg : ℕ) → HasEffect ctx size 0 0 Flow (handle_delete_fast oparg)
  unfolding handle_delete_fast
  handle_delete_fast-HasEffect oparg =
      cast-HasEffect (omega arith) (omega arith)
        (replace_local-HasEffect oparg _ ▹ λ u. pure-HasEffect _)
