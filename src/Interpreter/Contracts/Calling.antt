-- ===== src/Interpreter/Contracts/Calling.antt =====
-- The effects of the opcodes that call and that make functions (Calls.antt).
use pyjion.Prelude.{arith, ℕ, ◌+◌, ◌*◌, ◌/◌, ◌%◌, if◌then◌else◌, Bool, Option, none, some}
use pyjion.Interpreter.{Context, Flow}
use pyjion.Interpreter.Actions.{rounds}
use pyjion.Interpreter.Contracts.{HasEffect, ◌▹◌, cast-HasEffect, peek-HasEffect, if-HasEffect}
use pyjion.Interpreter.Contracts.Primitives.{
  pure-HasEffect, raise-HasEffect, gets-HasEffect, or_undefined-HasEffect, pop_value-HasEffect,
  pop_values-HasEffect, push-HasEffect, new_source-HasEffect, push_fresh-HasEffect,
}
use pyjion.Interpreter.Contracts.Peeking.{probe_if-Peeks}
use pyjion.Value.{Settings}
use pyjion.Source.{
  SourceClass, intermediate_source, local_source, global_source, builtin_source, const_source,
  method_source, iterator_source,
}
use pyjion.State.{ValueWithSources}
use pyjion.Interpreter.Calls.{
  handle_call_function, handle_call_function_kw, handle_call_function_ex, has_bit, pop_if,
  handle_make_function, handle_format_value, handle_load_method, push_method_result,
  handle_call_method,
}
use pyjion.Interpreter.Contracts.Shuffling.{renew-HasEffect}

-- The values that a flag of the argument asks for.
abbrev pub flag : ℕ → ℕ → ℕ
flag oparg b = if has_bit oparg b then 1 else 0

module _ {ctx : Context} {size : ℕ} where
  pop_if-HasEffect :
      (cur : ℕ) (b : Bool) → HasEffect ctx size (if b then 1 else 0) 0 Unit (pop_if cur b)
  unfolding pop_if
  pop_if-HasEffect cur b = pop_values-HasEffect cur (if b then 1 else 0)

  pub handle_call_function-HasEffect :
      (cur oparg : ℕ)
      → HasEffect ctx size
          (oparg % 256 + 2 * (oparg / 256 % 256) + 1)
          (1)
          Flow
          (handle_call_function ctx cur oparg)
  unfolding handle_call_function
  handle_call_function-HasEffect cur oparg =
      peek-HasEffect (probe_if-Peeks _ cur _ _)
        (λ u. cast-HasEffect (omega arith) (omega arith) (
          pop_values-HasEffect cur (oparg % 256) ▹ λ u.
          pop_values-HasEffect cur (2 * (oparg / 256 % 256)) ▹ λ u.
          pop_value-HasEffect cur ▹ λ func. gets-HasEffect _ ▹ λ s.
          new_source-HasEffect _ cur ▹ λ s. push-HasEffect _ ▹ λ u. pure-HasEffect _))
        (omega arith)

  pub handle_call_function_kw-HasEffect :
      (cur oparg : ℕ)
      → HasEffect ctx size (rounds oparg + 2) (1) Flow (handle_call_function_kw cur oparg)
  unfolding handle_call_function_kw
  handle_call_function_kw-HasEffect cur oparg = cast-HasEffect (omega arith) (omega arith) (
      pop_value-HasEffect cur ▹ λ v. pop_values-HasEffect cur (rounds oparg) ▹ λ u.
      pop_value-HasEffect cur ▹ λ v. push_fresh-HasEffect cur _ ▹ λ u. pure-HasEffect _)

  pub handle_call_function_ex-HasEffect :
      (cur oparg : ℕ)
      → HasEffect ctx size (flag oparg 1 + 2) (1) Flow (handle_call_function_ex cur oparg)
  unfolding handle_call_function_ex
  handle_call_function_ex-HasEffect cur oparg = cast-HasEffect (omega arith) (omega arith) (
      pop_if-HasEffect cur (has_bit oparg 1) ▹ λ u. pop_value-HasEffect cur ▹ λ v.
      pop_value-HasEffect cur ▹ λ v. push_fresh-HasEffect cur _ ▹ λ u. pure-HasEffect _)

  pub handle_make_function-HasEffect :
      (cur oparg : ℕ)
      → HasEffect ctx size
          (2 + flag oparg 8 + flag oparg 4 + flag oparg 2 + flag oparg 1)
          (1)
          Flow
          (handle_make_function cur oparg)
  unfolding handle_make_function
  handle_make_function-HasEffect cur oparg = cast-HasEffect (omega arith) (omega arith) (
      pop_value-HasEffect cur ▹ λ v. pop_value-HasEffect cur ▹ λ v.
      pop_if-HasEffect cur (has_bit oparg 8) ▹ λ u. pop_if-HasEffect cur (has_bit oparg 4) ▹ λ u.
      pop_if-HasEffect cur (has_bit oparg 2) ▹ λ u. pop_if-HasEffect cur (has_bit oparg 1) ▹ λ u.
      push_fresh-HasEffect cur _ ▹ λ u. pure-HasEffect _)

  pub handle_format_value-HasEffect :
      (cur oparg : ℕ)
      → HasEffect ctx size (flag oparg 4 + 1) (1) Flow (handle_format_value cur oparg)
  unfolding handle_format_value
  handle_format_value-HasEffect cur oparg = cast-HasEffect (omega arith) (omega arith) (
      pop_if-HasEffect cur (has_bit oparg 4) ▹ λ u.
      pop_value-HasEffect cur ▹ λ v. push_fresh-HasEffect cur _ ▹ λ u. pure-HasEffect _)

  pub handle_load_method-HasEffect :
      (cur oparg : ℕ) → HasEffect ctx size (1) (2) Flow (handle_load_method ctx cur oparg)
  unfolding handle_load_method
  handle_load_method-HasEffect cur oparg = cast-HasEffect (omega arith) (omega arith) (
      pop_value-HasEffect cur ▹ λ object. or_undefined-HasEffect _ ▹ λ name.
      new_source-HasEffect _ cur ▹ λ s. renew-HasEffect cur object ▹ λ w.
      push-HasEffect _ ▹ λ u. push-HasEffect _ ▹ λ u. pure-HasEffect _)

  push_method_result-HasEffect :
      (s : Settings) (cur : ℕ) (self : ValueWithSources) (o : Option SourceClass)
      → HasEffect ctx size 0 1 Unit (push_method_result s cur self o)
  unfolding push_method_result
  push_method_result-HasEffect s cur self none = raise-HasEffect 0 1
  push_method_result-HasEffect s cur self (some intermediate_source) = raise-HasEffect 0 1
  push_method_result-HasEffect s cur self (some local_source) = raise-HasEffect 0 1
  push_method_result-HasEffect s cur self (some (global_source name)) = raise-HasEffect 0 1
  push_method_result-HasEffect s cur self (some (builtin_source name)) = raise-HasEffect 0 1
  push_method_result-HasEffect s cur self (some (iterator_source k)) = raise-HasEffect 0 1
  push_method_result-HasEffect s cur self (some (const_source c)) = raise-HasEffect 0 1
  push_method_result-HasEffect s cur self (some (method_source name)) = push_fresh-HasEffect cur _

  pub handle_call_method-HasEffect :
      (cur oparg : ℕ)
      → HasEffect ctx size (rounds oparg + 2) (1) Flow (handle_call_method ctx cur oparg)
  unfolding handle_call_method
  handle_call_method-HasEffect cur oparg =
      peek-HasEffect (probe_if-Peeks _ cur _ _)
        (λ u. cast-HasEffect (omega arith) (omega arith) (
          pop_values-HasEffect cur (rounds oparg) ▹ λ u. pop_value-HasEffect cur ▹ λ method.
          pop_value-HasEffect cur ▹ λ self. gets-HasEffect _ ▹ λ s.
          if-HasEffect _ (push_method_result-HasEffect ctx.settings cur self _)
            (push_fresh-HasEffect cur _)
          ▹ λ u. pure-HasEffect _))
        (omega arith)
