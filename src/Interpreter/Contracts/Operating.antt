-- ===== src/Interpreter/Contracts/Operating.antt =====
-- The effects of the opcodes that compute, build, and take names (Operators.antt).
use pyjion.Prelude.{refl, arith, ℕ, ◌+◌, ◌%◌, Option, none, some}
use pyjion.Interpreter.{Context, Flow, PyObject, Name}
use pyjion.Interpreter.Actions.{rounds}
use pyjion.Interpreter.Contracts.{HasEffect, ◌▹◌, cast-HasEffect, peek-HasEffect, if-HasEffect}
use pyjion.Interpreter.Contracts.Primitives.{
  pure-HasEffect, raise-HasEffect, gets-HasEffect, or_undefined-HasEffect, modify-HasEffect,
  pop_value-HasEffect, pop_values-HasEffect, push-HasEffect, push_fresh-HasEffect,
  push_many-HasEffect, add_opcode_source-HasEffect,
}
use pyjion.Interpreter.Contracts.Peeking.{probe_if-Peeks}
use pyjion.Opcode.{BinaryOp, UnaryOp}
use pyjion.Value.{AbstractValue}
use pyjion.State.{ValueWithSources}
use pyjion.Interpreter.Operators.{
  build, discard, handle_binary, handle_compare, handle_unary, handle_get_iter, high_rounds,
  handle_unpack_ex, handle_unpack_sequence, handle_store_subscr, resolve_global, load_builtin,
  load_global_value, handle_load_global, load_attribute, handle_load_attr, store_attribute,
  handle_store_attr,
}

module _ {ctx : Context} {size : ℕ} where
  pub build-HasEffect :
      (cur n : ℕ) (v : AbstractValue) → HasEffect ctx size n 1 Flow (build cur n v)
  unfolding build
  build-HasEffect cur n v =
      cast-HasEffect (omega arith) (omega arith)
        (pop_values-HasEffect cur (n) ▹ λ u. push_fresh-HasEffect cur _ ▹ λ u. pure-HasEffect _)

  pub discard-HasEffect : (cur n : ℕ) → HasEffect ctx size n 0 Flow (discard cur n)
  unfolding discard
  discard-HasEffect cur n =
      cast-HasEffect (omega arith) (omega arith)
        (pop_values-HasEffect cur (n) ▹ λ u. pure-HasEffect _)

  pub handle_binary-HasEffect :
      (cur : ℕ) (op : BinaryOp) → HasEffect ctx size 2 1 Flow (handle_binary ctx cur op)
  unfolding handle_binary
  handle_binary-HasEffect cur op =
      peek-HasEffect (probe_if-Peeks _ cur _ _)
        (λ u. cast-HasEffect (omega arith) (omega arith) (
          pop_value-HasEffect cur ▹ λ v. pop_value-HasEffect cur ▹ λ v.
          gets-HasEffect _ ▹ λ s. push_fresh-HasEffect cur _ ▹ λ u. pure-HasEffect _))
        (omega arith)

  pub handle_compare-HasEffect : (cur : ℕ) → HasEffect ctx size 2 1 Flow (handle_compare ctx cur)
  unfolding handle_compare
  handle_compare-HasEffect cur =
      peek-HasEffect (probe_if-Peeks _ cur _ _)
        (λ u. cast-HasEffect (omega arith) (omega arith) (
          pop_value-HasEffect cur ▹ λ v.
          pop_value-HasEffect cur ▹ λ v. push_fresh-HasEffect cur _ ▹ λ u. pure-HasEffect _))
        (omega arith)

  pub handle_unary-HasEffect :
      (cur : ℕ) (op : UnaryOp) → HasEffect ctx size 1 1 Flow (handle_unary cur op)
  unfolding handle_unary
  handle_unary-HasEffect cur op =
      cast-HasEffect (omega arith) (omega arith)
        (pop_value-HasEffect cur ▹ λ v. push_fresh-HasEffect cur _ ▹ λ u. pure-HasEffect _)

  pub handle_get_iter-HasEffect : (cur : ℕ) → HasEffect ctx size 1 1 Flow (handle_get_iter cur)
  unfolding handle_get_iter
  handle_get_iter-HasEffect cur =
      cast-HasEffect (omega arith) (omega arith)
        (pop_value-HasEffect cur ▹ λ v. push_fresh-HasEffect cur _ ▹ λ u. pure-HasEffect _)

  pub handle_unpack_ex-HasEffect :
      (cur oparg : ℕ)
      → HasEffect ctx size 1 (high_rounds oparg + 1 + oparg % 256) Flow (handle_unpack_ex cur oparg)
  unfolding handle_unpack_ex
  handle_unpack_ex-HasEffect cur oparg = cast-HasEffect (omega arith) (omega arith) (
      pop_value-HasEffect cur ▹ λ v. push_many-HasEffect cur _ (high_rounds oparg) ▹ λ u.
      push_fresh-HasEffect cur _ ▹ λ u.
      push_many-HasEffect cur _ (oparg % 256) ▹ λ u. pure-HasEffect _)

  pub handle_unpack_sequence-HasEffect :
      (cur oparg : ℕ)
      → HasEffect ctx size 1 (rounds oparg) Flow (handle_unpack_sequence ctx cur oparg)
  unfolding handle_unpack_sequence
  handle_unpack_sequence-HasEffect cur oparg =
      peek-HasEffect (probe_if-Peeks _ cur _ _)
        (λ u. cast-HasEffect (omega arith) (omega arith) (
          pop_value-HasEffect cur ▹ λ v.
          push_many-HasEffect cur _ (rounds oparg) ▹ λ u. pure-HasEffect _))
        (omega arith)

  pub handle_store_subscr-HasEffect :
      (cur : ℕ) → HasEffect ctx size 3 0 Flow (handle_store_subscr ctx cur)
  unfolding handle_store_subscr
  handle_store_subscr-HasEffect cur =
      peek-HasEffect (probe_if-Peeks _ cur _ _)
        (λ u.
          cast-HasEffect (omega arith) (omega arith)
            (pop_values-HasEffect cur (3) ▹ λ u. pure-HasEffect _))
        (omega arith)

  resolve_global-HasEffect :
      (oparg : ℕ) (v : Option PyObject) → HasEffect ctx size 0 0 Unit (resolve_global oparg v)
  unfolding resolve_global
  resolve_global-HasEffect oparg v =
      modify-HasEffect _ (λ m. refl) (λ m. refl) (λ m. refl) (λ m. refl)

  load_builtin-HasEffect :
      (cur oparg : ℕ) (name : Name) (o : Option PyObject)
      → HasEffect ctx size 0 1 Unit (load_builtin ctx cur oparg name o)
  unfolding load_builtin
  load_builtin-HasEffect cur oparg name none =
      cast-HasEffect (omega arith) (omega arith)
        (push_fresh-HasEffect cur _ ▹ λ u. resolve_global-HasEffect oparg none)
  load_builtin-HasEffect cur oparg name (some v) = cast-HasEffect (omega arith) (omega arith) (
      add_opcode_source-HasEffect cur _ ▹ λ s.
      push-HasEffect _ ▹ λ u. resolve_global-HasEffect oparg (some v))

  load_global_value-HasEffect :
      (cur oparg : ℕ) (name : Name) (o : Option PyObject)
      → HasEffect ctx size 0 1 Unit (load_global_value ctx cur oparg name o)
  unfolding load_global_value
  load_global_value-HasEffect cur oparg name none = load_builtin-HasEffect cur oparg name _
  load_global_value-HasEffect cur oparg name (some v) = cast-HasEffect (omega arith) (omega arith) (
      add_opcode_source-HasEffect cur _ ▹ λ s.
      push-HasEffect _ ▹ λ u. resolve_global-HasEffect oparg (some v))

  pub handle_load_global-HasEffect :
      (cur oparg : ℕ) → HasEffect ctx size 0 1 Flow (handle_load_global ctx cur oparg)
  unfolding handle_load_global
  handle_load_global-HasEffect cur oparg = cast-HasEffect (omega arith) (omega arith) (
      or_undefined-HasEffect _ ▹ λ name.
      load_global_value-HasEffect cur oparg name _ ▹ λ u. pure-HasEffect _)

  load_attribute-HasEffect :
      (cur : ℕ) (obj : ValueWithSources) (o : Option Name)
      → HasEffect ctx size 0 1 Unit (load_attribute ctx cur obj o)
  unfolding load_attribute
  load_attribute-HasEffect cur obj none = raise-HasEffect 0 1
  load_attribute-HasEffect cur obj (some name) =
      cast-HasEffect (omega arith) (omega arith)
        (gets-HasEffect _ ▹ λ table. push_fresh-HasEffect cur _)

  store_attribute-HasEffect :
      (obj v : ValueWithSources) (o : Option Name)
      → HasEffect ctx size 0 0 Unit (store_attribute ctx obj v o)
  unfolding store_attribute
  store_attribute-HasEffect obj v none = raise-HasEffect 0 0
  store_attribute-HasEffect obj v (some name) =
      modify-HasEffect _ (λ m. refl) (λ m. refl) (λ m. refl) (λ m. refl)

  pub handle_load_attr-HasEffect :
      (cur oparg : ℕ) → HasEffect ctx size 1 1 Flow (handle_load_attr ctx cur oparg)
  unfolding handle_load_attr
  handle_load_attr-HasEffect cur oparg =
      peek-HasEffect (probe_if-Peeks _ cur _ _)
        (λ u. cast-HasEffect (omega arith) (omega arith) (
          pop_value-HasEffect cur ▹ λ obj.
          if-HasEffect _ (load_attribute-HasEffect cur obj _) (push_fresh-HasEffect cur _) ▹ λ u.
          pure-HasEffect _))
        (omega arith)

  pub handle_store_attr-HasEffect :
      (cur oparg : ℕ) → HasEffect ctx size 2 0 Flow (handle_store_attr ctx cur oparg)
  unfolding handle_store_attr
  handle_store_attr-HasEffect cur oparg = cast-HasEffect (omega arith) (omega arith) (
      pop_value-HasEffect cur ▹ λ obj. pop_value-HasEffect cur ▹ λ v.
      if-HasEffect _ (store_attribute-HasEffect obj v _) (pure-HasEffect tt) ▹ λ u.
      pure-HasEffect _)
