-- ===== src/Interpreter/Contracts/Effects.antt =====
-- The stack effect of every opcode that `interpret` handles (Dispatch.antt).
use pyjion.Prelude.{◌+◌, ◌≤◌, ◌<◌, length, ℕ, ◌≡◌, arith, ℕ, suc, ◌+◌, ◌*◌, ◌<◌, false}
use pyjion.Kind.{avk_any}
use pyjion.Opcode.{Opcode, jumps_to}
use pyjion.Value.{
  any_value, bool_value, string_value, list_value, dict_value, set_value, slice_value,
  function_value, tuple_value,
}
use pyjion.Interpreter.{
  Context, Machine, Flow, Result, ok, fault, stack_underflow, stack_imbalance, undefined,
}
use pyjion.Interpreter.Actions.{rounds}
use pyjion.Interpreter.Dispatch.{interpret_opcode}
use pyjion.Interpreter.Contracts.{HasEffect, Meets, IsValid, restores}
use pyjion.Interpreter.Contracts.Primitives.{pure-HasEffect}
use pyjion.Interpreter.Contracts.Shuffling.{
  handle_rot_two-HasEffect, handle_rot_three-HasEffect, handle_rot_four-HasEffect,
  handle_dup_top-HasEffect, handle_dup_top_two-HasEffect, handle_load_const-HasEffect,
  handle_load_fast-HasEffect, handle_store_fast-HasEffect, handle_delete_fast-HasEffect,
}
use pyjion.Interpreter.Contracts.Operating.{
  build-HasEffect, discard-HasEffect, handle_binary-HasEffect, handle_compare-HasEffect,
  handle_unary-HasEffect, handle_get_iter-HasEffect, handle_unpack_ex-HasEffect,
  handle_unpack_sequence-HasEffect, handle_store_subscr-HasEffect, handle_load_global-HasEffect,
  handle_load_attr-HasEffect, handle_store_attr-HasEffect,
}
use pyjion.Interpreter.Contracts.Calling.{
  handle_call_function-HasEffect, handle_call_function_kw-HasEffect,
  handle_call_function_ex-HasEffect, handle_make_function-HasEffect, handle_format_value-HasEffect,
  handle_load_method-HasEffect, handle_call_method-HasEffect,
}
use pyjion.Interpreter.Contracts.Jumping.{
  handle_pop_jump-HasEffect, handle_jump_or_pop-HasEffect, handle_jump_if_not_exc_match-HasEffect,
  handle_jump-HasEffect, handle_return_value-HasEffect, handle_for_iter-HasEffect,
  handle_setup_with-HasEffect, handle_setup_finally-HasEffect,
}
use pyjion.Interpreter.Contracts.Table.{pops, pushes}

-- The handler of an opcode takes as many values from the stack, and puts as many there, as the
-- tables say.
pub interpret_opcode-HasEffect :
    {ctx : Context} {size : ℕ} (cur : ℕ) (opcode : Opcode) (oparg : ℕ)
    → restores opcode ≡ false
    → HasEffect ctx size
        (pops opcode oparg)
        (pushes opcode oparg)
        Flow
        (interpret_opcode ctx cur opcode oparg)
unfolding interpret_opcode
interpret_opcode-HasEffect cur (Opcode.unary op) oparg e = handle_unary-HasEffect cur op
interpret_opcode-HasEffect cur (Opcode.binary op) oparg e = handle_binary-HasEffect cur op
interpret_opcode-HasEffect cur Opcode.nop oparg e = pure-HasEffect _
interpret_opcode-HasEffect cur Opcode.extended_arg oparg e = pure-HasEffect _
interpret_opcode-HasEffect cur Opcode.pop_top oparg e = discard-HasEffect cur 1
interpret_opcode-HasEffect cur Opcode.rot_two oparg e = handle_rot_two-HasEffect cur
interpret_opcode-HasEffect cur Opcode.rot_three oparg e = handle_rot_three-HasEffect cur
interpret_opcode-HasEffect cur Opcode.rot_four oparg e = handle_rot_four-HasEffect cur
interpret_opcode-HasEffect cur Opcode.dup_top oparg e = handle_dup_top-HasEffect cur
interpret_opcode-HasEffect cur Opcode.dup_top_two oparg e = handle_dup_top_two-HasEffect cur
interpret_opcode-HasEffect cur Opcode.load_const oparg e = handle_load_const-HasEffect cur oparg
interpret_opcode-HasEffect cur Opcode.load_fast oparg e = handle_load_fast-HasEffect cur oparg
interpret_opcode-HasEffect cur Opcode.store_fast oparg e = handle_store_fast-HasEffect cur oparg
interpret_opcode-HasEffect cur Opcode.delete_fast oparg e = handle_delete_fast-HasEffect oparg
interpret_opcode-HasEffect cur Opcode.compare_op oparg e = handle_compare-HasEffect cur
interpret_opcode-HasEffect cur Opcode.is_op oparg e = build-HasEffect cur 2 bool_value
interpret_opcode-HasEffect cur Opcode.contains_op oparg e = build-HasEffect cur 2 bool_value
interpret_opcode-HasEffect cur Opcode.get_iter oparg e = handle_get_iter-HasEffect cur
interpret_opcode-HasEffect cur Opcode.for_iter oparg e =
    handle_for_iter-HasEffect cur (jumps_to Opcode.for_iter oparg cur)
interpret_opcode-HasEffect cur Opcode.store_subscr oparg e = handle_store_subscr-HasEffect cur
interpret_opcode-HasEffect cur Opcode.pop_jump_if_false oparg e =
    handle_pop_jump-HasEffect cur (jumps_to Opcode.pop_jump_if_false oparg cur)
interpret_opcode-HasEffect cur Opcode.pop_jump_if_true oparg e =
    handle_pop_jump-HasEffect cur (jumps_to Opcode.pop_jump_if_true oparg cur)
interpret_opcode-HasEffect cur Opcode.jump_if_false_or_pop oparg e =
    handle_jump_or_pop-HasEffect cur (jumps_to Opcode.jump_if_false_or_pop oparg cur)
interpret_opcode-HasEffect cur Opcode.jump_if_true_or_pop oparg e =
    handle_jump_or_pop-HasEffect cur (jumps_to Opcode.jump_if_true_or_pop oparg cur)
interpret_opcode-HasEffect cur Opcode.jump_if_not_exc_match oparg e =
    handle_jump_if_not_exc_match-HasEffect cur (jumps_to Opcode.jump_if_not_exc_match oparg cur)
interpret_opcode-HasEffect cur Opcode.jump_absolute oparg e =
    handle_jump-HasEffect (jumps_to Opcode.jump_absolute oparg cur)
interpret_opcode-HasEffect cur Opcode.jump_forward oparg e =
    handle_jump-HasEffect (jumps_to Opcode.jump_forward oparg cur)
interpret_opcode-HasEffect cur Opcode.end_async_for oparg e = pure-HasEffect _
interpret_opcode-HasEffect cur Opcode.setup_with oparg e =
    handle_setup_with-HasEffect cur (jumps_to Opcode.setup_with oparg cur)
interpret_opcode-HasEffect cur Opcode.setup_async_with oparg e =
    handle_setup_with-HasEffect cur (jumps_to Opcode.setup_async_with oparg cur)
interpret_opcode-HasEffect cur Opcode.setup_finally oparg e =
    handle_setup_finally-HasEffect cur (jumps_to Opcode.setup_finally oparg cur)
interpret_opcode-HasEffect cur Opcode.return_value oparg e = handle_return_value-HasEffect cur
interpret_opcode-HasEffect cur Opcode.reraise oparg e = discard-HasEffect cur 3
interpret_opcode-HasEffect cur Opcode.load_name oparg e = build-HasEffect cur 0 any_value
interpret_opcode-HasEffect cur Opcode.store_name oparg e = discard-HasEffect cur 1
interpret_opcode-HasEffect cur Opcode.delete_name oparg e = pure-HasEffect _
interpret_opcode-HasEffect cur Opcode.load_classderef oparg e = build-HasEffect cur 0 any_value
interpret_opcode-HasEffect cur Opcode.load_global oparg e = handle_load_global-HasEffect cur oparg
interpret_opcode-HasEffect cur Opcode.store_global oparg e = discard-HasEffect cur 1
interpret_opcode-HasEffect cur Opcode.load_attr oparg e = handle_load_attr-HasEffect cur oparg
interpret_opcode-HasEffect cur Opcode.store_attr oparg e = handle_store_attr-HasEffect cur oparg
interpret_opcode-HasEffect cur Opcode.delete_attr oparg e = discard-HasEffect cur 1
interpret_opcode-HasEffect cur Opcode.build_list oparg e =
    build-HasEffect cur (rounds oparg) list_value
interpret_opcode-HasEffect cur Opcode.build_tuple oparg e =
    build-HasEffect cur (rounds oparg) (tuple_value avk_any)
interpret_opcode-HasEffect cur Opcode.build_map oparg e =
    build-HasEffect cur (2 * rounds oparg) dict_value
interpret_opcode-HasEffect cur Opcode.import_name oparg e = build-HasEffect cur 2 any_value
interpret_opcode-HasEffect cur Opcode.import_from oparg e = build-HasEffect cur 0 any_value
interpret_opcode-HasEffect cur Opcode.load_closure oparg e = build-HasEffect cur 0 any_value
interpret_opcode-HasEffect cur Opcode.call_function oparg e =
    handle_call_function-HasEffect cur oparg
interpret_opcode-HasEffect cur Opcode.call_function_kw oparg e =
    handle_call_function_kw-HasEffect cur oparg
interpret_opcode-HasEffect cur Opcode.call_function_ex oparg e =
    handle_call_function_ex-HasEffect cur oparg
interpret_opcode-HasEffect cur Opcode.make_function oparg e =
    handle_make_function-HasEffect cur oparg
interpret_opcode-HasEffect cur Opcode.build_slice oparg e =
    build-HasEffect cur (rounds oparg) slice_value
interpret_opcode-HasEffect cur Opcode.unpack_ex oparg e = handle_unpack_ex-HasEffect cur oparg
interpret_opcode-HasEffect cur Opcode.unpack_sequence oparg e =
    handle_unpack_sequence-HasEffect cur oparg
interpret_opcode-HasEffect cur Opcode.raise_varargs oparg e = discard-HasEffect cur (rounds oparg)
interpret_opcode-HasEffect cur Opcode.delete_subscr oparg e = discard-HasEffect cur 2
interpret_opcode-HasEffect cur Opcode.build_set oparg e =
    build-HasEffect cur (rounds oparg) set_value
interpret_opcode-HasEffect cur Opcode.store_deref oparg e = discard-HasEffect cur 1
interpret_opcode-HasEffect cur Opcode.load_deref oparg e = build-HasEffect cur 0 any_value
interpret_opcode-HasEffect cur Opcode.delete_deref oparg e = pure-HasEffect _
interpret_opcode-HasEffect cur Opcode.pop_block oparg e = absurd (ground arith)
interpret_opcode-HasEffect cur Opcode.pop_except oparg e = absurd (ground arith)
interpret_opcode-HasEffect cur Opcode.load_build_class oparg e =
    build-HasEffect cur 0 function_value
interpret_opcode-HasEffect cur Opcode.set_add oparg e = discard-HasEffect cur 1
interpret_opcode-HasEffect cur Opcode.list_append oparg e = build-HasEffect cur 2 list_value
interpret_opcode-HasEffect cur Opcode.map_add oparg e = build-HasEffect cur 3 dict_value
interpret_opcode-HasEffect cur Opcode.format_value oparg e = handle_format_value-HasEffect cur oparg
interpret_opcode-HasEffect cur Opcode.build_string oparg e =
    build-HasEffect cur (rounds oparg) string_value
interpret_opcode-HasEffect cur Opcode.build_const_key_map oparg e =
    build-HasEffect cur (suc (rounds oparg)) dict_value
interpret_opcode-HasEffect cur Opcode.load_method oparg e = handle_load_method-HasEffect cur oparg
interpret_opcode-HasEffect cur Opcode.call_method oparg e = handle_call_method-HasEffect cur oparg
interpret_opcode-HasEffect cur Opcode.with_except_start oparg e = pure-HasEffect _
interpret_opcode-HasEffect cur Opcode.list_extend oparg e = build-HasEffect cur 2 list_value
interpret_opcode-HasEffect cur Opcode.dict_update oparg e = discard-HasEffect cur 1
interpret_opcode-HasEffect cur Opcode.set_update oparg e = discard-HasEffect cur 1
interpret_opcode-HasEffect cur Opcode.dict_merge oparg e = discard-HasEffect cur 1
interpret_opcode-HasEffect cur Opcode.print_expr oparg e = discard-HasEffect cur 1
interpret_opcode-HasEffect cur Opcode.list_to_tuple oparg e =
    build-HasEffect cur 1 (tuple_value avk_any)
interpret_opcode-HasEffect cur Opcode.load_assertion_error oparg e = build-HasEffect cur 0 any_value
interpret_opcode-HasEffect cur Opcode.import_star oparg e = discard-HasEffect cur 1
interpret_opcode-HasEffect cur Opcode.delete_global oparg e = pure-HasEffect _
interpret_opcode-HasEffect cur Opcode.setup_annotations oparg e = pure-HasEffect _
interpret_opcode-HasEffect cur Opcode.yield_value oparg e = build-HasEffect cur 1 any_value
interpret_opcode-HasEffect cur Opcode.yield_from oparg e = pure-HasEffect _
interpret_opcode-HasEffect cur Opcode.gen_start oparg e = pure-HasEffect _
interpret_opcode-HasEffect cur (Opcode.other_opcode c) oparg e = pure-HasEffect _

-- The outcome has taken `n` values from a stack of `before` and put `k` there, and has `size`
-- locals; or there were fewer than `n` values; or it read what the source leaves undefined.
abbrev pub Moves : (size n k before : ℕ) → Result Flow → Type 0
Moves size n k before (ok flow m) =
    (n ≤ before) × (length m.state.stack + n ≡ before + k) × (length m.state.locals ≡ size)
Moves size n k before (fault stack_underflow) = before < n
Moves size n k before (fault stack_imbalance) = ⊥
Moves size n k before (fault undefined) = Unit

Meets-Moves :
    (ctx : Context) (size n k : ℕ) (m : Machine) (r : Result Flow)
    → Meets ctx size n k m r
    → Moves size n k (length m.state.stack) r
Meets-Moves ctx size n k m (ok flow m') (h, e, v, s) = (h, e, v.local_count)
Meets-Moves ctx size n k m (fault stack_underflow) l = l
Meets-Moves ctx size n k m (fault stack_imbalance) l = l
Meets-Moves ctx size n k m (fault undefined) l = tt

-- In a valid machine, the handler of any opcode other than `POP_BLOCK` and `POP_EXCEPT` takes as
-- many values from the stack, and puts as many there, as the tables `pops` and `pushes` say, and
-- keeps the number of locals; it underflows only where the stack has fewer values than it takes,
-- and throws no `StackImbalanceException`.
pub interpret_opcode-Moves :
    (ctx : Context) (size cur : ℕ) (opcode : Opcode) (oparg : ℕ) (m : Machine)
    → restores opcode ≡ false
    → IsValid ctx size m
    → Moves size
        (pops opcode oparg)
        (pushes opcode oparg)
        (length m.state.stack)
        (interpret_opcode ctx cur opcode oparg m)
interpret_opcode-Moves ctx size cur opcode oparg m e v =
    Meets-Moves ctx size (pops opcode oparg) (pushes opcode oparg) m _
      ((interpret_opcode-HasEffect cur opcode oparg e).run m v)
