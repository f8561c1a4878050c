-- ===== src/Interpreter/Dispatch.antt =====
-- The switch of `interpret` over the opcodes (src/pyjion/absint.cpp).
use pyjion.Prelude.{ℕ, suc, ◌*◌, true, false}
use pyjion.Opcode.{Opcode, jumps_to}
use pyjion.Value.{
  any_value, bool_value, string_value, list_value, dict_value, set_value, slice_value,
  function_value, tuple_value,
}
use pyjion.Kind.{avk_any}
use pyjion.Interpreter.{
  Context, incompatible_opcode_with_except, incompatible_opcode_unknown, Action, pure, Flow, next,
  finished,
}
use pyjion.Interpreter.Actions.{rounds, push_fresh}
use pyjion.Interpreter.Shuffles.{
  go_on, handle_rot_two, handle_rot_three, handle_rot_four, handle_dup_top, handle_dup_top_two,
  handle_load_const, handle_load_fast, handle_store_fast, handle_delete_fast,
}
use pyjion.Interpreter.Operators.{
  build, discard, handle_binary, handle_compare, handle_unary, handle_get_iter, handle_unpack_ex,
  handle_unpack_sequence, handle_store_subscr, handle_load_global, handle_load_attr,
  handle_store_attr,
}
use pyjion.Interpreter.Calls.{
  handle_call_function, handle_call_function_kw, handle_call_function_ex, handle_make_function,
  handle_format_value, handle_load_method, handle_call_method,
}
use pyjion.Interpreter.Jumps.{
  handle_pop_jump, handle_jump_or_pop, handle_jump_if_not_exc_match, handle_jump,
  handle_return_value, handle_for_iter, handle_pop_block, handle_pop_except, handle_setup_with,
  handle_setup_finally,
}

-- The switch over the opcodes, without `EXTENDED_ARG`.
unfoldable pub interpret_opcode : Context → ℕ → Opcode → ℕ → Action Flow
unfolding jumps_to rounds push_fresh handle_rot_two handle_rot_three handle_rot_four handle_dup_top
    handle_dup_top_two handle_load_const handle_load_fast handle_store_fast handle_delete_fast build
    discard handle_binary handle_compare handle_unary handle_get_iter handle_unpack_ex
    handle_unpack_sequence handle_store_subscr handle_load_global handle_load_attr handle_store_attr
    handle_call_function handle_call_function_kw handle_call_function_ex handle_make_function
    handle_format_value handle_load_method handle_call_method handle_pop_jump handle_jump_or_pop
    handle_jump_if_not_exc_match handle_jump handle_return_value handle_for_iter handle_pop_block
    handle_pop_except handle_setup_with handle_setup_finally
interpret_opcode ctx cur Opcode.nop oparg = go_on
interpret_opcode ctx cur Opcode.rot_two oparg = handle_rot_two cur
interpret_opcode ctx cur Opcode.rot_three oparg = handle_rot_three cur
interpret_opcode ctx cur Opcode.rot_four oparg = handle_rot_four cur
interpret_opcode ctx cur Opcode.pop_top oparg = discard cur 1
interpret_opcode ctx cur Opcode.dup_top oparg = handle_dup_top cur
interpret_opcode ctx cur Opcode.dup_top_two oparg = handle_dup_top_two cur
interpret_opcode ctx cur Opcode.reraise oparg = discard cur 3
interpret_opcode ctx cur Opcode.load_const oparg = handle_load_const ctx cur oparg
interpret_opcode ctx cur Opcode.load_fast oparg = handle_load_fast cur oparg
interpret_opcode ctx cur Opcode.store_fast oparg = handle_store_fast ctx cur oparg
interpret_opcode ctx cur Opcode.delete_fast oparg = handle_delete_fast oparg
interpret_opcode ctx cur (Opcode.binary op) oparg = handle_binary ctx cur op
interpret_opcode ctx cur Opcode.pop_jump_if_false oparg =
    handle_pop_jump ctx cur (jumps_to Opcode.pop_jump_if_false oparg cur)
interpret_opcode ctx cur Opcode.pop_jump_if_true oparg =
    handle_pop_jump ctx cur (jumps_to Opcode.pop_jump_if_true oparg cur)
interpret_opcode ctx cur Opcode.jump_if_true_or_pop oparg =
    handle_jump_or_pop ctx cur (jumps_to Opcode.jump_if_true_or_pop oparg cur)
interpret_opcode ctx cur Opcode.jump_if_false_or_pop oparg =
    handle_jump_or_pop ctx cur (jumps_to Opcode.jump_if_false_or_pop oparg cur)
interpret_opcode ctx cur Opcode.jump_if_not_exc_match oparg =
    handle_jump_if_not_exc_match ctx cur (jumps_to Opcode.jump_if_not_exc_match oparg cur)
interpret_opcode ctx cur Opcode.jump_absolute oparg =
    handle_jump ctx (jumps_to Opcode.jump_absolute oparg cur)
interpret_opcode ctx cur Opcode.jump_forward oparg =
    handle_jump ctx (jumps_to Opcode.jump_forward oparg cur)
interpret_opcode ctx cur Opcode.return_value oparg = handle_return_value cur
interpret_opcode ctx cur Opcode.load_name oparg = build cur 0 any_value
interpret_opcode ctx cur Opcode.store_name oparg = discard cur 1
interpret_opcode ctx cur Opcode.delete_name oparg = go_on
interpret_opcode ctx cur Opcode.load_classderef oparg = build cur 0 any_value
interpret_opcode ctx cur Opcode.load_global oparg = handle_load_global ctx cur oparg
interpret_opcode ctx cur Opcode.store_global oparg = discard cur 1
interpret_opcode ctx cur Opcode.load_attr oparg = handle_load_attr ctx cur oparg
interpret_opcode ctx cur Opcode.store_attr oparg = handle_store_attr ctx cur oparg
interpret_opcode ctx cur Opcode.delete_attr oparg = discard cur 1
interpret_opcode ctx cur Opcode.build_list oparg = build cur (rounds oparg) list_value
interpret_opcode ctx cur Opcode.build_tuple oparg = build cur (rounds oparg) (tuple_value avk_any)
interpret_opcode ctx cur Opcode.build_map oparg = build cur (2 * rounds oparg) dict_value
interpret_opcode ctx cur Opcode.compare_op oparg = handle_compare ctx cur
interpret_opcode ctx cur Opcode.import_name oparg = build cur 2 any_value
interpret_opcode ctx cur Opcode.import_from oparg = build cur 0 any_value
interpret_opcode ctx cur Opcode.load_closure oparg = build cur 0 any_value
interpret_opcode ctx cur Opcode.call_function oparg = handle_call_function ctx cur oparg
interpret_opcode ctx cur Opcode.call_function_kw oparg = handle_call_function_kw cur oparg
interpret_opcode ctx cur Opcode.call_function_ex oparg = handle_call_function_ex cur oparg
interpret_opcode ctx cur Opcode.make_function oparg = handle_make_function cur oparg
interpret_opcode ctx cur Opcode.build_slice oparg = build cur (rounds oparg) slice_value
interpret_opcode ctx cur (Opcode.unary op) oparg = handle_unary cur op
interpret_opcode ctx cur Opcode.unpack_ex oparg = handle_unpack_ex cur oparg
interpret_opcode ctx cur Opcode.unpack_sequence oparg = handle_unpack_sequence ctx cur oparg
interpret_opcode ctx cur Opcode.raise_varargs oparg = discard cur (rounds oparg)
interpret_opcode ctx cur Opcode.store_subscr oparg = handle_store_subscr ctx cur
interpret_opcode ctx cur Opcode.delete_subscr oparg = discard cur 2
interpret_opcode ctx cur Opcode.build_set oparg = build cur (rounds oparg) set_value
interpret_opcode ctx cur Opcode.store_deref oparg = discard cur 1
interpret_opcode ctx cur Opcode.load_deref oparg = build cur 0 any_value
interpret_opcode ctx cur Opcode.delete_deref oparg = go_on
interpret_opcode ctx cur Opcode.get_iter oparg = handle_get_iter cur
interpret_opcode ctx cur Opcode.for_iter oparg =
    handle_for_iter ctx cur (jumps_to Opcode.for_iter oparg cur)
interpret_opcode ctx cur Opcode.pop_block oparg = handle_pop_block ctx cur
interpret_opcode ctx cur Opcode.pop_except oparg = handle_pop_except ctx cur
interpret_opcode ctx cur Opcode.load_build_class oparg = build cur 0 function_value
interpret_opcode ctx cur Opcode.set_add oparg = discard cur 1
interpret_opcode ctx cur Opcode.list_append oparg = build cur 2 list_value
interpret_opcode ctx cur Opcode.map_add oparg = build cur 3 dict_value
interpret_opcode ctx cur Opcode.format_value oparg = handle_format_value cur oparg
interpret_opcode ctx cur Opcode.build_string oparg = build cur (rounds oparg) string_value
interpret_opcode ctx cur Opcode.setup_with oparg =
    handle_setup_with ctx cur (jumps_to Opcode.setup_with oparg cur)
interpret_opcode ctx cur Opcode.setup_async_with oparg =
    handle_setup_with ctx cur (jumps_to Opcode.setup_async_with oparg cur)
interpret_opcode ctx cur Opcode.setup_finally oparg =
    handle_setup_finally ctx cur (jumps_to Opcode.setup_finally oparg cur)
interpret_opcode ctx cur Opcode.build_const_key_map oparg =
    build cur (suc (rounds oparg)) dict_value
interpret_opcode ctx cur Opcode.load_method oparg = handle_load_method ctx cur oparg
interpret_opcode ctx cur Opcode.call_method oparg = handle_call_method ctx cur oparg
interpret_opcode ctx cur Opcode.is_op oparg = build cur 2 bool_value
interpret_opcode ctx cur Opcode.contains_op oparg = build cur 2 bool_value
interpret_opcode ctx cur Opcode.with_except_start oparg =
    pure (finished incompatible_opcode_with_except)
interpret_opcode ctx cur Opcode.list_extend oparg = build cur 2 list_value
interpret_opcode ctx cur Opcode.dict_update oparg = discard cur 1
interpret_opcode ctx cur Opcode.set_update oparg = discard cur 1
interpret_opcode ctx cur Opcode.dict_merge oparg = discard cur 1
interpret_opcode ctx cur Opcode.print_expr oparg = discard cur 1
interpret_opcode ctx cur Opcode.list_to_tuple oparg = build cur 1 (tuple_value avk_any)
interpret_opcode ctx cur Opcode.load_assertion_error oparg = build cur 0 any_value
interpret_opcode ctx cur Opcode.import_star oparg = discard cur 1
interpret_opcode ctx cur Opcode.delete_global oparg = go_on
interpret_opcode ctx cur Opcode.setup_annotations oparg = go_on
interpret_opcode ctx cur Opcode.yield_value oparg = build cur 1 any_value
interpret_opcode ctx cur Opcode.gen_start oparg = pure (next true false)
interpret_opcode ctx cur _ oparg = pure (finished incompatible_opcode_unknown)
