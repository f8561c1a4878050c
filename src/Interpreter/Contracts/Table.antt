-- ===== src/Interpreter/Contracts/Table.antt =====
-- How many values each opcode takes from the stack and puts there.
use pyjion.Prelude.{ℕ, suc, ◌+◌, ◌*◌, ◌/◌, ◌%◌}
use pyjion.Opcode.{Opcode}
use pyjion.Interpreter.Actions.{rounds}
use pyjion.Interpreter.Operators.{high_rounds}
use pyjion.Interpreter.Contracts.Calling.{flag}

-- The number of values that an opcode takes from the stack, and the number that it puts there, as
-- CPython's documentation has them, with these exceptions: `FOR_ITER` is handled as one that leaves
-- three values where it finds one, a call with more than 255 arguments counts the upper byte of
-- its argument as pairs, and an opcode that ends the analysis or that it passes over
-- (`GEN_START`) takes nothing.
abbrev pub pops : Opcode → ℕ → ℕ
pops (Opcode.unary op) oparg = 1
pops (Opcode.binary op) oparg = 2
pops Opcode.pop_top oparg = 1
pops Opcode.rot_two oparg = 2
pops Opcode.rot_three oparg = 3
pops Opcode.rot_four oparg = 4
pops Opcode.dup_top oparg = 1
pops Opcode.dup_top_two oparg = 2
pops Opcode.store_fast oparg = 1
pops Opcode.compare_op oparg = 2
pops Opcode.is_op oparg = 2
pops Opcode.contains_op oparg = 2
pops Opcode.get_iter oparg = 1
pops Opcode.for_iter oparg = 1
pops Opcode.store_subscr oparg = 3
pops Opcode.pop_jump_if_false oparg = 1
pops Opcode.pop_jump_if_true oparg = 1
pops Opcode.jump_if_false_or_pop oparg = 1
pops Opcode.jump_if_true_or_pop oparg = 1
pops Opcode.jump_if_not_exc_match oparg = 2
pops Opcode.return_value oparg = 1
pops Opcode.reraise oparg = 3
pops Opcode.store_name oparg = 1
pops Opcode.store_global oparg = 1
pops Opcode.load_attr oparg = 1
pops Opcode.store_attr oparg = 2
pops Opcode.delete_attr oparg = 1
pops Opcode.build_list oparg = rounds oparg
pops Opcode.build_tuple oparg = rounds oparg
pops Opcode.build_map oparg = 2 * rounds oparg
pops Opcode.import_name oparg = 2
pops Opcode.call_function oparg = oparg % 256 + 2 * (oparg / 256 % 256) + 1
pops Opcode.call_function_kw oparg = rounds oparg + 2
pops Opcode.call_function_ex oparg = flag oparg 1 + 2
pops Opcode.make_function oparg = 2 + flag oparg 8 + flag oparg 4 + flag oparg 2 + flag oparg 1
pops Opcode.build_slice oparg = rounds oparg
pops Opcode.unpack_ex oparg = 1
pops Opcode.unpack_sequence oparg = 1
pops Opcode.raise_varargs oparg = rounds oparg
pops Opcode.delete_subscr oparg = 2
pops Opcode.build_set oparg = rounds oparg
pops Opcode.store_deref oparg = 1
pops Opcode.set_add oparg = 1
pops Opcode.list_append oparg = 2
pops Opcode.map_add oparg = 3
pops Opcode.format_value oparg = flag oparg 4 + 1
pops Opcode.build_string oparg = rounds oparg
pops Opcode.build_const_key_map oparg = suc (rounds oparg)
pops Opcode.load_method oparg = 1
pops Opcode.call_method oparg = rounds oparg + 2
pops Opcode.list_extend oparg = 2
pops Opcode.dict_update oparg = 1
pops Opcode.set_update oparg = 1
pops Opcode.dict_merge oparg = 1
pops Opcode.print_expr oparg = 1
pops Opcode.list_to_tuple oparg = 1
pops Opcode.import_star oparg = 1
pops Opcode.yield_value oparg = 1
pops _ oparg = 0

abbrev pub pushes : Opcode → ℕ → ℕ
pushes (Opcode.unary op) oparg = 1
pushes (Opcode.binary op) oparg = 1
pushes Opcode.rot_two oparg = 2
pushes Opcode.rot_three oparg = 3
pushes Opcode.rot_four oparg = 4
pushes Opcode.dup_top oparg = 2
pushes Opcode.dup_top_two oparg = 4
pushes Opcode.load_const oparg = 1
pushes Opcode.load_fast oparg = 1
pushes Opcode.compare_op oparg = 1
pushes Opcode.is_op oparg = 1
pushes Opcode.contains_op oparg = 1
pushes Opcode.get_iter oparg = 1
pushes Opcode.for_iter oparg = 3
pushes Opcode.setup_with oparg = 1
pushes Opcode.setup_async_with oparg = 1
pushes Opcode.load_name oparg = 1
pushes Opcode.load_classderef oparg = 1
pushes Opcode.load_global oparg = 1
pushes Opcode.load_attr oparg = 1
pushes Opcode.build_list oparg = 1
pushes Opcode.build_tuple oparg = 1
pushes Opcode.build_map oparg = 1
pushes Opcode.import_name oparg = 1
pushes Opcode.import_from oparg = 1
pushes Opcode.load_closure oparg = 1
pushes Opcode.call_function oparg = 1
pushes Opcode.call_function_kw oparg = 1
pushes Opcode.call_function_ex oparg = 1
pushes Opcode.make_function oparg = 1
pushes Opcode.build_slice oparg = 1
pushes Opcode.unpack_ex oparg = high_rounds oparg + 1 + oparg % 256
pushes Opcode.unpack_sequence oparg = rounds oparg
pushes Opcode.build_set oparg = 1
pushes Opcode.load_deref oparg = 1
pushes Opcode.load_build_class oparg = 1
pushes Opcode.list_append oparg = 1
pushes Opcode.map_add oparg = 1
pushes Opcode.format_value oparg = 1
pushes Opcode.build_string oparg = 1
pushes Opcode.build_const_key_map oparg = 1
pushes Opcode.load_method oparg = 2
pushes Opcode.call_method oparg = 1
pushes Opcode.list_extend oparg = 1
pushes Opcode.list_to_tuple oparg = 1
pushes Opcode.load_assertion_error oparg = 1
pushes Opcode.yield_value oparg = 1
pushes _ oparg = 0
