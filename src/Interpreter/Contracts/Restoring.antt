-- ===== src/Interpreter/Contracts/Restoring.antt =====
-- The opcodes that leave a block, told apart from the others.
use pyjion.Prelude.{◌≡◌, refl, ◌⊎◌, inl, inr, false}
use pyjion.Opcode.{Opcode}
use pyjion.Interpreter.Contracts.{restores}

pub restores-cases :
    (opcode : Opcode)
    → (restores opcode ≡ false) ⊎ (opcode ≡ Opcode.pop_block) ⊎ (opcode ≡ Opcode.pop_except)
restores-cases Opcode.pop_block = inr (inl refl)
restores-cases Opcode.pop_except = inr (inr refl)
restores-cases (Opcode.unary op) = inl refl
restores-cases (Opcode.binary op) = inl refl
restores-cases Opcode.nop = inl refl
restores-cases Opcode.extended_arg = inl refl
restores-cases Opcode.pop_top = inl refl
restores-cases Opcode.rot_two = inl refl
restores-cases Opcode.rot_three = inl refl
restores-cases Opcode.rot_four = inl refl
restores-cases Opcode.dup_top = inl refl
restores-cases Opcode.dup_top_two = inl refl
restores-cases Opcode.load_const = inl refl
restores-cases Opcode.load_fast = inl refl
restores-cases Opcode.store_fast = inl refl
restores-cases Opcode.delete_fast = inl refl
restores-cases Opcode.compare_op = inl refl
restores-cases Opcode.is_op = inl refl
restores-cases Opcode.contains_op = inl refl
restores-cases Opcode.get_iter = inl refl
restores-cases Opcode.for_iter = inl refl
restores-cases Opcode.store_subscr = inl refl
restores-cases Opcode.pop_jump_if_false = inl refl
restores-cases Opcode.pop_jump_if_true = inl refl
restores-cases Opcode.jump_if_false_or_pop = inl refl
restores-cases Opcode.jump_if_true_or_pop = inl refl
restores-cases Opcode.jump_if_not_exc_match = inl refl
restores-cases Opcode.jump_absolute = inl refl
restores-cases Opcode.jump_forward = inl refl
restores-cases Opcode.end_async_for = inl refl
restores-cases Opcode.setup_with = inl refl
restores-cases Opcode.setup_async_with = inl refl
restores-cases Opcode.setup_finally = inl refl
restores-cases Opcode.return_value = inl refl
restores-cases Opcode.reraise = inl refl
restores-cases Opcode.load_name = inl refl
restores-cases Opcode.store_name = inl refl
restores-cases Opcode.delete_name = inl refl
restores-cases Opcode.load_classderef = inl refl
restores-cases Opcode.load_global = inl refl
restores-cases Opcode.store_global = inl refl
restores-cases Opcode.load_attr = inl refl
restores-cases Opcode.store_attr = inl refl
restores-cases Opcode.delete_attr = inl refl
restores-cases Opcode.build_list = inl refl
restores-cases Opcode.build_tuple = inl refl
restores-cases Opcode.build_map = inl refl
restores-cases Opcode.import_name = inl refl
restores-cases Opcode.import_from = inl refl
restores-cases Opcode.load_closure = inl refl
restores-cases Opcode.call_function = inl refl
restores-cases Opcode.call_function_kw = inl refl
restores-cases Opcode.call_function_ex = inl refl
restores-cases Opcode.make_function = inl refl
restores-cases Opcode.build_slice = inl refl
restores-cases Opcode.unpack_ex = inl refl
restores-cases Opcode.unpack_sequence = inl refl
restores-cases Opcode.raise_varargs = inl refl
restores-cases Opcode.delete_subscr = inl refl
restores-cases Opcode.build_set = inl refl
restores-cases Opcode.store_deref = inl refl
restores-cases Opcode.load_deref = inl refl
restores-cases Opcode.delete_deref = inl refl
restores-cases Opcode.load_build_class = inl refl
restores-cases Opcode.set_add = inl refl
restores-cases Opcode.list_append = inl refl
restores-cases Opcode.map_add = inl refl
restores-cases Opcode.format_value = inl refl
restores-cases Opcode.build_string = inl refl
restores-cases Opcode.build_const_key_map = inl refl
restores-cases Opcode.load_method = inl refl
restores-cases Opcode.call_method = inl refl
restores-cases Opcode.with_except_start = inl refl
restores-cases Opcode.list_extend = inl refl
restores-cases Opcode.dict_update = inl refl
restores-cases Opcode.set_update = inl refl
restores-cases Opcode.dict_merge = inl refl
restores-cases Opcode.print_expr = inl refl
restores-cases Opcode.list_to_tuple = inl refl
restores-cases Opcode.load_assertion_error = inl refl
restores-cases Opcode.import_star = inl refl
restores-cases Opcode.delete_global = inl refl
restores-cases Opcode.setup_annotations = inl refl
restores-cases Opcode.yield_value = inl refl
restores-cases Opcode.yield_from = inl refl
restores-cases Opcode.gen_start = inl refl
restores-cases (Opcode.other_opcode n) = inl refl
