-- ===== src/Opcode.antt =====
-- The CPython opcodes that the compiler tells apart, the targets of jumps
-- (src/pyjion/instructions.h) and the opcodes that can run on unboxed values
-- (src/pyjion/unboxing.cpp). The numbers of the opcodes come from CPython's opcode.h: here
-- each opcode that the source names is a constructor, and any other is `other_opcode`.
use pyjion.Prelude.{◌-◌, ◌%◌, ◌^◌, ltb, if◌then◌else◌, ℕ, ◌+◌, ◌*◌, Bool, true, false}

-- The operators that `AbstractValue::binary` is called with.
pub data BinaryOp : Type 0 where
  binary_power binary_multiply binary_matrix_multiply binary_modulo binary_add binary_subtract
        binary_subscr binary_floor_divide binary_true_divide binary_lshift binary_rshift binary_and
        binary_xor binary_or inplace_power inplace_multiply inplace_matrix_multiply inplace_modulo
        inplace_add inplace_subtract inplace_floor_divide inplace_true_divide inplace_lshift
        inplace_rshift inplace_and inplace_xor inplace_or :
      BinaryOp

pub data UnaryOp : Type 0 where
  unary_positive unary_negative unary_not unary_invert : UnaryOp

pub data Opcode : Type 0 where
  unary : UnaryOp → Opcode
  binary : BinaryOp → Opcode
  nop extended_arg pop_top rot_two rot_three rot_four dup_top dup_top_two load_const load_fast
        store_fast delete_fast compare_op is_op contains_op get_iter for_iter store_subscr
        pop_jump_if_false pop_jump_if_true jump_if_false_or_pop jump_if_true_or_pop
        jump_if_not_exc_match jump_absolute jump_forward end_async_for setup_with setup_async_with
        setup_finally return_value reraise load_name store_name delete_name load_classderef
        load_global store_global load_attr store_attr delete_attr build_list build_tuple build_map
        import_name import_from load_closure call_function call_function_kw call_function_ex
        make_function build_slice unpack_ex unpack_sequence raise_varargs delete_subscr build_set
        store_deref load_deref delete_deref pop_block pop_except load_build_class set_add
        list_append map_add format_value build_string build_const_key_map load_method call_method
        with_except_start list_extend dict_update set_update dict_merge print_expr list_to_tuple
        load_assertion_error import_star delete_global setup_annotations yield_value yield_from
        gen_start :
      Opcode
  other_opcode : ℕ → Opcode

abbrev pub sizeof_codeunit : ℕ
sizeof_codeunit = 2

-- An oparg is an `int16_t`, held as its bit pattern below 2^16; `oparg * 2` is computed as a
-- signed number and stored in a `uint32_t`.
unfoldable pub twice_oparg : ℕ → ℕ
twice_oparg oparg = if ltb oparg (2 ^ 15) then oparg * 2 else oparg * 2 + 2 ^ 32 - 2 ^ 17

unfoldable pub absolute_target : ℕ → ℕ → ℕ
unfolding twice_oparg
absolute_target oparg index = twice_oparg oparg

unfoldable pub relative_target : ℕ → ℕ → ℕ
unfolding twice_oparg
relative_target oparg index = (twice_oparg oparg + index + sizeof_codeunit) % 2 ^ 32

-- `1337` marks an opcode that does not jump.
unfoldable pub jumps_to : Opcode → ℕ → ℕ → ℕ
unfolding absolute_target relative_target
jumps_to jump_absolute oparg index = absolute_target oparg index
jumps_to jump_if_false_or_pop oparg index = absolute_target oparg index
jumps_to jump_if_true_or_pop oparg index = absolute_target oparg index
jumps_to jump_if_not_exc_match oparg index = absolute_target oparg index
jumps_to pop_jump_if_true oparg index = absolute_target oparg index
jumps_to pop_jump_if_false oparg index = absolute_target oparg index
jumps_to end_async_for oparg index = relative_target oparg index
jumps_to jump_forward oparg index = relative_target oparg index
jumps_to setup_with oparg index = relative_target oparg index
jumps_to setup_async_with oparg index = relative_target oparg index
jumps_to setup_finally oparg index = relative_target oparg index
jumps_to for_iter oparg index = relative_target oparg index
jumps_to _ oparg index = 1337

-- The binary operators that can run unboxed, by the opcode alone.
unfoldable pub binary_supports_unboxing : BinaryOp → Bool
binary_supports_unboxing binary_matrix_multiply = false
binary_supports_unboxing inplace_matrix_multiply = false
binary_supports_unboxing inplace_lshift = false
binary_supports_unboxing inplace_rshift = false
binary_supports_unboxing inplace_and = false
binary_supports_unboxing inplace_xor = false
binary_supports_unboxing inplace_or = false
binary_supports_unboxing _ = true

unfoldable pub opcode_supports_unboxing : Opcode → Bool
unfolding binary_supports_unboxing
opcode_supports_unboxing (unary _) = true
opcode_supports_unboxing (binary op) = binary_supports_unboxing op
opcode_supports_unboxing pop_jump_if_false = true
opcode_supports_unboxing pop_jump_if_true = true
opcode_supports_unboxing compare_op = true
opcode_supports_unboxing load_const = true
opcode_supports_unboxing store_fast = true
opcode_supports_unboxing load_fast = true
opcode_supports_unboxing delete_fast = true
opcode_supports_unboxing get_iter = true
opcode_supports_unboxing for_iter = true
opcode_supports_unboxing store_subscr = true
opcode_supports_unboxing _ = false
