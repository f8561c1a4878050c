-- ===== src/Binary/Integers.antt =====
-- The result types of `IntegerValue::binary` (src/pyjion/absvalue.cpp): a
-- function for each kind of the right operand that the source tests for, with the cases of its
-- switch, and the function that picks one.
use pyjion.Prelude.{if◌then◌else◌}
use pyjion.Prelude.Int.{ℤ, pos, ltb_ℤ, leb_ℤ}
use pyjion.Kind.{
  AbstractValueKind, avk_any, avk_integer, avk_float, avk_bool, avk_list, avk_tuple, avk_string,
  avk_bytes, avk_complex, avk_big_integer,
}
use pyjion.Opcode.{
  BinaryOp, binary_power, binary_multiply, binary_modulo, binary_add, binary_subtract,
  binary_floor_divide, binary_true_divide, binary_lshift, binary_rshift, binary_and, binary_xor,
  binary_or, inplace_power, inplace_multiply, inplace_modulo, inplace_add, inplace_subtract,
  inplace_floor_divide, inplace_true_divide, inplace_lshift, inplace_rshift, inplace_and,
  inplace_xor, inplace_or,
}
use pyjion.Value.{
  Settings, AbstractValue, any_value, bytes_value, complex_value, integer_value, big_integer_value,
  string_value, float_value, list_value, tuple_value,
}

unfoldable pub integer_bool : BinaryOp → AbstractValue
integer_bool binary_true_divide = float_value
integer_bool inplace_true_divide = float_value
integer_bool binary_add = integer_value
integer_bool binary_and = integer_value
integer_bool binary_floor_divide = integer_value
integer_bool binary_lshift = integer_value
integer_bool binary_modulo = integer_value
integer_bool binary_multiply = integer_value
integer_bool binary_or = integer_value
integer_bool binary_power = integer_value
integer_bool binary_rshift = integer_value
integer_bool binary_subtract = integer_value
integer_bool binary_xor = integer_value
integer_bool inplace_add = integer_value
integer_bool inplace_and = integer_value
integer_bool inplace_floor_divide = integer_value
integer_bool inplace_lshift = integer_value
integer_bool inplace_modulo = integer_value
integer_bool inplace_multiply = integer_value
integer_bool inplace_or = integer_value
integer_bool inplace_power = integer_value
integer_bool inplace_rshift = integer_value
integer_bool inplace_subtract = integer_value
integer_bool inplace_xor = integer_value
integer_bool _ = any_value

unfoldable pub integer_bytes : BinaryOp → AbstractValue
integer_bytes binary_multiply = bytes_value
integer_bytes inplace_multiply = bytes_value
integer_bytes _ = any_value

unfoldable pub integer_complex : BinaryOp → AbstractValue
integer_complex binary_add = complex_value
integer_complex binary_multiply = complex_value
integer_complex binary_power = complex_value
integer_complex binary_subtract = complex_value
integer_complex binary_true_divide = complex_value
integer_complex inplace_add = complex_value
integer_complex inplace_multiply = complex_value
integer_complex inplace_power = complex_value
integer_complex inplace_subtract = complex_value
integer_complex inplace_true_divide = complex_value
integer_complex _ = any_value

unfoldable pub integer_float : BinaryOp → AbstractValue
integer_float binary_add = float_value
integer_float binary_floor_divide = float_value
integer_float binary_modulo = float_value
integer_float binary_multiply = float_value
integer_float binary_power = float_value
integer_float binary_subtract = float_value
integer_float binary_true_divide = float_value
integer_float inplace_add = float_value
integer_float inplace_floor_divide = float_value
integer_float inplace_modulo = float_value
integer_float inplace_multiply = float_value
integer_float inplace_power = float_value
integer_float inplace_subtract = float_value
integer_float inplace_true_divide = float_value
integer_float _ = any_value

unfoldable pub integer_big_integer : BinaryOp → AbstractValue
integer_big_integer binary_true_divide = float_value
integer_big_integer inplace_true_divide = float_value
integer_big_integer binary_multiply = big_integer_value
integer_big_integer inplace_multiply = big_integer_value
integer_big_integer binary_power = big_integer_value
integer_big_integer inplace_power = big_integer_value
integer_big_integer binary_add = big_integer_value
integer_big_integer binary_and = big_integer_value
integer_big_integer binary_floor_divide = big_integer_value
integer_big_integer binary_lshift = big_integer_value
integer_big_integer binary_modulo = big_integer_value
integer_big_integer binary_or = big_integer_value
integer_big_integer binary_rshift = big_integer_value
integer_big_integer binary_subtract = big_integer_value
integer_big_integer binary_xor = big_integer_value
integer_big_integer inplace_add = big_integer_value
integer_big_integer inplace_and = big_integer_value
integer_big_integer inplace_floor_divide = big_integer_value
integer_big_integer inplace_lshift = big_integer_value
integer_big_integer inplace_modulo = big_integer_value
integer_big_integer inplace_or = big_integer_value
integer_big_integer inplace_rshift = big_integer_value
integer_big_integer inplace_subtract = big_integer_value
integer_big_integer inplace_xor = big_integer_value
integer_big_integer _ = any_value

unfoldable pub integer_list : BinaryOp → AbstractValue
integer_list binary_multiply = list_value
integer_list inplace_multiply = list_value
integer_list _ = any_value

unfoldable pub integer_string : BinaryOp → AbstractValue
integer_string binary_multiply = string_value
integer_string inplace_multiply = string_value
integer_string _ = any_value

unfoldable pub integer_tuple : BinaryOp → AbstractValue
integer_tuple binary_multiply = tuple_value avk_any
integer_tuple inplace_multiply = tuple_value avk_any
integer_tuple _ = any_value

-- `other_int` is the constant on the right, or `MAXLONG` where it is unknown.
unfoldable pub integer_integer : Settings → ℤ → BinaryOp → AbstractValue
integer_integer s other_int binary_true_divide = float_value
integer_integer s other_int inplace_true_divide = float_value
integer_integer s other_int binary_multiply =
    if s.integer_unboxing_multiply
    then integer_value
    else if ltb_ℤ other_int (pos 1024)
    then integer_value
    else big_integer_value
integer_integer s other_int inplace_multiply =
    if s.integer_unboxing_multiply
    then integer_value
    else if ltb_ℤ other_int (pos 1024)
    then integer_value
    else big_integer_value
integer_integer s other_int binary_power =
    if leb_ℤ other_int (pos 2) then integer_value else big_integer_value
integer_integer s other_int inplace_power =
    if leb_ℤ other_int (pos 2) then integer_value else big_integer_value
integer_integer s other_int binary_lshift =
    if s.integer_unboxing_multiply
    then integer_value
    else if leb_ℤ other_int (pos 32)
    then integer_value
    else big_integer_value
integer_integer s other_int binary_add = integer_value
integer_integer s other_int binary_and = integer_value
integer_integer s other_int binary_floor_divide = integer_value
integer_integer s other_int binary_modulo = integer_value
integer_integer s other_int binary_or = integer_value
integer_integer s other_int binary_rshift = integer_value
integer_integer s other_int binary_subtract = integer_value
integer_integer s other_int binary_xor = integer_value
integer_integer s other_int inplace_add = integer_value
integer_integer s other_int inplace_and = integer_value
integer_integer s other_int inplace_floor_divide = integer_value
integer_integer s other_int inplace_lshift = integer_value
integer_integer s other_int inplace_modulo = integer_value
integer_integer s other_int inplace_or = integer_value
integer_integer s other_int inplace_rshift = integer_value
integer_integer s other_int inplace_subtract = integer_value
integer_integer s other_int inplace_xor = integer_value
integer_integer s other_int _ = any_value

unfoldable pub integer_binary : Settings → ℤ → AbstractValueKind → BinaryOp → AbstractValue
unfolding integer_bool integer_bytes integer_complex integer_float integer_integer
    integer_big_integer integer_list integer_string integer_tuple
integer_binary s other_int avk_bool op = integer_bool op
integer_binary s other_int avk_bytes op = integer_bytes op
integer_binary s other_int avk_complex op = integer_complex op
integer_binary s other_int avk_float op = integer_float op
integer_binary s other_int avk_integer op = integer_integer s other_int op
integer_binary s other_int avk_big_integer op = integer_big_integer op
integer_binary s other_int avk_list op = integer_list op
integer_binary s other_int avk_string op = integer_string op
integer_binary s other_int avk_tuple op = integer_tuple op
integer_binary s other_int _ op = any_value
