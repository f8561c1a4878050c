-- ===== src/Binary/Booleans.antt =====
-- The result types of `BoolValue::binary` (src/pyjion/absvalue.cpp): a
-- function for each kind of the right operand that the source tests for, with the cases of its
-- switch, and the function that picks one.
use pyjion.Kind.{
  AbstractValueKind, avk_any, avk_integer, avk_float, avk_bool, avk_list, avk_tuple, avk_string,
  avk_bytes, avk_complex, avk_big_integer,
}
use pyjion.Opcode.{
  BinaryOp, binary_power, binary_multiply, binary_modulo, binary_add, binary_subtract,
  binary_floor_divide, binary_true_divide, binary_lshift, binary_rshift, binary_and, binary_xor,
  binary_or, inplace_power, inplace_multiply, inplace_modulo, inplace_add, inplace_subtract,
  inplace_floor_divide, inplace_true_divide, inplace_lshift, inplace_rshift, inplace_and,
  inplace_xor, inplace_or,
}
use pyjion.Value.{
  AbstractValue, any_value, bool_value, bytes_value, complex_value, integer_value,
  big_integer_value, string_value, float_value, list_value, tuple_value,
}

unfoldable pub bool_bool : BinaryOp → AbstractValue
bool_bool binary_and = bool_value
bool_bool binary_or = bool_value
bool_bool binary_xor = bool_value
bool_bool inplace_and = bool_value
bool_bool inplace_or = bool_value
bool_bool inplace_xor = bool_value
bool_bool binary_true_divide = float_value
bool_bool inplace_true_divide = float_value
bool_bool binary_add = integer_value
bool_bool binary_floor_divide = integer_value
bool_bool binary_lshift = integer_value
bool_bool binary_modulo = integer_value
bool_bool binary_multiply = integer_value
bool_bool binary_power = integer_value
bool_bool binary_rshift = integer_value
bool_bool binary_subtract = integer_value
bool_bool inplace_add = integer_value
bool_bool inplace_floor_divide = integer_value
bool_bool inplace_lshift = integer_value
bool_bool inplace_modulo = integer_value
bool_bool inplace_multiply = integer_value
bool_bool inplace_power = integer_value
bool_bool inplace_rshift = integer_value
bool_bool inplace_subtract = integer_value
bool_bool _ = any_value

unfoldable pub bool_bytes : BinaryOp → AbstractValue
bool_bytes binary_multiply = bytes_value
bool_bytes inplace_multiply = bytes_value
bool_bytes _ = any_value

unfoldable pub bool_complex : BinaryOp → AbstractValue
bool_complex binary_add = complex_value
bool_complex binary_multiply = complex_value
bool_complex binary_power = complex_value
bool_complex binary_subtract = complex_value
bool_complex binary_true_divide = complex_value
bool_complex inplace_add = complex_value
bool_complex inplace_multiply = complex_value
bool_complex inplace_power = complex_value
bool_complex inplace_subtract = complex_value
bool_complex inplace_true_divide = complex_value
bool_complex _ = any_value

unfoldable pub bool_float : BinaryOp → AbstractValue
bool_float binary_add = float_value
bool_float binary_floor_divide = float_value
bool_float binary_modulo = float_value
bool_float binary_multiply = float_value
bool_float binary_power = float_value
bool_float binary_subtract = float_value
bool_float binary_true_divide = float_value
bool_float inplace_add = float_value
bool_float inplace_floor_divide = float_value
bool_float inplace_modulo = float_value
bool_float inplace_multiply = float_value
bool_float inplace_power = float_value
bool_float inplace_subtract = float_value
bool_float inplace_true_divide = float_value
bool_float _ = any_value

unfoldable pub bool_integer : BinaryOp → AbstractValue
bool_integer binary_modulo = bool_value
bool_integer inplace_modulo = bool_value
bool_integer binary_true_divide = float_value
bool_integer inplace_true_divide = float_value
bool_integer binary_add = integer_value
bool_integer binary_and = integer_value
bool_integer binary_floor_divide = integer_value
bool_integer binary_lshift = integer_value
bool_integer binary_multiply = integer_value
bool_integer binary_or = integer_value
bool_integer binary_power = integer_value
bool_integer binary_rshift = integer_value
bool_integer binary_subtract = integer_value
bool_integer binary_xor = integer_value
bool_integer inplace_add = integer_value
bool_integer inplace_and = integer_value
bool_integer inplace_floor_divide = integer_value
bool_integer inplace_lshift = integer_value
bool_integer inplace_multiply = integer_value
bool_integer inplace_or = integer_value
bool_integer inplace_power = integer_value
bool_integer inplace_rshift = integer_value
bool_integer inplace_subtract = integer_value
bool_integer inplace_xor = integer_value
bool_integer _ = any_value

unfoldable pub bool_big_integer : BinaryOp → AbstractValue
bool_big_integer binary_modulo = bool_value
bool_big_integer inplace_modulo = bool_value
bool_big_integer binary_true_divide = float_value
bool_big_integer inplace_true_divide = float_value
bool_big_integer binary_add = big_integer_value
bool_big_integer binary_and = big_integer_value
bool_big_integer binary_floor_divide = big_integer_value
bool_big_integer binary_lshift = big_integer_value
bool_big_integer binary_multiply = big_integer_value
bool_big_integer binary_or = big_integer_value
bool_big_integer binary_power = big_integer_value
bool_big_integer binary_rshift = big_integer_value
bool_big_integer binary_subtract = big_integer_value
bool_big_integer binary_xor = big_integer_value
bool_big_integer inplace_add = big_integer_value
bool_big_integer inplace_and = big_integer_value
bool_big_integer inplace_floor_divide = big_integer_value
bool_big_integer inplace_lshift = big_integer_value
bool_big_integer inplace_multiply = big_integer_value
bool_big_integer inplace_or = big_integer_value
bool_big_integer inplace_power = big_integer_value
bool_big_integer inplace_rshift = big_integer_value
bool_big_integer inplace_subtract = big_integer_value
bool_big_integer inplace_xor = big_integer_value
bool_big_integer _ = any_value

unfoldable pub bool_list : BinaryOp → AbstractValue
bool_list binary_multiply = list_value
bool_list inplace_multiply = list_value
bool_list _ = any_value

unfoldable pub bool_string : BinaryOp → AbstractValue
bool_string binary_multiply = string_value
bool_string inplace_multiply = string_value
bool_string _ = any_value

unfoldable pub bool_tuple : BinaryOp → AbstractValue
bool_tuple binary_multiply = tuple_value avk_any
bool_tuple inplace_multiply = tuple_value avk_any
bool_tuple _ = any_value

unfoldable pub bool_binary : AbstractValueKind → BinaryOp → AbstractValue
unfolding bool_bool bool_bytes bool_complex bool_float bool_integer bool_big_integer bool_list
    bool_string bool_tuple
bool_binary avk_bool op = bool_bool op
bool_binary avk_bytes op = bool_bytes op
bool_binary avk_complex op = bool_complex op
bool_binary avk_float op = bool_float op
bool_binary avk_integer op = bool_integer op
bool_binary avk_big_integer op = bool_big_integer op
bool_binary avk_list op = bool_list op
bool_binary avk_string op = bool_string op
bool_binary avk_tuple op = bool_tuple op
bool_binary _ op = any_value
