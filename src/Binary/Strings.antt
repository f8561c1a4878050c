-- ===== src/Binary/Strings.antt =====
-- The result types of `StringValue::binary` (src/pyjion/absvalue.cpp): a
-- function for each kind of the right operand that the source tests for, with the cases of its
-- switch, and the function that picks one.
use pyjion.Kind.{AbstractValueKind, avk_integer, avk_bool, avk_string, avk_slice}
use pyjion.Opcode.{
  BinaryOp, binary_multiply, binary_modulo, binary_add, binary_subscr, inplace_multiply,
  inplace_modulo, inplace_add,
}
use pyjion.Value.{AbstractValue, any_value, string_value}

unfoldable pub string_bool : BinaryOp → AbstractValue
string_bool binary_multiply = string_value
string_bool inplace_multiply = string_value
string_bool _ = any_value

unfoldable pub string_integer : BinaryOp → AbstractValue
string_integer binary_multiply = string_value
string_integer binary_subscr = string_value
string_integer inplace_multiply = string_value
string_integer _ = any_value

unfoldable pub string_slice : BinaryOp → AbstractValue
string_slice binary_subscr = string_value
string_slice _ = any_value

unfoldable pub string_string : BinaryOp → AbstractValue
string_string binary_add = string_value
string_string inplace_add = string_value
string_string _ = any_value

unfoldable pub string_binary_by_kind : AbstractValueKind → BinaryOp → AbstractValue
unfolding string_bool string_integer string_slice string_string
string_binary_by_kind avk_bool op = string_bool op
string_binary_by_kind avk_integer op = string_integer op
string_binary_by_kind avk_slice op = string_slice op
string_binary_by_kind avk_string op = string_string op
string_binary_by_kind _ op = any_value

-- String interpolation gives a string, whatever the right operand.
unfoldable pub string_binary : AbstractValueKind → BinaryOp → AbstractValue
unfolding string_binary_by_kind
string_binary k binary_modulo = string_value
string_binary k inplace_modulo = string_value
string_binary k op = string_binary_by_kind k op
