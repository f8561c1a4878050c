-- ===== src/Binary/Sequences.antt =====
-- The result types of `BytesValue::binary`, `TupleValue::binary` and `ListValue::binary` (src/pyjion/absvalue.cpp): a
-- function for each kind of the right operand that the source tests for, with the cases of its
-- switch, and the function that picks one.
use pyjion.Kind.{
  AbstractValueKind, avk_integer, avk_bool, avk_list, avk_dict, avk_tuple, avk_set, avk_string,
  avk_bytes, avk_slice,
}
use pyjion.Opcode.{
  BinaryOp, binary_multiply, binary_modulo, binary_add, binary_subscr, inplace_multiply,
  inplace_modulo, inplace_add,
}
use pyjion.Value.{AbstractValue, any_value, bytes_value, integer_value, list_value}

unfoldable pub bytes_bool : BinaryOp → AbstractValue
bytes_bool binary_multiply = bytes_value
bytes_bool inplace_multiply = bytes_value
bytes_bool _ = any_value

unfoldable pub bytes_bytes : BinaryOp → AbstractValue
bytes_bytes binary_add = bytes_value
bytes_bytes binary_modulo = bytes_value
bytes_bytes inplace_add = bytes_value
bytes_bytes inplace_modulo = bytes_value
bytes_bytes _ = any_value

unfoldable pub bytes_dict : BinaryOp → AbstractValue
bytes_dict binary_modulo = bytes_value
bytes_dict inplace_modulo = bytes_value
bytes_dict _ = any_value

unfoldable pub bytes_integer : BinaryOp → AbstractValue
bytes_integer binary_multiply = bytes_value
bytes_integer inplace_multiply = bytes_value
bytes_integer binary_subscr = integer_value
bytes_integer _ = any_value

unfoldable pub bytes_list : BinaryOp → AbstractValue
bytes_list binary_modulo = bytes_value
bytes_list inplace_modulo = bytes_value
bytes_list _ = any_value

unfoldable pub bytes_slice : BinaryOp → AbstractValue
bytes_slice binary_subscr = bytes_value
bytes_slice _ = any_value

unfoldable pub bytes_tuple : BinaryOp → AbstractValue
bytes_tuple binary_modulo = bytes_value
bytes_tuple inplace_modulo = bytes_value
bytes_tuple _ = any_value

unfoldable pub bytes_binary : AbstractValueKind → BinaryOp → AbstractValue
unfolding bytes_bool bytes_bytes bytes_dict bytes_integer bytes_list bytes_slice bytes_tuple
bytes_binary avk_bool op = bytes_bool op
bytes_binary avk_bytes op = bytes_bytes op
bytes_binary avk_dict op = bytes_dict op
bytes_binary avk_integer op = bytes_integer op
bytes_binary avk_list op = bytes_list op
bytes_binary avk_slice op = bytes_slice op
bytes_binary avk_tuple op = bytes_tuple op
bytes_binary _ op = any_value

unfoldable pub tuple_bool : AbstractValue → BinaryOp → AbstractValue
tuple_bool self binary_multiply = self
tuple_bool self inplace_multiply = self
tuple_bool self _ = any_value

unfoldable pub tuple_integer : AbstractValue → BinaryOp → AbstractValue
tuple_integer self binary_multiply = self
tuple_integer self inplace_multiply = self
tuple_integer self _ = any_value

unfoldable pub tuple_slice : AbstractValue → BinaryOp → AbstractValue
tuple_slice self binary_subscr = self
tuple_slice self _ = any_value

unfoldable pub tuple_tuple : AbstractValue → BinaryOp → AbstractValue
tuple_tuple self binary_add = self
tuple_tuple self inplace_add = self
tuple_tuple self _ = any_value

unfoldable pub tuple_binary : AbstractValue → AbstractValueKind → BinaryOp → AbstractValue
unfolding tuple_bool tuple_integer tuple_slice tuple_tuple
tuple_binary self avk_bool op = tuple_bool self op
tuple_binary self avk_integer op = tuple_integer self op
tuple_binary self avk_slice op = tuple_slice self op
tuple_binary self avk_tuple op = tuple_tuple self op
tuple_binary self _ op = any_value

unfoldable pub list_bool : BinaryOp → AbstractValue
list_bool binary_multiply = list_value
list_bool inplace_multiply = list_value
list_bool _ = any_value

unfoldable pub list_bytes : BinaryOp → AbstractValue
list_bytes inplace_add = list_value
list_bytes _ = any_value

unfoldable pub list_dict : BinaryOp → AbstractValue
list_dict inplace_add = list_value
list_dict _ = any_value

unfoldable pub list_integer : BinaryOp → AbstractValue
list_integer binary_multiply = list_value
list_integer inplace_multiply = list_value
list_integer _ = any_value

unfoldable pub list_list : BinaryOp → AbstractValue
list_list binary_add = list_value
list_list inplace_add = list_value
list_list _ = any_value

unfoldable pub list_set : BinaryOp → AbstractValue
list_set inplace_add = list_value
list_set _ = any_value

unfoldable pub list_slice : BinaryOp → AbstractValue
list_slice binary_subscr = list_value
list_slice _ = any_value

unfoldable pub list_string : BinaryOp → AbstractValue
list_string inplace_add = list_value
list_string _ = any_value

unfoldable pub list_tuple : BinaryOp → AbstractValue
list_tuple inplace_add = list_value
list_tuple _ = any_value

unfoldable pub list_binary : AbstractValueKind → BinaryOp → AbstractValue
unfolding list_bool list_bytes list_dict list_integer list_list list_set list_slice list_string
    list_tuple
list_binary avk_bool op = list_bool op
list_binary avk_bytes op = list_bytes op
list_binary avk_dict op = list_dict op
list_binary avk_integer op = list_integer op
list_binary avk_list op = list_list op
list_binary avk_set op = list_set op
list_binary avk_slice op = list_slice op
list_binary avk_string op = list_string op
list_binary avk_tuple op = list_tuple op
list_binary _ op = any_value
