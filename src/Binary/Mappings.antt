-- ===== src/Binary/Mappings.antt =====
-- The result types of `DictValue::binary`, `SetValue::binary` and `FrozenSetValue::binary` (src/pyjion/absvalue.cpp): a
-- function for each kind of the right operand that the source tests for, with the cases of its
-- switch, and the function that picks one.
use pyjion.Kind.{AbstractValueKind, avk_dict, avk_set, avk_frozen_set}
use pyjion.Opcode.{
  BinaryOp, binary_subtract, binary_and, binary_xor, binary_or, inplace_subtract, inplace_and,
  inplace_xor, inplace_or,
}
use pyjion.Value.{AbstractValue, any_value, dict_value, set_value, frozen_set_value}

unfoldable pub dict_dict : BinaryOp → AbstractValue
dict_dict binary_or = dict_value
dict_dict inplace_or = dict_value
dict_dict _ = any_value

unfoldable pub dict_binary : AbstractValueKind → BinaryOp → AbstractValue
unfolding dict_dict
dict_binary avk_dict op = dict_dict op
dict_binary _ op = any_value

unfoldable pub set_set : BinaryOp → AbstractValue
set_set binary_and = set_value
set_set binary_or = set_value
set_set binary_subtract = set_value
set_set binary_xor = set_value
set_set inplace_and = set_value
set_set inplace_or = set_value
set_set inplace_subtract = set_value
set_set inplace_xor = set_value
set_set _ = any_value

unfoldable pub set_binary : AbstractValueKind → BinaryOp → AbstractValue
unfolding set_set
set_binary avk_set op = set_set op
set_binary _ op = any_value

unfoldable pub frozen_set_set : BinaryOp → AbstractValue
frozen_set_set binary_and = frozen_set_value
frozen_set_set binary_or = frozen_set_value
frozen_set_set binary_subtract = frozen_set_value
frozen_set_set binary_xor = frozen_set_value
frozen_set_set inplace_and = frozen_set_value
frozen_set_set inplace_or = frozen_set_value
frozen_set_set inplace_subtract = frozen_set_value
frozen_set_set inplace_xor = frozen_set_value
frozen_set_set _ = any_value

unfoldable pub frozen_set_binary : AbstractValueKind → BinaryOp → AbstractValue
unfolding frozen_set_set
frozen_set_binary avk_set op = frozen_set_set op
frozen_set_binary avk_frozen_set op = frozen_set_set op
frozen_set_binary _ op = any_value
