-- ===== src/Numbers.antt =====
-- What Python's own arithmetic gives on its numbers, stated apart from the tables of
-- src/pyjion/absvalue.cpp: the numeric tower bool, int, float, complex.
pub mod Sound
use pyjion.Prelude.{◌≡◌, Bool, true, false, Option, none, some}
use pyjion.Kind.{
  AbstractValueKind, avk_any, avk_bool, avk_integer, avk_big_integer, avk_float, avk_complex,
}
use pyjion.Opcode.{
  BinaryOp, binary_power, binary_multiply, binary_matrix_multiply, binary_modulo, binary_add,
  binary_subtract, binary_subscr, binary_floor_divide, binary_true_divide, binary_lshift,
  binary_rshift, binary_and, binary_xor, binary_or, inplace_power, inplace_multiply,
  inplace_matrix_multiply, inplace_modulo, inplace_add, inplace_subtract, inplace_floor_divide,
  inplace_true_divide, inplace_lshift, inplace_rshift, inplace_and, inplace_xor, inplace_or,
}
use pyjion.Value.{
  AbstractValue, bool_value, integer_value, big_integer_value, float_value, complex_value,
}

pub data PyNum : Type 0 where
  py_bool py_int py_float py_complex : PyNum

-- The families of operators that Python's numbers treat alike. `**` is apart: its type depends
-- on the sign of the exponent.
pub data Family : Type 0 where
  additive integral division bitwise shifting power_family unsupported : Family

unfoldable pub family : BinaryOp → Family
family binary_power = power_family
family binary_multiply = additive
family binary_matrix_multiply = unsupported
family binary_modulo = integral
family binary_add = additive
family binary_subtract = additive
family binary_subscr = unsupported
family binary_floor_divide = integral
family binary_true_divide = division
family binary_lshift = shifting
family binary_rshift = shifting
family binary_and = bitwise
family binary_xor = bitwise
family binary_or = bitwise
family inplace_power = power_family
family inplace_multiply = additive
family inplace_matrix_multiply = unsupported
family inplace_modulo = integral
family inplace_add = additive
family inplace_subtract = additive
family inplace_floor_divide = integral
family inplace_true_divide = division
family inplace_lshift = shifting
family inplace_rshift = shifting
family inplace_and = bitwise
family inplace_xor = bitwise
family inplace_or = bitwise

-- The wider of two types, where two `bool`s make an `int`.
unfoldable pub tower_join : PyNum → PyNum → PyNum
tower_join py_complex _ = py_complex
tower_join _ py_complex = py_complex
tower_join py_float _ = py_float
tower_join _ py_float = py_float
tower_join _ _ = py_int

unfoldable pub real_only : PyNum → Option PyNum
real_only py_complex = none
real_only n = some n

unfoldable pub at_least_float : PyNum → PyNum
at_least_float py_complex = py_complex
at_least_float _ = py_float

unfoldable pub int_only : PyNum → Option PyNum
int_only py_int = some py_int
int_only _ = none

unfoldable pub bitwise_result : PyNum → PyNum → Option PyNum
unfolding tower_join int_only
bitwise_result py_bool py_bool = some py_bool
bitwise_result a b = int_only (tower_join a b)

-- The type of `a op b` in Python, or `none` for a `TypeError`. Powers are not described.
unfoldable pub python_result : Family → PyNum → PyNum → Option PyNum
unfolding tower_join real_only at_least_float int_only bitwise_result
python_result additive a b = some (tower_join a b)
python_result integral a b = real_only (tower_join a b)
python_result division a b = some (at_least_float (tower_join a b))
python_result bitwise a b = bitwise_result a b
python_result shifting a b = int_only (tower_join a b)
python_result power_family a b = none
python_result unsupported a b = none

-- The Python number that a kind stands for.
abbrev pub py_num : AbstractValueKind → Option PyNum
py_num avk_bool = some py_bool
py_num avk_integer = some py_int
py_num avk_big_integer = some py_int
py_num avk_float = some py_float
py_num avk_complex = some py_complex
py_num _ = none

-- The abstract values of the numbers.
pub data Number : Type 0 where
  a_bool an_integer a_big_integer a_float a_complex : Number

unfoldable pub number_value : Number → AbstractValue
number_value a_bool = bool_value
number_value an_integer = integer_value
number_value a_big_integer = big_integer_value
number_value a_float = float_value
number_value a_complex = complex_value

unfoldable pub number_type : Number → PyNum
number_type a_bool = py_bool
number_type an_integer = py_int
number_type a_big_integer = py_int
number_type a_float = py_float
number_type a_complex = py_complex

-- The kind `k` claims nothing, or claims just the Python type `t`.
abbrev pub ClaimsOnly : AbstractValueKind → Option PyNum → Type 0
ClaimsOnly avk_any t = Unit
ClaimsOnly k t = py_num k ≡ t

-- `bool % int`, where the table answers `bool`.
unfoldable pub is_bool_modulo_int : Number → BinaryOp → Number → Bool
is_bool_modulo_int a_bool binary_modulo an_integer = true
is_bool_modulo_int a_bool inplace_modulo an_integer = true
is_bool_modulo_int a_bool binary_modulo a_big_integer = true
is_bool_modulo_int a_bool inplace_modulo a_big_integer = true
is_bool_modulo_int _ _ _ = false
