-- ===== src/Inplace.antt =====
-- The in-place operators against the plain ones (src/pyjion/absvalue.cpp).
use pyjion.Prelude.{◌≡◌, refl, Bool, true, false, Option, arith}
use pyjion.Prelude.Int.{ℤ}
use pyjion.Kind.{
  AbstractValueKind, avk_any, avk_integer, avk_float, avk_big_integer, avk_list, avk_bytearray,
  avk_bytes, avk_dict, avk_set, avk_string, avk_tuple,
}
use pyjion.Opcode.{
  BinaryOp, binary_power, binary_multiply, binary_matrix_multiply, binary_modulo, binary_add,
  binary_subtract, binary_floor_divide, binary_true_divide, binary_lshift, binary_rshift,
  binary_and, binary_xor, binary_or, inplace_power, inplace_multiply, inplace_matrix_multiply,
  inplace_modulo, inplace_add, inplace_subtract, inplace_floor_divide, inplace_true_divide,
  inplace_lshift, inplace_rshift, inplace_and, inplace_xor, inplace_or,
}
use pyjion.Source.{SourceClass}
use pyjion.Value.{
  Settings, AbstractValue, bool_value, bytes_value, complex_value, integer_value,
  intern_integer_value, big_integer_value, string_value, float_value, list_value, dict_value,
  set_value, frozen_set_value, byte_array_value, tuple_value, volatile_value, pgc_value, kind,
}
use pyjion.Binary.{
  bool_binary, bytes_binary, complex_binary, integer_binary, big_integer_binary, string_binary,
  float_binary, tuple_binary, list_binary, dict_binary, set_binary, frozen_set_binary,
  byte_array_binary, volatile_binary, other_int, binary,
}

-- The in-place operator of a plain one; the subscript has none.
unfoldable pub inplace_of : BinaryOp → BinaryOp
inplace_of binary_power = inplace_power
inplace_of binary_multiply = inplace_multiply
inplace_of binary_matrix_multiply = inplace_matrix_multiply
inplace_of binary_modulo = inplace_modulo
inplace_of binary_add = inplace_add
inplace_of binary_subtract = inplace_subtract
inplace_of binary_floor_divide = inplace_floor_divide
inplace_of binary_true_divide = inplace_true_divide
inplace_of binary_lshift = inplace_lshift
inplace_of binary_rshift = inplace_rshift
inplace_of binary_and = inplace_and
inplace_of binary_xor = inplace_xor
inplace_of binary_or = inplace_or
inplace_of op = op

-- The entries where the two rows of the tables may differ, by the kinds of the operands: shifting
-- an integer by an integer, adding to a list in place, and repeating a bytearray.
unfoldable pub rows_differ : AbstractValueKind → BinaryOp → AbstractValueKind → Bool
rows_differ avk_integer binary_lshift avk_integer = true
rows_differ avk_list binary_add avk_bytes = true
rows_differ avk_list binary_add avk_dict = true
rows_differ avk_list binary_add avk_set = true
rows_differ avk_list binary_add avk_string = true
rows_differ avk_list binary_add avk_tuple = true
rows_differ avk_bytearray binary_multiply avk_integer = true
rows_differ avk_bytearray binary_multiply avk_big_integer = true
rows_differ _ _ _ = false

bool-inplace :
    (k : AbstractValueKind) (op : BinaryOp) → bool_binary k (inplace_of op) ≡ bool_binary k op
unfolding bool_binary inplace_of
bool-inplace avk_any op = ground arith
bool-inplace _ op = ground arith

bytes-inplace :
    (k : AbstractValueKind) (op : BinaryOp) → bytes_binary k (inplace_of op) ≡ bytes_binary k op
unfolding bytes_binary inplace_of
bytes-inplace avk_any op = ground arith
bytes-inplace _ op = ground arith

complex-inplace :
    (k : AbstractValueKind) (op : BinaryOp) → complex_binary k (inplace_of op) ≡ complex_binary k op
unfolding complex_binary inplace_of
complex-inplace avk_any op = ground arith
complex-inplace _ op = ground arith

big_integer-inplace :
    (k : AbstractValueKind) (op : BinaryOp)
    → big_integer_binary k (inplace_of op) ≡ big_integer_binary k op
unfolding big_integer_binary inplace_of
big_integer-inplace avk_any op = ground arith
big_integer-inplace _ op = ground arith

string-inplace :
    (k : AbstractValueKind) (op : BinaryOp) → string_binary k (inplace_of op) ≡ string_binary k op
unfolding string_binary inplace_of
string-inplace avk_any op = ground arith
string-inplace _ op = ground arith

float-inplace :
    (k : AbstractValueKind) (op : BinaryOp) → float_binary k (inplace_of op) ≡ float_binary k op
unfolding float_binary inplace_of
float-inplace avk_any op = ground arith
float-inplace _ op = ground arith

dict-inplace :
    (k : AbstractValueKind) (op : BinaryOp) → dict_binary k (inplace_of op) ≡ dict_binary k op
unfolding dict_binary inplace_of
dict-inplace avk_any op = ground arith
dict-inplace _ op = ground arith

set-inplace :
    (k : AbstractValueKind) (op : BinaryOp) → set_binary k (inplace_of op) ≡ set_binary k op
unfolding set_binary inplace_of
set-inplace avk_any op = ground arith
set-inplace _ op = ground arith

frozen_set-inplace :
    (k : AbstractValueKind) (op : BinaryOp)
    → frozen_set_binary k (inplace_of op) ≡ frozen_set_binary k op
unfolding frozen_set_binary inplace_of
frozen_set-inplace avk_any op = ground arith
frozen_set-inplace _ op = ground arith

tuple-inplace :
    (self : AbstractValue) (k : AbstractValueKind) (op : BinaryOp)
    → tuple_binary self k (inplace_of op) ≡ tuple_binary self k op
unfolding tuple_binary inplace_of
tuple-inplace self avk_any op = ground arith
tuple-inplace self _ op = ground arith

list-inplace :
    (k : AbstractValueKind) (op : BinaryOp)
    → rows_differ avk_list op k ≡ false
    → list_binary k (inplace_of op) ≡ list_binary k op
unfolding list_binary inplace_of rows_differ
list-inplace avk_any op h = ground arith
list-inplace _ op h = ground arith

byte_array-inplace :
    (k : AbstractValueKind) (op : BinaryOp)
    → rows_differ avk_bytearray op k ≡ false
    → byte_array_binary k (inplace_of op) ≡ byte_array_binary k op
unfolding byte_array_binary inplace_of rows_differ
byte_array-inplace avk_any op h = ground arith
byte_array-inplace _ op h = ground arith

module _ (s : Settings) where
  integer-inplace :
      (n : ℤ) (k : AbstractValueKind) (op : BinaryOp)
      → rows_differ avk_integer op k ≡ false
      → integer_binary s n k (inplace_of op) ≡ integer_binary s n k op
  unfolding integer_binary inplace_of rows_differ
  integer-inplace n avk_any op h = ground arith
  integer-inplace n _ op h = ground arith

  volatile-inplace :
      (own : AbstractValueKind) (op : BinaryOp) (k : AbstractValueKind)
      (source : Option SourceClass)
      → rows_differ own op k ≡ false
      → volatile_binary s own (inplace_of op) k source ≡ volatile_binary s own op k source
  unfolding volatile_binary
  volatile-inplace avk_float op k source h = float-inplace k op
  volatile-inplace avk_integer op k source h = integer-inplace (other_int s k source) k op h
  volatile-inplace avk_big_integer op k source h = big_integer-inplace k op
  volatile-inplace _ op k source h = refl

  -- An in-place operator gives the abstract value that its plain operator gives, for every pair
  -- of operands and every source, outside the entries that `rows_differ` names.
  pub binary-inplace_of :
      (self : AbstractValue) (op : BinaryOp) (other : AbstractValue) (source : Option SourceClass)
      → rows_differ (kind s self) op (kind s other) ≡ false
      → binary s self (inplace_of op) other source ≡ binary s self op other source
  unfolding binary
  binary-inplace_of bool_value op other source h = bool-inplace (kind s other) op
  binary-inplace_of bytes_value op other source h = bytes-inplace (kind s other) op
  binary-inplace_of complex_value op other source h = complex-inplace (kind s other) op
  binary-inplace_of integer_value op other source h =
      integer-inplace (other_int s (kind s other) source) (kind s other) op h
  binary-inplace_of intern_integer_value op other source h =
      integer-inplace (other_int s (kind s other) source) (kind s other) op h
  binary-inplace_of big_integer_value op other source h = big_integer-inplace (kind s other) op
  binary-inplace_of string_value op other source h = string-inplace (kind s other) op
  binary-inplace_of float_value op other source h = float-inplace (kind s other) op
  binary-inplace_of (tuple_value i) op other source h =
      tuple-inplace (tuple_value i) (kind s other) op
  binary-inplace_of list_value op other source h = list-inplace (kind s other) op h
  binary-inplace_of dict_value op other source h = dict-inplace (kind s other) op
  binary-inplace_of set_value op other source h = set-inplace (kind s other) op
  binary-inplace_of frozen_set_value op other source h = frozen_set-inplace (kind s other) op
  binary-inplace_of byte_array_value op other source h = byte_array-inplace (kind s other) op h
  binary-inplace_of (volatile_value t v) op other source h =
      volatile-inplace (kind s (volatile_value t v)) op (kind s other) source h
  binary-inplace_of (pgc_value t own) op other source h =
      volatile-inplace own op (kind s other) source h
  binary-inplace_of _ op other source h = refl
