-- ===== src/Binary.antt =====
-- The virtual methods of `AbstractValue` (src/pyjion/absvalue.h, absvalue.cpp), each as one
-- function over the classes.
mod Booleans
mod Sequences
mod Complexes
mod Integers
mod BigIntegers
mod Floats
mod Strings
mod Mappings
mod ByteArrays
unfoldable pub use Booleans.*
unfoldable pub use Sequences.*
unfoldable pub use Complexes.*
unfoldable pub use Integers.*
unfoldable pub use BigIntegers.*
unfoldable pub use Floats.*
unfoldable pub use Strings.*
unfoldable pub use Mappings.*
unfoldable pub use ByteArrays.*
use pyjion.Prelude.{ltb, if◌then◌else◌, Bool, true, false, Option, none, some, ◌&&◌, not, ite}
use pyjion.Prelude.Int.{ℤ}
use pyjion.Kind.{
  AbstractValueKind, AbstractValueKind-discrete, avk_any, avk_undefined, avk_integer, avk_float,
  avk_big_integer, is_known_type,
}
use pyjion.Opcode.{BinaryOp, UnaryOp, unary_positive, unary_negative, unary_not, unary_invert}
use pyjion.Source.{SourceClass, const_source, get_numeric_value}
use pyjion.Value.{
  Settings, AbstractValue, any_value, undefined_value, bool_value, bytes_value, complex_value,
  integer_value, intern_integer_value, big_integer_value, string_value, float_value, list_value,
  dict_value, set_value, frozen_set_value, none_value, function_value, slice_value, iterable_value,
  module_value, type_value, byte_array_value, range_value, range_iterator_value,
  unboxed_range_iterator_value, tuple_value, volatile_value, pgc_value, kind, avk_to_abstract_value,
}

-- The constant of a source, if it has one.
unfoldable pub const_int : Option SourceClass → Option ℤ
const_int (some (const_source c)) = some (get_numeric_value c)
const_int _ = none

unfoldable pub other_int_of_kind : Settings → AbstractValueKind → Option ℤ → ℤ
other_int_of_kind s avk_integer (some n) = n
other_int_of_kind s _ _ = s.max_long

-- The `other_int` of `IntegerValue::binary`.
unfoldable pub other_int : Settings → AbstractValueKind → Option SourceClass → ℤ
unfolding const_int other_int_of_kind
other_int s k source = other_int_of_kind s k (const_int source)

-- `VolatileValue::binary`, by the kind of the value itself.
unfoldable pub volatile_binary :
    Settings → AbstractValueKind → BinaryOp → AbstractValueKind → Option SourceClass → AbstractValue
unfolding float_binary integer_binary big_integer_binary other_int
volatile_binary s avk_float op k source = float_binary k op
volatile_binary s avk_integer op k source = integer_binary s (other_int s k source) k op
volatile_binary s avk_big_integer op k source = big_integer_binary k op
volatile_binary s _ op k source = any_value

-- `self.binary(op, other)`, for the kind and the source of `other`.
unfoldable pub binary_of_kind :
    Settings → AbstractValue → BinaryOp → AbstractValueKind → Option SourceClass → AbstractValue
unfolding bool_binary bytes_binary complex_binary integer_binary big_integer_binary string_binary
    float_binary tuple_binary list_binary dict_binary set_binary frozen_set_binary byte_array_binary
    volatile_binary kind other_int
binary_of_kind s bool_value op k source = bool_binary k op
binary_of_kind s bytes_value op k source = bytes_binary k op
binary_of_kind s complex_value op k source = complex_binary k op
binary_of_kind s integer_value op k source = integer_binary s (other_int s k source) k op
binary_of_kind s intern_integer_value op k source = integer_binary s (other_int s k source) k op
binary_of_kind s big_integer_value op k source = big_integer_binary k op
binary_of_kind s string_value op k source = string_binary k op
binary_of_kind s float_value op k source = float_binary k op
binary_of_kind s (tuple_value i) op k source = tuple_binary (tuple_value i) k op
binary_of_kind s list_value op k source = list_binary k op
binary_of_kind s dict_value op k source = dict_binary k op
binary_of_kind s set_value op k source = set_binary k op
binary_of_kind s frozen_set_value op k source = frozen_set_binary k op
binary_of_kind s byte_array_value op k source = byte_array_binary k op
binary_of_kind s (volatile_value t v) op k source =
    volatile_binary s (kind s (volatile_value t v)) op k source
binary_of_kind s (pgc_value t own) op k source = volatile_binary s own op k source
binary_of_kind s _ op k source = any_value

unfoldable pub binary :
    Settings → AbstractValue → BinaryOp → AbstractValue → Option SourceClass → AbstractValue
unfolding binary_of_kind kind
binary s self op other source = binary_of_kind s self op (kind s other) source

-- The `unary` of the classes that answer only `UNARY_NOT`.
unfoldable pub not_only : UnaryOp → AbstractValue
not_only unary_not = bool_value
not_only _ = any_value

-- The `unary` of `ComplexValue` and `FloatValue`, which have no `UNARY_INVERT`.
unfoldable pub signed_unary : AbstractValue → UnaryOp → AbstractValue
signed_unary self unary_not = bool_value
signed_unary self unary_negative = self
signed_unary self unary_positive = self
signed_unary self unary_invert = any_value

unfoldable pub bool_unary : UnaryOp → AbstractValue
bool_unary unary_not = bool_value
bool_unary _ = integer_value

unfoldable pub integer_unary : AbstractValue → UnaryOp → AbstractValue
integer_unary self unary_not = bool_value
integer_unary self _ = self

unfoldable pub unary : AbstractValue → UnaryOp → AbstractValue
unfolding not_only signed_unary bool_unary integer_unary
unary bool_value op = bool_unary op
unary integer_value op = integer_unary integer_value op
unary intern_integer_value op = integer_unary intern_integer_value op
unary big_integer_value op = integer_unary big_integer_value op
unary complex_value op = signed_unary complex_value op
unary float_value op = signed_unary float_value op
unary bytes_value op = not_only op
unary string_value op = not_only op
unary (tuple_value i) op = not_only op
unary list_value op = not_only op
unary dict_value op = not_only op
unary set_value op = not_only op
unary frozen_set_value op = not_only op
unary none_value op = not_only op
unary function_value op = not_only op
unary slice_value op = not_only op
unary byte_array_value op = not_only op
unary _ op = any_value

unfoldable pub compare : Settings → AbstractValue → AbstractValue → AbstractValue
unfolding is_known_type kind
compare s self other =
    if is_known_type (kind s self) && is_known_type (kind s other) then bool_value else any_value

unfoldable pub iter : AbstractValue → AbstractValue
iter range_value = unboxed_range_iterator_value
iter _ = any_value

unfoldable pub next : AbstractValue → AbstractValue
next range_iterator_value = integer_value
next unboxed_range_iterator_value = integer_value
next _ = any_value

unfoldable pub item_kind : AbstractValue → AbstractValueKind
item_kind (tuple_value k) = k
item_kind _ = avk_any

unfoldable pub item : AbstractValue → AbstractValue
unfolding item_kind avk_to_abstract_value
item self = avk_to_abstract_value (item_kind self)

-- `AbstractValue::mergeWith`. Two pointers that are equal have equal kinds, so the test on
-- pointers that the source makes first answers as the test on kinds does.
unfoldable pub merge_by_kind : Settings → AbstractValue → AbstractValue → AbstractValue
unfolding AbstractValueKind-discrete kind
merge_by_kind s self other =
    ite (AbstractValueKind-discrete (kind s self) (kind s other)) self any_value

-- Only `UndefinedValue` has a `mergeWith` of its own.
unfoldable pub merge_with : Settings → AbstractValue → AbstractValue → AbstractValue
unfolding merge_by_kind
merge_with s undefined_value other = other
merge_with s self other = merge_by_kind s self other
