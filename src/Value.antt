-- ===== src/Value.antt =====
-- The abstract values of the type inference (src/pyjion/absvalue.h, absvalue.cpp): the class
-- hierarchy under `AbstractValue` as a data type, with a constructor for each class, and the
-- conversions between abstract values, kinds and Python types.
pub mod Kinds
use pyjion.Prelude.{ℕ, ltb, if◌then◌else◌, Bool, true, false, Option, none, some, ◌&&◌, not}
use pyjion.Prelude.Int.{ℤ}
use pyjion.Kind.{
  AbstractValueKind, avk_any, avk_undefined, avk_integer, avk_float, avk_bool, avk_list, avk_dict,
  avk_tuple, avk_set, avk_frozen_set, avk_string, avk_bytes, avk_bytearray, avk_none, avk_function,
  avk_slice, avk_complex, avk_iterable, avk_code, avk_enumerate, avk_type, avk_module, avk_method,
  avk_big_integer, avk_range, avk_range_iterator, avk_memory_view, avk_classmethod, avk_filter,
  avk_property, avk_map, avk_baseobject, avk_reversed, avk_staticmethod, avk_super, avk_zip,
  avk_unboxed_range_iterator,
}

-- The settings that the inference reads: `OPT_ENABLED(IntegerUnboxingMultiply)`,
-- `OPT_ENABLED(OptimisticIntegers)`, and the platform's constant `MAXLONG`.
pub record Settings : Type 0 where
  pub integer_unboxing_multiply : Bool
  pub optimistic_integers : Bool
  pub max_long : ℤ

-- The Python type objects that the source compares with, told apart by their addresses. Any
-- other type object is an `other_type`.
pub data PyTypeObject : Type 0 where
  py_long_type py_float_type py_dict_type py_tuple_type py_list_type py_bool_type py_unicode_type
        py_bytes_type py_byte_array_type py_set_type py_frozen_set_type py_none_type
        py_function_type py_c_function_type py_slice_type py_complex_type py_type_type py_enum_type
        py_code_type py_memory_view_type py_method_type py_module_type py_range_type
        py_range_iter_type pyjion_range_iter_type py_class_method_type py_filter_type
        py_property_type py_map_type py_base_object_type py_reversed_type py_static_method_type
        py_super_type py_zip_type :
      PyTypeObject
  other_type : ℕ → PyTypeObject

-- `IntegerValue::isBig`: an integer object stands for `Py_ABS(Py_SIZE(val))`, its digits.
unfoldable pub is_big : ℕ → Bool
is_big digits = ltb 2 digits

unfoldable pub long_kind : Settings → Option ℕ → AbstractValueKind
unfolding is_big
long_kind s none = avk_big_integer
long_kind s (some digits) =
    if s.optimistic_integers && not (is_big digits) then avk_integer else avk_big_integer

-- The kind of a type object that is not null. The value is read only for its digits.
unfoldable pub get_abstract_type : Settings → PyTypeObject → Option ℕ → AbstractValueKind
unfolding long_kind
get_abstract_type s py_long_type v = long_kind s v
get_abstract_type s py_float_type v = avk_float
get_abstract_type s py_dict_type v = avk_dict
get_abstract_type s py_tuple_type v = avk_tuple
get_abstract_type s py_list_type v = avk_list
get_abstract_type s py_bool_type v = avk_bool
get_abstract_type s py_unicode_type v = avk_string
get_abstract_type s py_bytes_type v = avk_bytes
get_abstract_type s py_byte_array_type v = avk_bytearray
get_abstract_type s py_set_type v = avk_set
get_abstract_type s py_frozen_set_type v = avk_frozen_set
get_abstract_type s py_none_type v = avk_none
get_abstract_type s py_function_type v = avk_function
get_abstract_type s py_c_function_type v = avk_function
get_abstract_type s py_slice_type v = avk_slice
get_abstract_type s py_complex_type v = avk_complex
get_abstract_type s py_type_type v = avk_type
get_abstract_type s py_enum_type v = avk_enumerate
get_abstract_type s py_code_type v = avk_code
get_abstract_type s py_memory_view_type v = avk_memory_view
get_abstract_type s py_method_type v = avk_method
get_abstract_type s py_module_type v = avk_module
get_abstract_type s py_range_type v = avk_range
get_abstract_type s py_range_iter_type v = avk_range_iterator
get_abstract_type s pyjion_range_iter_type v = avk_unboxed_range_iterator
get_abstract_type s py_class_method_type v = avk_classmethod
get_abstract_type s py_filter_type v = avk_filter
get_abstract_type s py_property_type v = avk_property
get_abstract_type s py_map_type v = avk_map
get_abstract_type s py_base_object_type v = avk_baseobject
get_abstract_type s py_reversed_type v = avk_reversed
get_abstract_type s py_static_method_type v = avk_staticmethod
get_abstract_type s py_super_type v = avk_super
get_abstract_type s py_zip_type v = avk_zip
get_abstract_type s (other_type n) v = avk_any

-- `none` is the null pointer.
unfoldable pub get_py_type : AbstractValueKind → Option PyTypeObject
get_py_type avk_any = some py_type_type
get_py_type avk_integer = some py_long_type
get_py_type avk_big_integer = some py_long_type
get_py_type avk_float = some py_float_type
get_py_type avk_dict = some py_dict_type
get_py_type avk_tuple = some py_tuple_type
get_py_type avk_list = some py_list_type
get_py_type avk_bool = some py_bool_type
get_py_type avk_string = some py_unicode_type
get_py_type avk_bytes = some py_bytes_type
get_py_type avk_set = some py_set_type
get_py_type avk_frozen_set = some py_frozen_set_type
get_py_type avk_none = some py_none_type
get_py_type avk_function = some py_function_type
get_py_type avk_slice = some py_slice_type
get_py_type avk_complex = some py_complex_type
get_py_type avk_type = some py_type_type
get_py_type avk_enumerate = some py_enum_type
get_py_type avk_code = some py_code_type
get_py_type avk_bytearray = some py_byte_array_type
get_py_type avk_module = some py_module_type
get_py_type avk_method = some py_method_type
get_py_type avk_memory_view = some py_memory_view_type
get_py_type avk_classmethod = some py_class_method_type
get_py_type avk_filter = some py_filter_type
get_py_type avk_property = some py_property_type
get_py_type avk_map = some py_map_type
get_py_type avk_baseobject = some py_base_object_type
get_py_type avk_reversed = some py_reversed_type
get_py_type avk_staticmethod = some py_static_method_type
get_py_type avk_super = some py_super_type
get_py_type avk_zip = some py_zip_type
get_py_type avk_iterable = none
get_py_type _ = none

-- Each class has one instance in the program, but `TupleOfValue`, which is indexed by the kind
-- of its items, and the volatile values. A `volatile_value` holds its type, which may be null,
-- and the digits of what `lastValue()` returns; it stands for `ArgumentValue` and `GlobalValue`
-- too, which add nothing to it.
pub data AbstractValue : Type 0 where
  any_value undefined_value bool_value bytes_value complex_value integer_value intern_integer_value
        big_integer_value string_value float_value list_value dict_value set_value frozen_set_value
        none_value function_value slice_value iterable_value module_value type_value
        byte_array_value method_value code_object_value enumerator_value range_value
        range_iterator_value unboxed_range_iterator_value memory_view_value class_method_value
        filter_value property_value map_value base_object_value reversed_value static_method_value
        super_value zip_value :
      AbstractValue
  tuple_value : AbstractValueKind → AbstractValue
  volatile_value : Option PyTypeObject → Option ℕ → AbstractValue
  pgc_value : Option PyTypeObject → AbstractValueKind → AbstractValue

unfoldable pub kind : Settings → AbstractValue → AbstractValueKind
unfolding get_abstract_type
kind s any_value = avk_any
kind s undefined_value = avk_undefined
kind s bool_value = avk_bool
kind s bytes_value = avk_bytes
kind s complex_value = avk_complex
kind s integer_value = avk_integer
kind s intern_integer_value = avk_integer
kind s big_integer_value = avk_big_integer
kind s string_value = avk_string
kind s float_value = avk_float
kind s list_value = avk_list
kind s dict_value = avk_dict
kind s set_value = avk_set
kind s frozen_set_value = avk_frozen_set
kind s none_value = avk_none
kind s function_value = avk_function
kind s slice_value = avk_slice
kind s iterable_value = avk_iterable
kind s module_value = avk_module
kind s type_value = avk_type
kind s byte_array_value = avk_bytearray
kind s method_value = avk_method
kind s code_object_value = avk_code
kind s enumerator_value = avk_enumerate
kind s range_value = avk_range
kind s range_iterator_value = avk_range_iterator
kind s unboxed_range_iterator_value = avk_unboxed_range_iterator
kind s memory_view_value = avk_memory_view
kind s class_method_value = avk_classmethod
kind s filter_value = avk_filter
kind s property_value = avk_property
kind s map_value = avk_map
kind s base_object_value = avk_baseobject
kind s reversed_value = avk_reversed
kind s static_method_value = avk_staticmethod
kind s super_value = avk_super
kind s zip_value = avk_zip
kind s (tuple_value k) = avk_tuple
kind s (volatile_value none v) = avk_any
kind s (volatile_value (some t) v) = get_abstract_type s t v
kind s (pgc_value t k) = k

unfoldable pub avk_to_abstract_value : AbstractValueKind → AbstractValue
avk_to_abstract_value avk_any = any_value
avk_to_abstract_value avk_undefined = any_value
avk_to_abstract_value avk_integer = integer_value
avk_to_abstract_value avk_float = float_value
avk_to_abstract_value avk_bool = bool_value
avk_to_abstract_value avk_list = list_value
avk_to_abstract_value avk_dict = dict_value
avk_to_abstract_value avk_tuple = tuple_value avk_any
avk_to_abstract_value avk_set = set_value
avk_to_abstract_value avk_frozen_set = frozen_set_value
avk_to_abstract_value avk_string = string_value
avk_to_abstract_value avk_bytes = bytes_value
avk_to_abstract_value avk_bytearray = byte_array_value
avk_to_abstract_value avk_none = none_value
avk_to_abstract_value avk_function = function_value
avk_to_abstract_value avk_slice = slice_value
avk_to_abstract_value avk_complex = complex_value
avk_to_abstract_value avk_iterable = iterable_value
avk_to_abstract_value avk_code = code_object_value
avk_to_abstract_value avk_enumerate = enumerator_value
avk_to_abstract_value avk_type = type_value
avk_to_abstract_value avk_module = module_value
avk_to_abstract_value avk_method = method_value
avk_to_abstract_value avk_big_integer = big_integer_value
avk_to_abstract_value avk_range = range_value
avk_to_abstract_value avk_range_iterator = range_iterator_value
avk_to_abstract_value avk_unboxed_range_iterator = unboxed_range_iterator_value
avk_to_abstract_value avk_memory_view = memory_view_value
avk_to_abstract_value avk_classmethod = class_method_value
avk_to_abstract_value avk_filter = filter_value
avk_to_abstract_value avk_property = property_value
avk_to_abstract_value avk_map = map_value
avk_to_abstract_value avk_baseobject = base_object_value
avk_to_abstract_value avk_reversed = reversed_value
avk_to_abstract_value avk_staticmethod = static_method_value
avk_to_abstract_value avk_super = super_value
avk_to_abstract_value avk_zip = zip_value
