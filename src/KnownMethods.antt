-- ===== src/KnownMethods.antt =====
-- What known functions and methods give back: `knownFunctionReturnType` and the overrides of
-- `resolveMethod` (src/pyjion/absvalue.cpp, knownmethods.h).
mod Table
mod Builtins
mod Texts
mod Others
unfoldable pub use Table.*
unfoldable pub use Builtins.*
unfoldable pub use Texts.*
unfoldable pub use Others.*
use Prim.Native.String.{String}
use pyjion.Prelude.{Option, none, some}
use pyjion.Kind.{AbstractValueKind, avk_any}
use pyjion.Source.{SourceClass, builtin_source}
use pyjion.Value.{
  AbstractValue, big_integer_value, bytes_value, integer_value, intern_integer_value, string_value,
  float_value, list_value, dict_value, byte_array_value,
}

unfoldable pub known_function_return_type : Option SourceClass → AbstractValueKind
unfolding find_kind builtin_return_types
known_function_return_type (some (builtin_source name)) = find_kind builtin_return_types name
known_function_return_type _ = avk_any

unfoldable pub resolve_method : AbstractValue → String → AbstractValueKind
unfolding find_kind bytes_method_return_types int_method_return_types string_method_return_types
    float_method_return_types list_method_return_types dict_method_return_types
    bytearray_method_return_types
resolve_method bytes_value name = find_kind bytes_method_return_types name
resolve_method integer_value name = find_kind int_method_return_types name
resolve_method intern_integer_value name = find_kind int_method_return_types name
resolve_method big_integer_value name = find_kind int_method_return_types name
resolve_method string_value name = find_kind string_method_return_types name
resolve_method float_value name = find_kind float_method_return_types name
resolve_method list_value name = find_kind list_method_return_types name
resolve_method dict_value name = find_kind dict_method_return_types name
resolve_method byte_array_value name = find_kind bytearray_method_return_types name
resolve_method _ name = avk_any
