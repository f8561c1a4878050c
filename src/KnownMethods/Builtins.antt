-- ===== src/KnownMethods/Builtins.antt =====
-- What built-in functions give back (src/pyjion/knownmethods.h).
use pyjion.Prelude.{[], ◌∷◌}
use pyjion.Kind.{
  avk_any, avk_baseobject, avk_big_integer, avk_bool, avk_bytearray, avk_bytes, avk_classmethod,
  avk_code, avk_complex, avk_dict, avk_enumerate, avk_filter, avk_float, avk_frozen_set,
  avk_integer, avk_iterable, avk_list, avk_map, avk_memory_view, avk_module, avk_none, avk_property,
  avk_range, avk_reversed, avk_set, avk_slice, avk_staticmethod, avk_string, avk_tuple, avk_type,
  avk_zip,
}
use pyjion.KnownMethods.Table.{KindTable}

unfoldable pub builtin_return_types : KindTable
builtin_return_types =
    ("abs", avk_any)
    ∷ ("all", avk_bool)
    ∷ ("any", avk_bool)
    ∷ ("ascii", avk_string)
    ∷ ("bin", avk_string)
    ∷ ("bool", avk_bool)
    ∷ ("breakpoint", avk_none)
    ∷ ("bytearray", avk_bytearray)
    ∷ ("bytes", avk_bytes)
    ∷ ("callable", avk_bool)
    ∷ ("classmethod", avk_classmethod)
    ∷ ("compile", avk_code)
    ∷ ("chr", avk_string)
    ∷ ("complex", avk_complex)
    ∷ ("delattr", avk_none)
    ∷ ("dict", avk_dict)
    ∷ ("dir", avk_list)
    ∷ ("enumerate", avk_enumerate)
    ∷ ("eval", avk_any)
    ∷ ("exec", avk_any)
    ∷ ("filter", avk_filter)
    ∷ ("float", avk_float)
    ∷ ("format", avk_string)
    ∷ ("frozenset", avk_frozen_set)
    ∷ ("getattr", avk_any)
    ∷ ("globals", avk_dict)
    ∷ ("hasattr", avk_bool)
    ∷ ("hash", avk_integer)
    ∷ ("help", avk_any)
    ∷ ("hex", avk_string)
    ∷ ("id", avk_integer)
    ∷ ("input", avk_string)
    ∷ ("int", avk_big_integer)
    ∷ ("isinstance", avk_bool)
    ∷ ("issubclass", avk_bool)
    ∷ ("iter", avk_iterable)
    ∷ ("len", avk_integer)
    ∷ ("list", avk_list)
    ∷ ("locals", avk_dict)
    ∷ ("map", avk_map)
    ∷ ("max", avk_any)
    ∷ ("memoryview", avk_memory_view)
    ∷ ("min", avk_any)
    ∷ ("next", avk_any)
    ∷ ("object", avk_baseobject)
    ∷ ("oct", avk_string)
    ∷ ("open", avk_any)
    ∷ ("ord", avk_integer)
    ∷ ("pow", avk_any)
    ∷ ("property", avk_property)
    ∷ ("print", avk_none)
    ∷ ("range", avk_range)
    ∷ ("repr", avk_string)
    ∷ ("reversed", avk_reversed)
    ∷ ("round", avk_any)
    ∷ ("set", avk_set)
    ∷ ("setattr", avk_none)
    ∷ ("slice", avk_slice)
    ∷ ("sorted", avk_any)
    ∷ ("staticmethod", avk_staticmethod)
    ∷ ("str", avk_string)
    ∷ ("sum", avk_any)
    ∷ ("super", avk_any)
    ∷ ("tuple", avk_tuple)
    ∷ ("type", avk_type)
    ∷ ("vars", avk_dict)
    ∷ ("zip", avk_zip)
    ∷ ("__import__", avk_module)
    ∷ []
