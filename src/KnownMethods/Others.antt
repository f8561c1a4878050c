-- ===== src/KnownMethods/Others.antt =====
-- What the methods of lists, dictionaries and numbers give back (src/pyjion/knownmethods.h).
use pyjion.Prelude.{[], ◌∷◌}
use pyjion.Kind.{
  avk_any, avk_bool, avk_bytes, avk_dict, avk_float, avk_integer, avk_iterable, avk_list, avk_none,
  avk_string, avk_tuple,
}
use pyjion.KnownMethods.Table.{KindTable}

unfoldable pub list_method_return_types : KindTable
list_method_return_types =
    ("append", avk_none)
    ∷ ("extend", avk_none)
    ∷ ("insert", avk_none)
    ∷ ("remove", avk_none)
    ∷ ("pop", avk_any)
    ∷ ("clear", avk_none)
    ∷ ("index", avk_integer)
    ∷ ("count", avk_integer)
    ∷ ("sort", avk_none)
    ∷ ("reverse", avk_none)
    ∷ ("copy", avk_list)
    ∷ []

unfoldable pub dict_method_return_types : KindTable
dict_method_return_types =
    ("clear", avk_none)
    ∷ ("copy", avk_dict)
    ∷ ("fromkeys", avk_dict)
    ∷ ("get", avk_any)
    ∷ ("items", avk_any)
    ∷ ("keys", avk_any)
    ∷ ("values", avk_any)
    ∷ ("pop", avk_any)
    ∷ ("popitem", avk_any)
    ∷ ("reversed", avk_iterable)
    ∷ ("setdefault", avk_none)
    ∷ ("update", avk_none)
    ∷ []

unfoldable pub int_method_return_types : KindTable
int_method_return_types =
    ("bit_length", avk_integer)
    ∷ ("to_bytes", avk_bytes)
    ∷ ("from_bytes", avk_integer)
    ∷ ("as_integer_ratio", avk_tuple)
    ∷ []

unfoldable pub float_method_return_types : KindTable
float_method_return_types =
    ("as_integer_ratio", avk_tuple)
    ∷ ("conjugate", avk_float)
    ∷ ("is_integer", avk_bool)
    ∷ ("hex", avk_string)
    ∷ []
