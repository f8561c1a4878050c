-- ===== src/KnownMethods/Texts.antt =====
-- What the methods of `str`, `bytes` and `bytearray` give back (src/pyjion/knownmethods.h).
use pyjion.Prelude.{[], ◌∷◌}
use pyjion.Kind.{avk_bool, avk_bytearray, avk_bytes, avk_integer, avk_list, avk_string, avk_tuple}
use pyjion.KnownMethods.Table.{KindTable}

unfoldable pub string_method_return_types : KindTable
string_method_return_types =
    ("capitalize", avk_string)
    ∷ ("casefold", avk_string)
    ∷ ("center", avk_string)
    ∷ ("count", avk_integer)
    ∷ ("encode", avk_bytes)
    ∷ ("endswith", avk_bool)
    ∷ ("expandtabs", avk_string)
    ∷ ("format", avk_string)
    ∷ ("format_map", avk_string)
    ∷ ("isalnum", avk_bool)
    ∷ ("isalpha", avk_bool)
    ∷ ("isascii", avk_bool)
    ∷ ("isdecimal", avk_bool)
    ∷ ("isdigit", avk_bool)
    ∷ ("isidentifier", avk_bool)
    ∷ ("islower", avk_bool)
    ∷ ("isnumeric", avk_bool)
    ∷ ("isprintable", avk_bool)
    ∷ ("isspace", avk_bool)
    ∷ ("istitle", avk_bool)
    ∷ ("isupper", avk_bool)
    ∷ ("join", avk_string)
    ∷ ("ljust", avk_string)
    ∷ ("lower", avk_string)
    ∷ ("partition", avk_string)
    ∷ ("removeprefix", avk_string)
    ∷ ("removesuffix", avk_string)
    ∷ ("replace", avk_string)
    ∷ ("rfind", avk_integer)
    ∷ ("rindex", avk_integer)
    ∷ ("rjust", avk_string)
    ∷ ("rpartition", avk_tuple)
    ∷ ("rsplit", avk_list)
    ∷ ("rstrip", avk_string)
    ∷ ("split", avk_list)
    ∷ ("splitlines", avk_list)
    ∷ ("startswith", avk_bool)
    ∷ ("strip", avk_string)
    ∷ ("swapcase", avk_string)
    ∷ ("title", avk_string)
    ∷ ("translate", avk_string)
    ∷ ("upper", avk_string)
    ∷ ("zfill", avk_string)
    ∷ []

unfoldable pub bytes_method_return_types : KindTable
bytes_method_return_types =
    ("hex", avk_string)
    ∷ ("fromhex", avk_bytes)
    ∷ ("capitalize", avk_bytes)
    ∷ ("casefold", avk_bytes)
    ∷ ("center", avk_bytes)
    ∷ ("count", avk_integer)
    ∷ ("decode", avk_string)
    ∷ ("endswith", avk_bool)
    ∷ ("expandtabs", avk_bytes)
    ∷ ("format", avk_bytes)
    ∷ ("format_map", avk_bytes)
    ∷ ("isalnum", avk_bool)
    ∷ ("isalpha", avk_bool)
    ∷ ("isascii", avk_bool)
    ∷ ("isdecimal", avk_bool)
    ∷ ("isdigit", avk_bool)
    ∷ ("isidentifier", avk_bool)
    ∷ ("islower", avk_bool)
    ∷ ("isnumeric", avk_bool)
    ∷ ("isprintable", avk_bool)
    ∷ ("isspace", avk_bool)
    ∷ ("istitle", avk_bool)
    ∷ ("isupper", avk_bool)
    ∷ ("join", avk_bytes)
    ∷ ("ljust", avk_bytes)
    ∷ ("lower", avk_bytes)
    ∷ ("partition", avk_bytes)
    ∷ ("removeprefix", avk_bytes)
    ∷ ("removesuffix", avk_bytes)
    ∷ ("replace", avk_bytes)
    ∷ ("rfind", avk_integer)
    ∷ ("rindex", avk_integer)
    ∷ ("rjust", avk_bytes)
    ∷ ("rpartition", avk_tuple)
    ∷ ("rsplit", avk_list)
    ∷ ("rstrip", avk_bytes)
    ∷ ("split", avk_list)
    ∷ ("splitlines", avk_list)
    ∷ ("startswith", avk_bool)
    ∷ ("strip", avk_bytes)
    ∷ ("swapcase", avk_bytes)
    ∷ ("title", avk_bytes)
    ∷ ("translate", avk_bytes)
    ∷ ("upper", avk_bytes)
    ∷ ("zfill", avk_bytes)
    ∷ []

unfoldable pub bytearray_method_return_types : KindTable
bytearray_method_return_types =
    ("hex", avk_string)
    ∷ ("fromhex", avk_bytearray)
    ∷ ("capitalize", avk_bytearray)
    ∷ ("casefold", avk_bytearray)
    ∷ ("center", avk_bytearray)
    ∷ ("count", avk_integer)
    ∷ ("decode", avk_string)
    ∷ ("endswith", avk_bool)
    ∷ ("expandtabs", avk_bytearray)
    ∷ ("format", avk_bytearray)
    ∷ ("format_map", avk_bytearray)
    ∷ ("isalnum", avk_bool)
    ∷ ("isalpha", avk_bool)
    ∷ ("isascii", avk_bool)
    ∷ ("isdecimal", avk_bool)
    ∷ ("isdigit", avk_bool)
    ∷ ("isidentifier", avk_bool)
    ∷ ("islower", avk_bool)
    ∷ ("isnumeric", avk_bool)
    ∷ ("isprintable", avk_bool)
    ∷ ("isspace", avk_bool)
    ∷ ("istitle", avk_bool)
    ∷ ("isupper", avk_bool)
    ∷ ("join", avk_bytearray)
    ∷ ("ljust", avk_bytearray)
    ∷ ("lower", avk_bytearray)
    ∷ ("partition", avk_bytearray)
    ∷ ("removeprefix", avk_bytearray)
    ∷ ("removesuffix", avk_bytearray)
    ∷ ("replace", avk_bytearray)
    ∷ ("rfind", avk_integer)
    ∷ ("rindex", avk_integer)
    ∷ ("rjust", avk_bytearray)
    ∷ ("rpartition", avk_tuple)
    ∷ ("rsplit", avk_list)
    ∷ ("rstrip", avk_bytearray)
    ∷ ("split", avk_list)
    ∷ ("splitlines", avk_list)
    ∷ ("startswith", avk_bool)
    ∷ ("strip", avk_bytearray)
    ∷ ("swapcase", avk_bytearray)
    ∷ ("title", avk_bytearray)
    ∷ ("translate", avk_bytearray)
    ∷ ("upper", avk_bytearray)
    ∷ ("zfill", avk_bytearray)
    ∷ []
