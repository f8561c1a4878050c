-- ===== src/KnownMethods/Table.antt =====
-- Tables from names to kinds (src/pyjion/knownmethods.h). The source looks a name up by comparing
-- texts, in an order of its own; no table has a name twice.
use text.Mathlib.Text.{◌==◌}
use Prim.Native.String.{String}
use pyjion.Prelude.{if◌then◌else◌, List, [], ◌∷◌}
use pyjion.Kind.{AbstractValueKind, avk_any}

abbrev pub KindTable : Type 0
KindTable = List (String × AbstractValueKind)

unfoldable pub find_kind : KindTable → String → AbstractValueKind
find_kind [] name = avk_any
find_kind ((n, k) ∷ table) name = if n == name then k else find_kind table name
