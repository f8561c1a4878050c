-- ===== src/Prelude/Text.antt =====
-- The comparison of texts, under a name beside the tests on numbers.
use text.Mathlib.Text.{◌==◌}
use Prim.Native.String.{String}
use mathlib.Core.Bool.{Bool}

abbrev pub same_text : String → String → Bool
same_text a b = a == b
