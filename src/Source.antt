-- ===== src/Source.antt =====
-- Where abstract values come from (src/pyjion/absvalue.h): the class hierarchy under
-- `AbstractSource`, without the sets that link sources (Links.antt).
use Prim.Native.String.{String}
use pyjion.Prelude.{
  ℕ, ◌^◌, ltb, ◌==◌, if◌then◌else◌, Bool, true, false, Option, none, some, List, [], ◌∷◌, ◌++◌,
}
use pyjion.Prelude.Int.{ℤ, pos, negsuc}
use pyjion.Kind.{AbstractValueKind}

-- A constant of the code object, as far as the source looks at it: an exact `int` with its
-- value, or any other object.
pub data PyConst : Type 0 where
  py_long : ℤ → PyConst
  py_object : PyConst

-- `PyLong_AsSsize_t` gives -1 where the value does not fit, and so does the constructor of
-- `ConstSource` for an object that is no `int`.
unfoldable pub get_numeric_value : PyConst → ℤ
get_numeric_value (py_long (pos n)) = if ltb n (2 ^ 63) then pos n else negsuc 0
get_numeric_value (py_long (negsuc n)) = if ltb n (2 ^ 63) then negsuc n else negsuc 0
get_numeric_value py_object = negsuc 0

unfoldable pub has_numeric_value : PyConst → Bool
has_numeric_value (py_long (pos n)) = ltb n (2 ^ 63)
has_numeric_value (py_long (negsuc n)) = ltb n (2 ^ 63)
has_numeric_value py_object = false

-- The subclasses of `AbstractSource`.
pub data SourceClass : Type 0 where
  const_source : PyConst → SourceClass
  global_source builtin_source method_source : String → SourceClass
  local_source intermediate_source : SourceClass
  iterator_source : AbstractValueKind → SourceClass

pub record AbstractSource : Type 0 where
  pub class : SourceClass
  pub consumers : List (ℕ × ℕ)
  pub producer : ℕ

unfoldable pub class_has_const_value : SourceClass → Bool
class_has_const_value (const_source c) = true
class_has_const_value _ = false

unfoldable pub class_is_builtin : SourceClass → Bool
class_is_builtin (builtin_source n) = true
class_is_builtin _ = false

unfoldable pub class_is_intermediate : SourceClass → Bool
class_is_intermediate intermediate_source = true
class_is_intermediate _ = false

unfoldable pub add_consumer : ℕ → ℕ → AbstractSource → AbstractSource
add_consumer index position s = record s { consumers = s.consumers ++ (index, position) ∷ [] }

unfoldable pub find_consumer : List (ℕ × ℕ) → ℕ → Option ℕ
find_consumer [] idx = none
find_consumer ((index, position) ∷ cs) idx =
    if index == idx then some position else find_consumer cs idx

-- `none` stands for the -1 of the source.
unfoldable pub is_consumed_by : AbstractSource → ℕ → Option ℕ
unfolding find_consumer
is_consumed_by s idx = find_consumer s.consumers idx
