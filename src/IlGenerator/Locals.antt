-- ===== src/IlGenerator/Locals.antt =====
-- The locals of the emitted code (`define_local` and `free_local`, src/pyjion/ilgen.h): a freed
-- local is given out again for the same type.
use pyjion.Prelude.{ℕ, ◌+◌, ◌%◌, if◌then◌else◌, Option, none, some, List, [], ◌∷◌, ◌++◌, get_elem?}
use pyjion.Links.{contains, update}

-- The types are the numbers of CoreCLR's `CorInfoType`. A freed list has the end of the source's
-- vector first, and a type without a vector has an empty list.
pub record LocalTable : Type 0 where
  pub locals : List ℕ
  pub freed : ℕ → List ℕ
  pub local_count : ℕ

-- The count is a `uint16_t`.
unfoldable pub define_local_no_cache : ℕ → LocalTable → ℕ × LocalTable
define_local_no_cache type g = (
  g.local_count,
  record g { locals = g.locals ++ type ∷ []; local_count = (g.local_count + 1) % 65536 },
)

unfoldable pub define_from : ℕ → List ℕ → LocalTable → ℕ × LocalTable
unfolding define_local_no_cache
define_from type [] g = define_local_no_cache type g
define_from type (local ∷ rest) g = (local, record g { freed = update g.freed type rest })

unfoldable pub define_local : ℕ → LocalTable → ℕ × LocalTable
unfolding define_from
define_local type g = define_from type (g.freed type) g

-- `none` is the exception for a local that is freed twice, or a local that was never defined,
-- where the source reads out of bounds.
unfoldable pub free_of_type : ℕ → Option ℕ → LocalTable → Option LocalTable
unfolding contains
free_of_type local none g = none
free_of_type local (some type) g =
    if contains (g.freed type) local
    then none
    else some (record g { freed = update g.freed type (local ∷ g.freed type) })

unfoldable pub free_local : ℕ → LocalTable → Option LocalTable
unfolding free_of_type
free_local local g = free_of_type local (get_elem? g.locals local) g
