-- ===== src/AttributeTable.antt =====
-- The kinds of attributes that stores were seen to give (src/pyjion/attrtable.h, attrtable.cpp).
-- A type is a pointer that may be null, and a name is the address of its text, as in the source.
pub mod History
use native.Mathlib.Decide.{ℕ_discrete}
use pyjion.Prelude.{ℕ, Bool, true, false, Option, none, some, ite}
use pyjion.Kind.{AbstractValueKind, AbstractValueKind-discrete, avk_any, avk_none}
use pyjion.Value.{PyTypeObject}
use pyjion.Links.{update}

unfoldable pub PyTypeObject-discrete : Discrete (Option PyTypeObject)
PyTypeObject-discrete = hlevel (ℕ_discrete)

abbrev pub AttributeKinds : Type 0
AttributeKinds = ℕ → Option AbstractValueKind

abbrev pub AttributeTable : Type 0
AttributeTable = Option PyTypeObject → Option AttributeKinds

-- `table[ty] = kinds`
abbrev pub set_type : AttributeTable → Option PyTypeObject → AttributeKinds → AttributeTable
set_type table ty kinds other = ite (PyTypeObject-discrete ty other) (some kinds) (table other)

-- An attribute that has the kind `old` is stored a value of the kind `new`. `true` is the -1 that
-- reports a switch of kinds.
unfoldable pub switch_kind : AbstractValueKind → AbstractValueKind → AbstractValueKind × Bool
switch_kind avk_any new = (avk_any, false)
switch_kind avk_none new = (new, false)
switch_kind old new = (avk_any, true)

unfoldable pub capture_known :
    AbstractValueKind → Option AbstractValueKind → AbstractValueKind × Bool
unfolding switch_kind AbstractValueKind-discrete
capture_known new none = (new, false)
capture_known new (some old) =
    ite (AbstractValueKind-discrete old new) (old, false) (switch_kind old new)

unfoldable pub capture_in :
    AttributeTable
    → Option PyTypeObject
    → ℕ
    → AbstractValueKind
    → Option AttributeKinds
    → AttributeTable × Bool
unfolding capture_known PyTypeObject-discrete
capture_in table ty name kind none =
    (set_type table ty (update (λ n. none) name (some kind)), false)
capture_in table ty name kind (some kinds) =
    let (result, switched) = capture_known kind (kinds name) in
    (set_type table ty (update kinds name (some result)), switched)

-- `captureStoreAttr`
unfoldable pub capture_store_attr :
    AttributeTable → Option PyTypeObject → ℕ → AbstractValueKind → AttributeTable × Bool
unfolding capture_in
capture_store_attr table ty name kind = capture_in table ty name kind (table ty)

unfoldable pub kind_or_any : Option AbstractValueKind → AbstractValueKind
kind_or_any none = avk_any
kind_or_any (some k) = k

unfoldable pub get_in : Option AttributeKinds → ℕ → AbstractValueKind
unfolding kind_or_any
get_in none name = avk_any
get_in (some kinds) name = kind_or_any (kinds name)

-- `getAttr`
unfoldable pub get_attr : AttributeTable → Option PyTypeObject → ℕ → AbstractValueKind
unfolding get_in
get_attr table ty name = get_in (table ty) name
