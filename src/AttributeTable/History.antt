-- ===== src/AttributeTable/History.antt =====
-- What the attribute table (src/pyjion/attrtable.cpp) answers after a sequence of stores.
use pyjion.Prelude.{◌≡◌, ◌⊎◌, ℕ, Option, none, some, List, [], ◌∷◌}
use pyjion.Kind
use pyjion.Kind.{AbstractValueKind, avk_any, avk_none}
use pyjion.Value.{PyTypeObject}
use pyjion.AttributeTable.{AttributeKinds, AttributeTable, capture_store_attr}

-- What is kept of an attribute: nothing, or a kind.
abbrev lookup : Option AttributeKinds → ℕ → Option AbstractValueKind
lookup none name = none
lookup (some kinds) name = kinds name

-- The kind that is kept for an attribute is `avk_any`, or it is the one that was stored, or a
-- `None` was stored.
abbrev pub Explains : AbstractValueKind → AbstractValueKind → Type 0
Explains kept stored = (kept ≡ avk_any) ⊎ (kept ≡ stored) ⊎ (stored ≡ avk_none)

-- Stores to one attribute, in their order.
abbrev pub capture_all :
    AttributeTable → Option PyTypeObject → ℕ → List AbstractValueKind → AttributeTable
capture_all table ty name [] = table
capture_all table ty name (k ∷ ks) = capture_all (capture_store_attr table ty name k).0 ty name ks
