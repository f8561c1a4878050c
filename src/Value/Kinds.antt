-- ===== src/Value/Kinds.antt =====
-- How kinds, abstract values and Python types correspond (src/pyjion/absvalue.cpp).
use pyjion.Prelude.{◌≡◌, ◌≢◌, refl}
use pyjion.Kind.{AbstractValueKind, avk_undefined}
use pyjion.Value.{Settings, kind, avk_to_abstract_value}

-- Making the abstract value of a kind and asking it for its kind gives the kind back, for every
-- kind but `avk_undefined`.
pub kind-avk_to_abstract_value :
    (s : Settings) (k : AbstractValueKind)
    → k ≢ avk_undefined
    → kind s (avk_to_abstract_value k) ≡ k
unfolding kind avk_to_abstract_value
kind-avk_to_abstract_value s avk_undefined h = absurd (h refl)
kind-avk_to_abstract_value s _ h = refl
