-- ===== src/State/Order.antt =====
-- The order of merges: the kind of a value that was merged with several others by `mergeWith`
-- (src/pyjion/absvalue.cpp), one after the other.
use mathlib.Core.List.Permᴰ
use mathlib.Core.List.{Permᴰ}
use mathlib.Core.Path.{subst}
use pyjion.Prelude.{
  ◌≡◌, ◌≢◌, refl, sym, ap, ◌∙◌, ◌⊎◌, inl, inr, ite-cases, Option, none, some, List, [], ◌∷◌, All,
  map,
}
use mathlib.Core.Logic.{ite}
use pyjion.Kind.{AbstractValueKind, AbstractValueKind-discrete, avk_any, avk_undefined}
use pyjion.Value.{Settings, AbstractValue, any_value, undefined_value, kind}
use pyjion.Binary.{merge_with, merge_by_kind}

-- The value `a` merged with the values of a list, the first of them first.
unfoldable pub merge_all : Settings → AbstractValue → List AbstractValue → AbstractValue
merge_all s a [] = a
merge_all s a (x ∷ xs) = merge_all s (merge_with s a x) xs

-- The greatest of a flat order, in which only `top` is above others.
module _ {K : Type 0} (discrete : Discrete K) (top : K) where
  unfoldable join : K → K → K
  join k x = ite (discrete k x) k top

  join-cases : (k x : K) → ((k ≡ x) × (join k x ≡ k)) ⊎ ((k ≢ x) × (join k x ≡ top))
  unfolding join
  join-cases k x = ite-cases (discrete k x) k top

  top_join : (x : K) → join top x ≡ top
  top_join x = elim (join-cases top x) [ inl (e, r) ↦ r | inr (e, r) ↦ r ]

  join_same : (k x : K) → k ≡ x → join k x ≡ k
  join_same k x e = elim (join-cases k x) [ inl (f, r) ↦ r | inr (f, r) ↦ absurd (f e) ]

  join_other : (k x : K) → k ≢ x → join k x ≡ top
  join_other k x n = elim (join-cases k x) [ inl (f, r) ↦ absurd (n f) | inr (f, r) ↦ r ]

  join_comm : (x y : K) → join x y ≡ join y x
  join_comm x y = elim (join-cases x y) [
    | inl (e, p) ↦ p ∙ e ∙ sym (join_same y x (sym e))
    | inr (e, p) ↦ elim (join-cases y x) [
      | inl (f, q) ↦ absurd (e (sym f))
      | inr (f, q) ↦ p ∙ sym q
    ]
  ]

  join_right_comm : (k x y : K) → join (join k x) y ≡ join (join k y) x
  join_right_comm k x y =
      let over_x = top_join x in
      let over_y = top_join y in
      elim (join-cases k x) [
        | inl (e, p) ↦ elim (join-cases k y) [ inl (f, q) ↦ cc | inr (f, q) ↦ cc ]
        | inr (e, p) ↦ elim (join-cases k y) [ inl (f, q) ↦ cc | inr (f, q) ↦ cc ]
      ]

  -- What a value that may be the first takes from another.
  take : Option K → K → Option K
  take none x = some x
  take (some k) x = some (join k x)

  take_all : Option K → List K → Option K
  unfolding take
  take_all o [] = o
  take_all o (x ∷ xs) = take_all (take o x) xs

  take_right_comm : (o : Option K) (x y : K) → take (take o x) y ≡ take (take o y) x
  unfolding take
  take_right_comm none x y = ap some (join_comm x y)
  take_right_comm (some k) x y = ap some (join_right_comm k x y)

  take_all_order : (o : Option K) {xs ys : List K} → Permᴰ xs ys → take_all o xs ≡ take_all o ys
  unfolding take_all
  take_all_order o Permᴰ.nil = refl
  take_all_order o (Permᴰ.cons {a = x} {l₂ = ys} e p) =
      take_all_order (take o x) p ∙ ap (λ x. take_all (take o x) ys) e
  take_all_order o (Permᴰ.swap {a = x} {b = y} {a' = y'} {l = l} e f) =
      ap (λ o. take_all o l) (take_right_comm o x y)
      ∙ ap (λ y. take_all (take (take o y) x) l) f
      ∙ ap (λ x. take_all (take (take o y') x) l) e
  take_all_order o (Permᴰ.trans p q) = take_all_order o p ∙ take_all_order o q

All-order {ℓ} : {A : Type ℓ} (P : A → Type 0) {xs ys : List A} → Permᴰ xs ys → All P xs → All P ys
All-order P Permᴰ.nil h = tt
All-order P (Permᴰ.cons e p) h = (subst P e h.0, All-order P p h.1)
All-order P (Permᴰ.swap e f) h = (subst P f h.1.0, (subst P e h.0, h.1.1))
All-order P (Permᴰ.trans p q) h = All-order P q (All-order P p h)

-- `UndefinedValue` is the one class with a `mergeWith` of its own.
abbrev pub IsDefined : AbstractValue → Type 0
IsDefined v = v ≢ undefined_value

any_value-IsDefined : IsDefined any_value
any_value-IsDefined e = cc

module _ (s : Settings) where
  -- The undefined value has taken no kind yet.
  abbrev taken : AbstractValue → Option AbstractValueKind
  taken undefined_value = none
  taken v = some (kind s v)

  taken-IsDefined : (v : AbstractValue) → IsDefined v → taken v ≡ some (kind s v)
  taken-IsDefined undefined_value d = absurd (d refl)
  taken-IsDefined _ d = refl

  abbrev last_kind : Option AbstractValueKind → AbstractValueKind
  last_kind none = avk_undefined
  last_kind (some k) = k

  kind-taken : (v : AbstractValue) → kind s v ≡ last_kind (taken v)
  unfolding kind
  kind-taken undefined_value = refl
  kind-taken _ = refl

  abbrev joined : Option AbstractValueKind → AbstractValueKind → Option AbstractValueKind
  joined = take AbstractValueKind-discrete avk_any

  merge_with-IsDefined :
      (a x : AbstractValue) → IsDefined a → merge_with s a x ≡ merge_by_kind s a x
  unfolding merge_with
  merge_with-IsDefined undefined_value x d = absurd (d refl)
  merge_with-IsDefined _ x d = refl

  -- What a merge leaves is defined, and of the joined kind.
  Merges : AbstractValue → AbstractValueKind → AbstractValue → Type 0
  Merges a k v = IsDefined v × (taken v ≡ joined (taken a) k)

  merge_by_kind-Merges :
      (a x : AbstractValue) → IsDefined a → Merges a (kind s x) (merge_by_kind s a x)
  unfolding Merges merge_by_kind take
  merge_by_kind-Merges a x d =
      let k = kind s a in
      let l = kind s x in
      let first : joined (taken a) l ≡ some (join AbstractValueKind-discrete avk_any k l) =
        ap (λ o. joined o l) (taken-IsDefined a d) in
      elim (ite-cases (AbstractValueKind-discrete k l) a any_value) [
        | inl (e, r) ↦ (
          λ u. d (sym r ∙ u),
          ap taken r
              ∙ taken-IsDefined a d
              ∙ ap some (sym (join_same AbstractValueKind-discrete avk_any k l e))
              ∙ sym first,
        )
        | inr (e, r) ↦ (
          λ u. any_value-IsDefined (sym r ∙ u),
          ap taken r
              ∙ ap some (sym (join_other AbstractValueKind-discrete avk_any k l e))
              ∙ sym first,
        )
      ]

  merge_with-Merges :
      (a x : AbstractValue) → IsDefined a ⊎ IsDefined x → Merges a (kind s x) (merge_with s a x)
  unfolding Merges take merge_with
  merge_with-Merges undefined_value x (inl d) = absurd (d refl)
  merge_with-Merges undefined_value x (inr d) = (d, taken-IsDefined x d)
  merge_with-Merges a x d = merge_by_kind-Merges a x (λ u. cc)

  taken-merge_all :
      (a : AbstractValue) (xs : List AbstractValue)
      → IsDefined a ⊎ All IsDefined xs
      → taken (merge_all s a xs)
        ≡ take_all AbstractValueKind-discrete avk_any (taken a) (map (kind s) xs)
  unfolding merge_all take_all Merges
  taken-merge_all a [] d = refl
  taken-merge_all a (x ∷ xs) d =
      let (defined, e) = merge_with-Merges a x (elim d [ inl d ↦ inl d | inr h ↦ inr h.0 ]) in
      taken-merge_all (merge_with s a x) xs (inl defined)
      ∙ ap (λ o. take_all AbstractValueKind-discrete avk_any o (map (kind s) xs)) e

-- Values that are merged into one give it the same kind in any order, where that one is not
-- undefined or none of them is.
pub kind-merge_all :
    (s : Settings) (a : AbstractValue) (xs ys : List AbstractValue)
    → IsDefined a ⊎ All IsDefined xs
    → Permᴰ xs ys
    → kind s (merge_all s a xs) ≡ kind s (merge_all s a ys)
kind-merge_all s a xs ys d p =
    let d' : IsDefined a ⊎ All IsDefined ys = elim d [
      | inl d ↦ inl d
      | inr h ↦ inr (All-order IsDefined p h)
    ] in
    kind-taken s (merge_all s a xs)
    ∙ ap (last_kind s) (
        taken-merge_all s a xs d
        ∙ take_all_order AbstractValueKind-discrete avk_any (taken s a) (Permᴰ.map (kind s) p)
        ∙ sym (taken-merge_all s a ys d'))
    ∙ sym (kind-taken s (merge_all s a ys))
