-- ===== src/State/Merging.antt =====
-- Merging goes up: what it leaves in a slot covers what was there and what came, and a change it
-- reports lowers a rank (`mergeStates`, src/pyjion/absint.cpp).
use pyjion.Prelude.{
  ◌≡◌, refl, arith, sym, ◌∙◌, ℕ, ◌+◌, ◌<◌, ◌≤◌, true, false, ite-cases, inl, inr, Option, none,
  some, if_pos, if_neg, ◌⊎◌,
}
use pyjion.Kind.{AbstractValueKind-discrete}
use pyjion.Value.{Settings, AbstractValue, any_value, undefined_value, kind}
use pyjion.Binary.{merge_with, merge_by_kind}
use pyjion.Links.{SourceSets, combine}
use pyjion.Links.Partition.{combine_pointers-same}
use pyjion.State.{ValueWithSources, values_equal, same_set, merge_values, AbstractValue-discrete}

-- How far a value can still rise: nothing is known to be undefined, then one value, then any.
unfoldable pub value_rank : AbstractValue → ℕ
value_rank undefined_value = 2
value_rank any_value = 0
value_rank _ = 1

merge_by_kind_cases :
    (s : Settings) (a b : AbstractValue)
    → (merge_by_kind s a b ≡ a) ⊎ (merge_by_kind s a b ≡ any_value)
unfolding merge_by_kind
merge_by_kind_cases s a b =
    elim (ite-cases (AbstractValueKind-discrete (kind s a) (kind s b)) a any_value) [
      | inl e ↦ inl e.1
      | inr e ↦ inr e.1
    ]

-- Merging leaves a value as it is or lowers its rank.
value_rank-merge_with :
    (s : Settings) (a b : AbstractValue)
    → (merge_with s a b ≡ a) ⊎ (value_rank (merge_with s a b) < value_rank a)
unfolding merge_with value_rank
value_rank-merge_with s undefined_value undefined_value = inl refl
value_rank-merge_with s undefined_value any_value = inr (ground arith)
value_rank-merge_with s undefined_value b = inr (ground arith)
value_rank-merge_with s any_value b = elim (merge_by_kind_cases s any_value b) [
  | inl e ↦ inl e
  | inr e ↦ inl e
]
value_rank-merge_with s a b = elim (merge_by_kind_cases s a b) [
  | inl e ↦ inl e
  | inr e ↦ inr (rw e (ground arith))
]

-- Sources count only for the step from none to one.
unfoldable pub source_rank : Option ℕ → ℕ
source_rank none = 1
source_rank (some a) = 0

source_rank-combine :
    (a b : Option ℕ) (h : SourceSets)
    → (same_set (combine a b h).1 (combine a b h).0 a ≡ true)
      ⊎ (source_rank (combine a b h).0 < source_rank a)
unfolding combine same_set source_rank
source_rank-combine none none h = inl refl
source_rank-combine none (some b) h = inr (ground arith)
source_rank-combine (some a) none h = inl (ground arith)
source_rank-combine (some a) (some b) h = inl (combine_pointers-same a b h)

source_rank-combine_le :
    (a b : Option ℕ) (h : SourceSets) → source_rank (combine a b h).0 ≤ source_rank a
unfolding combine source_rank
source_rank-combine_le none none h = ground arith
source_rank-combine_le none (some b) h = ground arith
source_rank-combine_le (some a) none h = ground arith
source_rank-combine_le (some a) (some b) h = ground arith

values_equal-same :
    (h : SourceSets) (a b : ValueWithSources)
    → a.value ≡ b.value
    → same_set h a.sources b.sources ≡ true
    → values_equal h a b ≡ true
unfolding values_equal
values_equal-same h a b e q =
    if_pos (AbstractValue-discrete a.value b.value) e (same_set h a.sources b.sources) false ∙ q

same_set_comm : (h : SourceSets) (a b : Option ℕ) → same_set h a b ≡ same_set h b a
unfolding same_set
same_set_comm h none none = refl
same_set_comm h none (some b) = refl
same_set_comm h (some a) none = refl
same_set_comm h (some a) (some b) = ground arith

pub values_equal_comm :
    (h : SourceSets) (a b : ValueWithSources) → values_equal h a b ≡ values_equal h b a
unfolding values_equal
values_equal_comm h a b =
    elim (ite-cases (AbstractValue-discrete a.value b.value) (same_set h a.sources b.sources)
      false) [
        | inl (e, l) ↦
            l
            ∙ same_set_comm h a.sources b.sources
            ∙ sym (
                if_pos (AbstractValue-discrete b.value a.value) (sym e)
                  (same_set h b.sources a.sources) false)
        | inr (n, l) ↦
            l
            ∙ sym (
                if_neg (AbstractValue-discrete b.value a.value) (λ e. n (sym e))
                  (same_set h b.sources a.sources) false)
      ]

abbrev pub value_info_rank : ValueWithSources → ℕ
value_info_rank a = value_rank a.value + source_rank a.sources

-- What `mergeWith` gives either equals the old value or has a lower rank.
pub rank-merge_values :
    (s : Settings) (a b : ValueWithSources) (h : SourceSets)
    → (values_equal (merge_values s a b h).1 (merge_values s a b h).0 a ≡ true)
      ⊎ (value_info_rank (merge_values s a b h).0 < value_info_rank a)
unfolding merge_values
rank-merge_values s a b h = elim (value_rank-merge_with s a.value b.value) [
  | inl e ↦ elim (source_rank-combine a.sources b.sources h) [
    | inl q ↦ inl (values_equal-same (merge_values s a b h).1 (merge_values s a b h).0 a e q)
    | inr q ↦ inr (rw e (ground (arith, q)))
  ]
  | inr e ↦ inr (ground (arith, e, source_rank-combine_le a.sources b.sources h))
]

pub rank-merge_values_le :
    (s : Settings) (a b : ValueWithSources) (h : SourceSets)
    → value_info_rank (merge_values s a b h).0 ≤ value_info_rank a
unfolding merge_values
rank-merge_values_le s a b h = elim (value_rank-merge_with s a.value b.value) [
  | inl e ↦ rw e (ground (arith, source_rank-combine_le a.sources b.sources h))
  | inr e ↦ ground (arith, e, source_rank-combine_le a.sources b.sources h)
]
