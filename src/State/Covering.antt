-- ===== src/State/Covering.antt =====
-- Merging is sound: the state that `mergeStates` (src/pyjion/absint.cpp) leaves covers both the
-- state that was there and the one that came.
use pyjion.Prelude.{
  ◌≡◌, refl, arith, sym, ap, ==_iff, true, false, Bool-cases, ite-cases, inl, inr, some, List, [],
  ◌∷◌, ◌⊎◌, length, Pairwise, Pairwise-refl, suc,
}
use mathlib.Core.Path.{subst}
use pyjion.Kind.{AbstractValueKind-discrete, avk_any, avk_undefined}
use pyjion.Value.{Settings, AbstractValue, any_value, undefined_value, kind}
use pyjion.Binary.{merge_with, merge_by_kind}
use pyjion.Links.{SourceSets}
use pyjion.State.{
  ValueWithSources, LocalInfo, InterpreterState, Merged, AbstractValue-discrete, values_equal,
  locals_equal, same_set, merge_values, merge_local_infos, merge_slot, merge_slots,
  merge_value_slot, merge_local_slot, merge_stacks, merge_states,
}
use pyjion.State.Termination.{merged_state}

-- The value `b` claims nothing that `a` does not: it is of no known kind, of the kind of `a`, or
-- `a` is undefined.
abbrev pub IsBelow : Settings → AbstractValue → AbstractValue → Type 0
IsBelow s a b = (kind s b ≡ avk_any) ⊎ ((kind s a ≡ kind s b) ⊎ (kind s a ≡ avk_undefined))

merge_by_kind-IsBelow :
    (s : Settings) (a b : AbstractValue)
    → IsBelow s a (merge_by_kind s a b) × IsBelow s b (merge_by_kind s a b)
unfolding merge_by_kind kind
merge_by_kind-IsBelow s a b =
    elim (ite-cases (AbstractValueKind-discrete (kind s a) (kind s b)) a any_value) [
      | inl (e, r) ↦ rw r (inr (inl refl), inr (inl (sym e)))
      | inr (e, r) ↦ rw r (inl refl, inl refl)
    ]

merge_with-IsBelow :
    (s : Settings) (a b : AbstractValue)
    → IsBelow s a (merge_with s a b) × IsBelow s b (merge_with s a b)
unfolding merge_with kind
merge_with-IsBelow s undefined_value b = (inr (inr refl), inr (inl refl))
merge_with-IsBelow s a b = merge_by_kind-IsBelow s a b

abbrev pub IsCovered : Settings → ValueWithSources → ValueWithSources → Type 0
IsCovered s a b = IsBelow s a.value b.value

-- A local that may be undefined stays so.
abbrev pub LocalIsCovered : Settings → LocalInfo → LocalInfo → Type 0
LocalIsCovered s a b =
    IsCovered s a.value_info b.value_info
    × (a.is_maybe_undefined ≡ true → b.is_maybe_undefined ≡ true)

values_equal-value :
    (h : SourceSets) (a b : ValueWithSources) → values_equal h a b ≡ true → a.value ≡ b.value
unfolding values_equal
values_equal-value h a b e =
    elim (ite-cases (AbstractValue-discrete a.value b.value) (same_set h a.sources b.sources)
      false) [ inl (q, r) ↦ q | inr (q, r) ↦ absurd (ground (arith, e, r)) ]

-- What a slot holds after merging covers both sides of it.
abbrev pub Covers {ℓ} : {A : Type ℓ} → (A → A → Type 0) → A → A → Merged A → Type 0
Covers r old new m = r old m.result × r new m.result

merge_value_slot-Covers :
    (s : Settings) (a b : ValueWithSources) (h : SourceSets)
    → Covers (IsCovered s) a b (merge_value_slot s a b h)
unfolding merge_slot merge_values
merge_value_slot-Covers s a b h =
    let (m, h') = merge_values s a b h in
    elim (Bool-cases (values_equal h' m a)) [
      | inl e ↦ rw e (
        inr (inl refl),
        subst (λ v. IsBelow s b.value v) (values_equal-value h' m a e)
            (merge_with-IsBelow s a.value b.value).1,
      )
      | inr e ↦ rw e (merge_with-IsBelow s a.value b.value)
    ]

merge_local_slot-Covers :
    (s : Settings) (a b : LocalInfo) (h : SourceSets)
    → Covers (LocalIsCovered s) a b (merge_local_slot s a b h)
unfolding merge_slot merge_local_infos merge_values locals_equal
merge_local_slot-Covers s a b h =
    let (m, h') = merge_local_infos s a b h in
    let (low, high) = merge_with-IsBelow s a.value_info.value b.value_info.value in
    elim (Bool-cases (locals_equal h' m a)) [
      | inl e ↦
          let same_value = values_equal-value h' a.value_info m.value_info (ground (arith, e)) in
          rw e (
            (inr (inl refl), λ u. u),
            (
              subst (λ v. IsBelow s b.value_info.value v) (sym same_value) high,
              λ u. ground (arith, e, u),
            ),
          )
      | inr e ↦ rw e ((low, λ u. ground (arith, u)), (high, λ u. ground (arith, u)))
    ]

length-merge_slots {ℓ} :
    {A : Type ℓ} (step : A → A → SourceSets → Merged A) (olds news : List A) (h : SourceSets)
    → length (merge_slots step olds news h).result ≡ length olds
unfolding merge_slots
length-merge_slots step [] news h = refl
length-merge_slots step (old ∷ olds) [] h = refl
length-merge_slots step (old ∷ olds) (new ∷ news) h =
    ap suc (length-merge_slots step olds news (step old new h).sets)

-- The same for all the slots that both sides have.
merge_slots-Covers {ℓ} :
    {A : Type ℓ} (r : A → A → Type 0) (step : A → A → SourceSets → Merged A)
    → ((a : A) → r a a)
    → ((old new : A) (h : SourceSets) → Covers r old new (step old new h))
    → (olds news : List A) (h : SourceSets)
    → Pairwise r olds (merge_slots step olds news h).result
      × Pairwise r news (merge_slots step olds news h).result
unfolding merge_slots
merge_slots-Covers r step p q [] [] h = (tt, tt)
merge_slots-Covers r step p q [] (new ∷ news) h = (tt, tt)
merge_slots-Covers r step p q (old ∷ olds) [] h = ((p old, Pairwise-refl r olds p), tt)
merge_slots-Covers r step p q (old ∷ olds) (new ∷ news) h =
    let (c, d) = q old new h in
    let (cs, ds) = merge_slots-Covers r step p q olds news (step old new h).sets in
    ((c, cs), (d, ds))

merge_stacks-Covers :
    (s : Settings) (olds news : List ValueWithSources) (h : SourceSets)
    → Pairwise (IsCovered s) olds (merge_stacks s olds news h).result
      × Pairwise (IsCovered s) news (merge_stacks s olds news h).result
unfolding merge_stacks
merge_stacks-Covers s [] [] h = (tt, tt)
merge_stacks-Covers s [] (new ∷ news) h =
    (tt, Pairwise-refl (IsCovered s) (new ∷ news) (λ v. inr (inl refl)))
merge_stacks-Covers s (old ∷ olds) news h =
    merge_slots-Covers (IsCovered s) (merge_value_slot s) (λ v. inr (inl refl))
      (merge_value_slot-Covers s) (old ∷ olds) news h

-- A state covers another at every local and at every position that both stacks have.
abbrev pub StateIsCovered : Settings → InterpreterState → InterpreterState → Type 0
StateIsCovered s a b =
    Pairwise (LocalIsCovered s) a.locals b.locals × Pairwise (IsCovered s) a.stack b.stack

pub merge_states-Covers :
    (s : Settings) (a b : InterpreterState) (h : SourceSets)
    → length a.locals ≡ length b.locals
    → (m : Merged InterpreterState) × (merge_states s a b h ≡ some m)
      × (length m.result.locals ≡ length a.locals)
      × Covers (StateIsCovered s) a b m
unfolding merge_states
merge_states-Covers s a b h e =
    let locals = merge_slots (merge_local_slot s) a.locals b.locals h in
    let (low, high) =
      merge_slots-Covers (LocalIsCovered s) (merge_local_slot s) (λ v. (inr (inl refl), λ u. u))
        (merge_local_slot-Covers s) a.locals b.locals h in
    let (bottom, top) = merge_stacks-Covers s a.stack b.stack locals.sets in
    (
      merged_state a locals (merge_stacks s a.stack b.stack locals.sets),
      rw ((==_iff (length a.locals) (length b.locals)).1 e) refl,
      length-merge_slots (merge_local_slot s) a.locals b.locals h,
      ((low, bottom), (high, top)),
    )
