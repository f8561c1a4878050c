-- ===== src/State/Termination.antt =====
-- Why the analysis comes to an end: a change that `mergeStates` (src/pyjion/absint.cpp) reports
-- lowers a measure of the state that was merged into.
use pyjion.Prelude.{
  ◌≡◌, refl, arith, ap, ap₂, ℕ, ◌+◌, ◌<◌, ◌≤◌, if◌then◌else◌, Bool, true, false, ◌||◌, Bool-cases,
  inl, inr, some, List, [], ◌∷◌, ◌⊎◌, length, ==_iff,
}
use pyjion.Value.{Settings}
use pyjion.Links.{SourceSets}
use pyjion.State.{
  ValueWithSources, LocalInfo, InterpreterState, Merged, values_equal, locals_equal, merge_values,
  merge_local_infos, merge_slot, merge_slots, merge_value_slot, merge_local_slot, merge_stacks,
  merge_states,
}
use pyjion.State.Merging.{
  value_info_rank, rank-merge_values, rank-merge_values_le, values_equal_comm,
}

abbrev pub local_rank : LocalInfo → ℕ
local_rank a = value_info_rank a.value_info + (if a.is_maybe_undefined then 0 else 1)

rank-merge_local_infos :
    (s : Settings) (a b : LocalInfo) (h : SourceSets)
    → (locals_equal (merge_local_infos s a b h).1 (merge_local_infos s a b h).0 a ≡ true)
      ⊎ (local_rank (merge_local_infos s a b h).0 < local_rank a)
unfolding merge_local_infos locals_equal
rank-merge_local_infos s a b h =
    let (merged, h') = merge_values s a.value_info b.value_info h in
    elim (rank-merge_values s a.value_info b.value_info h) [
      | inl e ↦ elim (Bool-cases a.is_maybe_undefined) [
        | inl m ↦ inl (ground (arith, e, m, values_equal_comm h' a.value_info merged))
        | inr m ↦ elim (Bool-cases b.is_maybe_undefined) [
          | inl n ↦ inr (ground (arith, m, n, rank-merge_values_le s a.value_info b.value_info h))
          | inr n ↦ inl (ground (arith, e, m, n, values_equal_comm h' a.value_info merged))
        ]
      ]
      | inr e ↦ inr (ground (arith, e))
    ]

-- Nothing is reported and nothing changed, or a change is reported and the rank is lower.
abbrev pub Falls {ℓ} : {A : Type ℓ} → (A → ℕ) → A → Merged A → Type ℓ
Falls rank old m =
    ((m.changed ≡ false) × (m.result ≡ old)) ⊎ ((m.changed ≡ true) × (rank m.result < rank old))

merge_slot-Falls {ℓ} :
    {A : Type ℓ} (rank : A → ℕ) (merge : A → A → SourceSets → A × SourceSets)
    (equal : SourceSets → A → A → Bool) (old new : A) (h : SourceSets)
    → (equal (merge old new h).1 (merge old new h).0 old ≡ true)
      ⊎ (rank (merge old new h).0 < rank old)
    → Falls rank old (merge_slot merge equal old new h)
unfolding merge_slot
merge_slot-Falls rank merge equal old new h p =
    elim (Bool-cases (equal (merge old new h).1 (merge old new h).0 old)) [
      | inl e ↦ rw e (inl (refl, refl))
      | inr e ↦ rw e (elim p [ inl q ↦ absurd (ground (arith, e, q)) | inr q ↦ inr (refl, q) ])
    ]

unfoldable pub total {ℓ} : {A : Type ℓ} → (A → ℕ) → List A → ℕ
total rank [] = 0
total rank (x ∷ xs) = rank x + total rank xs

merge_slots-Falls {ℓ} :
    {A : Type ℓ} (rank : A → ℕ) (step : A → A → SourceSets → Merged A)
    → ((old new : A) (h : SourceSets) → Falls rank old (step old new h))
    → (olds news : List A) (h : SourceSets) → Falls (total rank) olds (merge_slots step olds news h)
unfolding merge_slots total
merge_slots-Falls rank step p [] news h = inl (refl, refl)
merge_slots-Falls rank step p (old ∷ olds) [] h = inl (refl, refl)
merge_slots-Falls rank step p (old ∷ olds) (new ∷ news) h =
    let first = step old new h in
    elim (p old new h) [
      | inl (c, r) ↦ elim (merge_slots-Falls rank step p olds news first.sets) [
        | inl (c', r') ↦ inl (ground (arith, c, c'), ap₂ ◌∷◌ r r')
        | inr (c', l) ↦ inr (ground (arith, c, c'), rw r (ground (arith, l)))
      ]
      | inr (c, l) ↦ elim (merge_slots-Falls rank step p olds news first.sets) [
        | inl (c', r') ↦ inr (ground (arith, c, c'), rw r' (ground (arith, l)))
        | inr (c', l') ↦ inr (ground (arith, c, c'), (ground (arith, l, l')))
      ]
    ]

-- Whether a stack is empty, as a number.
unfoldable pub emptiness {ℓ} : {A : Type ℓ} → List A → ℕ
emptiness [] = 1
emptiness (x ∷ xs) = 0

pub emptiness_le {ℓ} : {A : Type ℓ} (xs : List A) → emptiness xs ≤ 1
unfolding emptiness
emptiness_le [] = ground arith
emptiness_le (x ∷ xs) = ground arith

-- The measure of a state: whether its stack is empty comes first.
abbrev pub state_rank : InterpreterState → ℕ
state_rank a = total local_rank a.locals + total value_info_rank a.stack

abbrev pub Below : InterpreterState → InterpreterState → Type 0
Below a b =
    (emptiness a.stack < emptiness b.stack)
    ⊎ ((emptiness a.stack ≡ emptiness b.stack) × (state_rank a < state_rank b))

-- What becomes of a stack: it stays, it is filled, or its values fall.
abbrev pub StackFalls : List ValueWithSources → Merged (List ValueWithSources) → Type 0
StackFalls old m =
    ((m.changed ≡ false) × (m.result ≡ old))
    ⊎ ((m.changed ≡ true)
        × ((emptiness m.result < emptiness old)
            ⊎ ((emptiness m.result ≡ emptiness old)
                × (total value_info_rank m.result < total value_info_rank old))))

merge_stacks-StackFalls :
    (s : Settings) (olds news : List ValueWithSources) (h : SourceSets)
    → StackFalls olds (merge_stacks s olds news h)
unfolding merge_stacks emptiness
merge_stacks-StackFalls s [] [] h = inl (refl, refl)
merge_stacks-StackFalls s [] (new ∷ news) h = inr (refl, inl (ground arith))
merge_stacks-StackFalls s (old ∷ olds) [] h = inl (refl, refl)
merge_stacks-StackFalls s (old ∷ olds) (new ∷ news) h =
    elim (merge_slots-Falls value_info_rank (merge_value_slot s)
      (λ a b k.
        merge_slot-Falls value_info_rank (merge_values s) values_equal a b k
          (rank-merge_values s a b k))
      (old ∷ olds) (new ∷ news) h) [ inl u ↦ inl u | inr (c, l) ↦ inr (c, inr (refl, l)) ]

-- What merging does to a state: nothing, with no change reported, or a change is reported and the
-- state is lower.
abbrev pub Settles : InterpreterState → Merged InterpreterState → Type 0
Settles a m = ((m.changed ≡ false) × (m.result ≡ a)) ⊎ ((m.changed ≡ true) × Below m.result a)

abbrev pub merged_state :
    InterpreterState
    → Merged (List LocalInfo)
    → Merged (List ValueWithSources)
    → Merged InterpreterState
merged_state a locals stack = record {
  result = record a { locals = locals.result; stack = stack.result };
  changed = locals.changed || stack.changed;
  sets = stack.sets;
}

merged_state-Settles :
    (a : InterpreterState) (locals : Merged (List LocalInfo))
    (stack : Merged (List ValueWithSources))
    → Falls (total local_rank) a.locals locals
    → StackFalls a.stack stack
    → Settles a (merged_state a locals stack)
merged_state-Settles a locals stack (inl (c, r)) (inl (d, q)) =
    inl (ground (arith, c, d), ap₂ (λ l k. record a { locals = l; stack = k }) r q)
merged_state-Settles a locals stack (inl (c, r)) (inr (d, inl f)) = inr (ground (arith, d), inl f)
merged_state-Settles a locals stack (inl (c, r)) (inr (d, inr (f, g))) =
    inr (ground (arith, d), inr (f, ground (arith, g, ap (total local_rank) r)))
merged_state-Settles a locals stack (inr (c, l)) (inl (d, q)) =
    inr (ground (arith, c), inr (ap emptiness q, ground (arith, l, ap (total value_info_rank) q)))
merged_state-Settles a locals stack (inr (c, l)) (inr (d, inl f)) = inr (ground (arith, c), inl f)
merged_state-Settles a locals stack (inr (c, l)) (inr (d, inr (f, g))) =
    inr (ground (arith, c), inr (f, ground (arith, l, g)))

-- Merging two states with the same number of locals does not fail. It either reports no change
-- and leaves the first state as it was, or reports a change and leaves a state that is lower.
pub merge_states-Settles :
    (s : Settings) (a b : InterpreterState) (h : SourceSets)
    → length a.locals ≡ length b.locals
    → (m : Merged InterpreterState) × (merge_states s a b h ≡ some m) × Settles a m
unfolding merge_states
merge_states-Settles s a b h e =
    let locals = merge_slots (merge_local_slot s) a.locals b.locals h in
    let stack = merge_stacks s a.stack b.stack locals.sets in
    (
      merged_state a locals stack,
      rw ((==_iff (length a.locals) (length b.locals)).1 e) refl,
      merged_state-Settles a locals stack
          (merge_slots-Falls local_rank (merge_local_slot s)
            (λ x y k.
              merge_slot-Falls local_rank (merge_local_infos s) locals_equal x y k
                (rank-merge_local_infos s x y k))
            a.locals b.locals h)
          (merge_stacks-StackFalls s a.stack b.stack locals.sets),
    )
