-- ===== src/IlGenerator/Labels.antt =====
-- `mark_label` (src/pyjion/ilgen.h) makes all the branches that wait for a label lead to it.
use pyjion.Prelude.{
  ◌≡◌, arith, ℕ, zero, suc, ◌+◌, ◌<◌, ◌≤◌, none, some, List, [], ◌∷◌, map, length, get_elem?, All,
}
use mathlib.Core.Option.{none-ne-some}
use pyjion.IlGenerator.{BranchType, CeeOpcodes, IlGenerator}
use pyjion.IlGenerator.Bytes.{BranchesTo}
use pyjion.IlGenerator.Patch.{Outside}

-- Long branches of these types stand at these positions, in this order and apart from each other,
-- the first not before `low`.
abbrev pub Pending : CeeOpcodes → List ℕ → ℕ → List (ℕ × BranchType) → Type 0
Pending o il low [] = Unit
Pending o il low ((from, t) ∷ waiting) =
    (low ≤ from)
    × (from + 5 ≤ length il)
    × (get_elem? il from ≡ some (o.long t))
    × Pending o il (from + 5) waiting

abbrev pub offsets_of : List (ℕ × BranchType) → List ℕ
offsets_of = map (λ w. w.0)

-- All waiting branches lead to the location, and nothing else is touched.
abbrev pub AllPatched : CeeOpcodes → ℕ → List (ℕ × BranchType) → List ℕ → List ℕ → Type 0
AllPatched o location waiting il il' =
    All (λ w. BranchesTo o il' w.0 w.1 location) waiting
    × (length il' ≡ length il)
    × ((j : ℕ) → All (λ w. Outside j w.0) waiting → get_elem? il' j ≡ get_elem? il j)

pub get_elem?-some {ℓ} :
    {A : Type ℓ} (xs : List A) (i : ℕ) {x : A} → get_elem? xs i ≡ some x → i < length xs
get_elem?-some [] i e = absurd (none-ne-some _ e)
get_elem?-some (x ∷ xs) zero e = omega arith
get_elem?-some (x ∷ xs) (suc i) e = omega (arith, get_elem?-some xs i e)

-- A label that waits for branches: they are noted in it, and stand in the code.
abbrev pub IsWaiting : CeeOpcodes → IlGenerator → ℕ → List (ℕ × BranchType) → Type 0
IsWaiting o g label waiting =
    (get_elem? g.labels label
      ≡ some (record { location = none; branch_offsets = offsets_of waiting }))
    × Pending o g.il 0 waiting
