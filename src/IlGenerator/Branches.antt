-- ===== src/IlGenerator/Branches.antt =====
-- `branch` (src/pyjion/ilgen.h): to a label that was marked it emits a branch that leads there,
-- and to one that was not it adds a waiting branch.
use pyjion.Prelude.{
  ◌≡◌, refl, arith, ap, ◌∙◌, ℕ, zero, suc, ◌+◌, ◌<◌, ◌≤◌, none, some, List, [], ◌∷◌, ◌++◌, map,
  length, length-append, get_elem?, get_elem?-set_self,
}
use pyjion.IlGenerator.{
  BranchType, CeeOpcodes, IlGenerator, branch, branch_if_known, branch_to, branch_bytes, int_bytes,
  push_back,
}
use pyjion.IlGenerator.Bytes.{BranchesTo, branch_bytes-BranchesTo, get_elem?-append_head}
use pyjion.IlGenerator.Labels.{Pending, IsWaiting, offsets_of, get_elem?-some}

-- Branching to a label that was marked, at a location in the code, does not fail, and adds to the code a branch of the given
-- type that leads to the label's location. The code is shorter than 2^31 bytes.
pub branch-BranchesTo :
    (o : CeeOpcodes) (g : IlGenerator) (t : BranchType) (label l : ℕ) (offsets : List ℕ)
    → get_elem? g.labels label ≡ some (record { location = some l; branch_offsets = offsets })
    → l ≤ length g.il
    → length g.il + 5 < 2147483648
    → (g' : IlGenerator) × (branch o t label g ≡ some g') × BranchesTo o g'.il (length g.il) t l
unfolding branch branch_if_known branch_to push_back
branch-BranchesTo o g t label l offsets e h k =
    (branch_to o t label (some l) offsets g, rw e refl, branch_bytes-BranchesTo o g.il t l h k)

pub get_elem?-append_left {ℓ} :
    {A : Type ℓ} (xs ys : List A) (i : ℕ) → i < length xs → get_elem? (xs ++ ys) i ≡ get_elem? xs i
get_elem?-append_left [] ys i h = absurd (omega (arith, h))
get_elem?-append_left (x ∷ xs) ys zero h = refl
get_elem?-append_left (x ∷ xs) ys (suc i) h = get_elem?-append_left xs ys i (omega (arith, h))

Pending-grow :
    (o : CeeOpcodes) (il ys : List ℕ) (low : ℕ) (waiting : List (ℕ × BranchType))
    → Pending o il low waiting
    → Pending o (il ++ ys) low waiting
Pending-grow o il ys low [] p = tt
Pending-grow o il ys low ((from, t) ∷ waiting) (a, b, c, d) = (
  a,
  omega (arith, b, length-append il ys),
  get_elem?-append_left il ys from (omega (arith, b)) ∙ c,
  Pending-grow o il ys (from + 5) waiting d,
)

Pending-add :
    (o : CeeOpcodes) (il ys : List ℕ) (low : ℕ) (t : BranchType) (waiting : List (ℕ × BranchType))
    → low ≤ length il
    → 4 ≤ length ys
    → Pending o il low waiting
    → Pending o (il ++ o.long t ∷ ys) low (waiting ++ (length il, t) ∷ [])
Pending-add o il ys low t [] h k p = (
  h,
  omega (arith, length-append il (o.long t ∷ ys), k),
  get_elem?-append_head il (o.long t ∷ ys),
  tt,
)
Pending-add o il ys low t ((from, u) ∷ waiting) h k (a, b, c, d) = (
  a,
  omega (arith, b, length-append il (o.long t ∷ ys)),
  get_elem?-append_left il (o.long t ∷ ys) from (omega (arith, b)) ∙ c,
  Pending-add o il ys (from + 5) t waiting b k d,
)

map-append {ℓ κ} :
    {A : Type ℓ} {B : Type κ} (f : A → B) (xs ys : List A) → map f (xs ++ ys) ≡ map f xs ++ map f ys
map-append f [] ys = refl
map-append f (x ∷ xs) ys = ap (λ l. f x ∷ l) (map-append f xs ys)

-- Code that is emitted in between leaves the waiting branches as they are.
pub push_back-IsWaiting :
    (o : CeeOpcodes) (g : IlGenerator) (label : ℕ) (waiting : List (ℕ × BranchType))
    (bytes : List ℕ)
    → IsWaiting o g label waiting
    → IsWaiting o (push_back bytes g) label waiting
unfolding push_back
push_back-IsWaiting o g label waiting bytes (e, p) = (e, Pending-grow o g.il bytes 0 waiting p)

-- Branching to a label that was not marked does not fail, and adds a branch at the end of the
-- code to those that wait for the label.
pub branch-IsWaiting :
    (o : CeeOpcodes) (g : IlGenerator) (t : BranchType) (label : ℕ)
    (waiting : List (ℕ × BranchType))
    → IsWaiting o g label waiting
    → (g' : IlGenerator) × (branch o t label g ≡ some g')
      × IsWaiting o g' label (waiting ++ (length g.il, t) ∷ [])
unfolding branch branch_if_known branch_to push_back branch_bytes int_bytes
branch-IsWaiting o g t label waiting (e, p) = (
  branch_to o t label none (offsets_of waiting) g,
  rw e refl,
  (
    rw (map-append (λ w. w.0) waiting ((length g.il, t) ∷ []))
        (get_elem?-set_self g.labels label _ (get_elem?-some g.labels label e)),
    Pending-add o g.il _ 0 t waiting (omega arith) (omega arith) p,
  ),
)
