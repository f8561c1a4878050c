-- ===== src/IlGenerator/LocalReuse.antt =====
-- A local is given out again only after it was freed, and for its own type
-- (src/pyjion/ilgen.h).
use pyjion.Prelude.{
  ◌≡◌, refl, arith, sym, ◌∙◌, ℕ, ◌<◌, ◌==◌, ==_iff, if◌then◌else◌, true, false, Bool-cases, inl,
  inr, ◌⊎◌, some, List, [], ◌∷◌, get_elem?, length, length-append,
}
use mathlib.Core.Option.{some_inj}
use mathlib.Core.Path.{subst}
use pyjion.Links.{contains, update}
use pyjion.IlGenerator.Labels.{get_elem?-some}
use pyjion.IlGenerator.Bytes.{get_elem?-append_head}
use pyjion.IlGenerator.Branches.{get_elem?-append_left}
use pyjion.IlGenerator.Locals.{LocalTable, define_local_no_cache, define_from, define_local}

abbrev pub HasNoDuplicates : List ℕ → Type 0
HasNoDuplicates [] = Unit
HasNoDuplicates (x ∷ xs) = (contains xs x ≡ false) × HasNoDuplicates xs

-- The count is that of the locals, and a freed list holds locals of its type, each once.
abbrev pub IsWellFormed : LocalTable → Type 0
IsWellFormed g =
    (g.local_count ≡ length g.locals)
    × ((type local : ℕ)
        → contains (g.freed type) local ≡ true
        → get_elem? g.locals local ≡ some type)
    × ((type : ℕ) → HasNoDuplicates (g.freed type))

-- A list that is replaced by a part of it holds nothing new.
contains-update :
    (f : ℕ → List ℕ) (k : ℕ) (v : List ℕ) (u i : ℕ)
    → (contains v i ≡ true → contains (f k) i ≡ true)
    → contains (update f k v u) i ≡ true
    → contains (f u) i ≡ true
contains-update f k v u i sub e = elim (Bool-cases (k == u)) [
  | inl m ↦
      subst (λ w. contains (f w) i ≡ true) ((==_iff k u).0 m)
        (sub (subst (λ b. contains (if b then v else f u) i ≡ true) m e))
  | inr m ↦ subst (λ b. contains (if b then v else f u) i ≡ true) m e
]

-- A local that is free for one type is free for no other.
other_type-free :
    (g : LocalTable) (type u local : ℕ)
    → (type == u) ≡ false
    → ((w i : ℕ) → contains (g.freed w) i ≡ true → get_elem? g.locals i ≡ some w)
    → contains (g.freed type) local ≡ true
    → contains (g.freed u) local ≡ false
other_type-free g type u local m t h = elim (Bool-cases (contains (g.freed u) local)) [
  | inl e ↦
      absurd
        (ground (arith, m, (==_iff type u).1 (some_inj.0 (sym (t type local h) ∙ t u local e))))
  | inr e ↦ e
]

-- The local that is given out has the type asked for, was freed or is new, and is free no longer.
abbrev pub GivesOut : ℕ → LocalTable → ℕ → LocalTable → Type 0
GivesOut type g local g' =
    (get_elem? g'.locals local ≡ some type)
    × ((contains (g.freed type) local ≡ true) ⊎ (local ≡ length g.locals))
    × ((u : ℕ) → contains (g'.freed u) local ≡ false)

define_from-new :
    (type : ℕ) (g : LocalTable)
    → length g.locals < 65535
    → IsWellFormed g
    → IsWellFormed (define_local_no_cache type g).1
      × GivesOut type g (define_local_no_cache type g).0 (define_local_no_cache type g).1
unfolding define_local_no_cache
define_from-new type g h (c, t, d) = (
  (
    omega (arith, c, h, length-append g.locals (type ∷ [])),
    (λ u i e.
        get_elem?-append_left g.locals (type ∷ []) i (get_elem?-some g.locals i (t u i e))
        ∙ t u i e),
    d,
  ),
  (
    rw c (get_elem?-append_head g.locals (type ∷ [])),
    inr c,
    λ u. elim (Bool-cases (contains (g.freed u) g.local_count)) [
      | inl e ↦
          absurd (omega (arith, c, get_elem?-some g.locals g.local_count (t u g.local_count e)))
      | inr e ↦ e
    ],
  ),
)

define_from-freed :
    (type local : ℕ) (rest : List ℕ) (g : LocalTable)
    → g.freed type ≡ local ∷ rest
    → IsWellFormed g
    → IsWellFormed (define_from type (local ∷ rest) g).1
      × GivesOut type g local (define_from type (local ∷ rest) g).1
unfolding define_from contains
define_from-freed type local rest g q (c, t, d) = (
  (
    c,
    (λ u i e. t u i (contains-update g.freed type rest u i (λ e1. rw q (ground (arith, e1))) e)),
    (λ u. elim (Bool-cases (type == u)) [
      | inl m ↦ rw m (subst HasNoDuplicates q (d type)).1
      | inr m ↦ rw m (d u)
    ]),
  ),
  (
    t type local (rw q (ground arith)),
    inl (rw q (ground arith)),
    λ u. elim (Bool-cases (type == u)) [
      | inl m ↦ rw m (subst HasNoDuplicates q (d type)).0
      | inr m ↦ rw m (other_type-free g type u local m t (rw q (ground arith)))
    ],
  ),
)

define_from_cases :
    (type : ℕ) (free : List ℕ) (g : LocalTable)
    → g.freed type ≡ free
    → length g.locals < 65535
    → IsWellFormed g
    → IsWellFormed (define_from type free g).1
      × GivesOut type g (define_from type free g).0 (define_from type free g).1
unfolding define_from
define_from_cases type [] g q h w = define_from-new type g h w
define_from_cases type (local ∷ rest) g q h w = define_from-freed type local rest g q w

-- Defining a local in a well-formed table with fewer than 65535 locals keeps the table well-formed.
-- The local has the type asked for, was freed or is new, and is free no longer.
pub define_local-GivesOut :
    (type : ℕ) (g : LocalTable)
    → length g.locals < 65535
    → IsWellFormed g
    → IsWellFormed (define_local type g).1
      × GivesOut type g (define_local type g).0 (define_local type g).1
unfolding define_local
define_local-GivesOut type g h w = define_from_cases type (g.freed type) g refl h w
