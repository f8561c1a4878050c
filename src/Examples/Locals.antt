-- ===== src/Examples/Locals.antt =====
-- Locals of the emitted code, on a small table.
use pyjion.Prelude.{
  ◌≡◌, refl, arith, ◌==◌, ==_iff, Bool-cases, inl, inr, none, some, [], ◌∷◌, get_elem?,
}
use mathlib.Core.Path.{subst}
use pyjion.Links.{contains, update}
use pyjion.IlGenerator.Locals.{LocalTable, define_local, define_from, free_local, free_of_type}
use pyjion.IlGenerator.LocalReuse.{IsWellFormed, GivesOut, define_local-GivesOut}

-- Two locals of type 3, of which the first is free.
abbrev two_locals : LocalTable
two_locals = record { locals = 3 ∷ 3 ∷ []; freed = update (λ t. []) 3 (0 ∷ []); local_count = 2 }

reused : (define_local 3 two_locals).0 ≡ 0
unfolding define_local define_from
reused = refl

freed_twice : free_local 0 two_locals ≡ none
unfolding free_local free_of_type contains
freed_twice = refl

two_locals-IsWellFormed : IsWellFormed two_locals
unfolding contains
two_locals-IsWellFormed = (
  refl,
  (λ u i e. elim (Bool-cases (3 == u)) [
    | inl m ↦
        let first : 0 ≡ i = ground (arith, e, m) in
        subst (λ w. get_elem? two_locals.locals i ≡ some w) ((==_iff 3 u).0 m)
          (subst (λ j. get_elem? two_locals.locals j ≡ some 3) first refl)
    | inr m ↦ ground (arith, e, m)
  ]),
  (λ u. elim (Bool-cases (3 == u)) [ inl m ↦ rw m (refl, tt) | inr m ↦ rw m tt ]),
)

define_local-GivesOut_example :
    IsWellFormed (define_local 3 two_locals).1
    × GivesOut 3 two_locals (define_local 3 two_locals).0 (define_local 3 two_locals).1
define_local-GivesOut_example =
    define_local-GivesOut 3 two_locals (omega arith) two_locals-IsWellFormed
