-- ===== src/Links/Partition.antt =====
-- `combine` keeps the sets a partition of the sources, and joins just the two classes
-- (src/pyjion/absvalue.cpp).
use pyjion.Prelude.{
  ◌≡◌, refl, arith, ap, ℕ, ltb, ◌==◌, ==_iff, if◌then◌else◌, Bool, true, ◌||◌, ◌&&◌, not,
  Bool-cases, inl, inr, List, [], ◌∷◌, length,
}
use pyjion.Links.{
  SourceSets, fresh_sets, absorb_one, contains, insert, absorb, link_into, combine_pointers,
}

-- The set of a source holds just the sources that point to it.
abbrev pub IsPartition : SourceSets → Type 0
IsPartition h = (s t : ℕ) → contains (h.members (h.set_of s)) t ≡ (h.set_of t == h.set_of s)

-- Two sources are linked.
abbrev pub same : SourceSets → ℕ → ℕ → Bool
same h x y = h.set_of x == h.set_of y

contains-insert : (s t : ℕ) (xs : List ℕ) → contains (insert s xs) t ≡ (contains xs t || s == t)
unfolding insert contains
contains-insert s t xs = elim (Bool-cases (contains xs s)) [
  | inl c ↦ rw c (ground arith)
  | inr c ↦ rw c (ground arith)
]

set_of-absorb_one :
    (keep skip source : ℕ) (h : SourceSets) (x : ℕ)
    → (absorb_one keep skip source h).set_of x
      ≡ (if source == x && not (x == skip) then keep else h.set_of x)
unfolding absorb_one
set_of-absorb_one keep skip source h x = ground arith

contains-absorb_one :
    (keep skip source : ℕ) (h : SourceSets) (k x : ℕ)
    → contains ((absorb_one keep skip source h).members k) x
      ≡ (contains (h.members k) x || (k == keep && source == x))
unfolding absorb_one
contains-absorb_one keep skip source h k x =
    ground (arith, contains-insert source x (h.members keep))

set_of-absorb :
    (keep skip : ℕ) (sources : List ℕ) (h : SourceSets) (x : ℕ)
    → (absorb keep skip sources h).set_of x
      ≡ (if contains sources x && not (x == skip) then keep else h.set_of x)
unfolding absorb contains
set_of-absorb keep skip [] h x = refl
set_of-absorb keep skip (source ∷ sources) h x = ground (
  arith,
  set_of-absorb keep skip sources (absorb_one keep skip source h) x,
  set_of-absorb_one keep skip source h x,
)

contains-absorb :
    (keep skip : ℕ) (sources : List ℕ) (h : SourceSets) (k x : ℕ)
    → contains ((absorb keep skip sources h).members k) x
      ≡ (contains (h.members k) x || (k == keep && contains sources x))
unfolding absorb contains
contains-absorb keep skip [] h k x = ground arith
contains-absorb keep skip (source ∷ sources) h k x = ground (
  arith,
  contains-absorb keep skip sources (absorb_one keep skip source h) k x,
  contains-absorb_one keep skip source h k x,
)

-- Where the sets are a partition, linking moves the class of `lost` to the set of `kept`.
set_of-link_into :
    (kept lost : ℕ) (h : SourceSets)
    → IsPartition h
    → (x : ℕ)
    → (link_into kept lost h).set_of x ≡ (if same h x lost then h.set_of kept else h.set_of x)
unfolding link_into
set_of-link_into kept lost h p x =
    ground (arith, p lost x, set_of-absorb (h.set_of kept) lost (h.members (h.set_of lost)) h x)

contains-link_into :
    (kept lost : ℕ) (h : SourceSets)
    → IsPartition h
    → (k x : ℕ)
    → contains ((link_into kept lost h).members k) x
      ≡ (contains (h.members k) x || (k == h.set_of kept && same h x lost))
unfolding link_into
contains-link_into kept lost h p k x =
    ground (arith, p lost x, contains-absorb (h.set_of kept) lost (h.members (h.set_of lost)) h k x)

link_into-IsPartition :
    (kept lost : ℕ) (h : SourceSets) → IsPartition h → IsPartition (link_into kept lost h)
link_into-IsPartition kept lost h p s t = ground (
  arith,
  set_of-link_into kept lost h p s,
  set_of-link_into kept lost h p t,
  contains-link_into kept lost h p ((link_into kept lost h).set_of s) t,
  p kept t,
  p s t,
)

-- The classes of `a` and `b` are one, and the others are as they were.
abbrev pub joined : SourceSets → ℕ → ℕ → ℕ → ℕ → Bool
joined h a b x y = same h x y || (same h x a && same h y b || same h x b && same h y a)

same-link_into :
    (kept lost : ℕ) (h : SourceSets)
    → IsPartition h
    → (x y : ℕ) → same (link_into kept lost h) x y ≡ joined h kept lost x y
same-link_into kept lost h p x y =
    ground (arith, set_of-link_into kept lost h p x, set_of-link_into kept lost h p y)

pub fresh_sets-IsPartition : IsPartition fresh_sets
unfolding contains
fresh_sets-IsPartition s t = ground arith

-- What `combine` promises of two sources.
abbrev pub Combines : SourceSets → ℕ → ℕ → ℕ → SourceSets → Type 0
Combines h one two r h' =
    IsPartition h'
    × ((x y : ℕ) → same h' x y ≡ joined h one two x y)
    × (same h' r one ≡ true)
    × (same h' r two ≡ true)

link_into-Combines :
    (kept lost : ℕ) (h : SourceSets)
    → IsPartition h
    → Combines h kept lost kept (link_into kept lost h)
link_into-Combines kept lost h p = (
  link_into-IsPartition kept lost h p,
  same-link_into kept lost h p,
  ground arith,
  ground (arith, same-link_into kept lost h p kept lost),
)

Combines-swap :
    (one two r : ℕ) (h h' : SourceSets) → Combines h two one r h' → Combines h one two r h'
Combines-swap one two r h h' (p, j, a, b) = (p, (λ x y. ground (arith, j x y)), b, a)

Combines-same :
    (one two : ℕ) (h : SourceSets)
    → IsPartition h
    → h.set_of one ≡ h.set_of two
    → Combines h one two one h
Combines-same one two h p e = (p, (λ x y. ground arith), ground arith, ground arith)

-- Where the sets are a partition, combining two sources keeps them one, joins just the classes of the two, and gives
-- back a source that is linked to both.
pub combine_pointers-Combines :
    (one two : ℕ) (h : SourceSets)
    → IsPartition h
    → Combines h one two (combine_pointers one two h).0 (combine_pointers one two h).1
unfolding combine_pointers
combine_pointers-Combines one two h p = elim (Bool-cases (one == two)) [
  | inl e ↦ rw e (Combines-same one two h p (ap h.set_of ((==_iff one two).0 e)))
  | inr e ↦ elim (Bool-cases (h.set_of one == h.set_of two)) [
    | inl l ↦ rw (e, l) (Combines-same one two h p ((==_iff (h.set_of one) (h.set_of two)).0 l))
    | inr l ↦
        elim (Bool-cases
          (ltb (length (h.members (h.set_of two))) (length (h.members (h.set_of one))))) [
            | inl c ↦ rw (e, l, c) (link_into-Combines one two h p)
            | inr c ↦
                rw (e, l, c)
                  (Combines-swap one two two h (link_into two one h)
                    (link_into-Combines two one h p))
          ]
  ]
]

-- Whatever the sets hold, the source that `combine` gives back is linked to the first.
pub combine_pointers-same :
    (one two : ℕ) (h : SourceSets)
    → same (combine_pointers one two h).1 (combine_pointers one two h).0 one ≡ true
unfolding combine_pointers link_into
combine_pointers-same one two h = elim (Bool-cases (one == two)) [
  | inl e ↦ rw e (ground arith)
  | inr e ↦ elim (Bool-cases (h.set_of one == h.set_of two)) [
    | inl l ↦ rw (e, l) (ground arith)
    | inr l ↦
        elim (Bool-cases
          (ltb (length (h.members (h.set_of two))) (length (h.members (h.set_of one))))) [
            | inl c ↦ rw (e, l, c) (ground arith)
            | inr c ↦
                rw (e, l, c)
                  (ground
                    (arith, set_of-absorb (h.set_of two) one (h.members (h.set_of one)) h two))
          ]
  ]
]
