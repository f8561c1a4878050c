-- ===== src/Links.antt =====
-- The sets that link the sources of merged values (`AbstractSource::combine`,
-- src/pyjion/absvalue.cpp). A source is a number, in the order of allocation; `set_of` is its
-- pointer `Sources` to a shared set, and `members` holds the sets. A new source has a set of its
-- own, under its own number.
pub mod Partition
use pyjion.Prelude.{
  ℕ, ltb, ◌==◌, if◌then◌else◌, Bool, true, false, ◌||◌, Option, none, some, List, [], ◌∷◌, length,
}

pub record SourceSets : Type 0 where
  pub set_of : ℕ → ℕ
  pub members : ℕ → List ℕ

abbrev pub fresh_sets : SourceSets
fresh_sets = record { set_of = λ s. s; members = λ k. k ∷ [] }

unfoldable pub contains : List ℕ → ℕ → Bool
contains [] s = false
contains (x ∷ xs) s = x == s || contains xs s

-- `unordered_set::insert`
unfoldable pub insert : ℕ → List ℕ → List ℕ
unfolding contains
insert s xs = if contains xs s then xs else s ∷ xs

abbrev pub update {ℓ} : {A : Type ℓ} → (ℕ → A) → ℕ → A → ℕ → A
update f k v j = if k == j then v else f j

-- One source moves to the set `keep`; the source `skip` is left for later.
unfoldable pub absorb_one : ℕ → ℕ → ℕ → SourceSets → SourceSets
unfolding insert
absorb_one keep skip source h = record {
  members = update h.members keep (insert source (h.members keep));
  set_of = if source == skip then h.set_of else update h.set_of source keep;
}

-- The loop that moves the sources of one set to the set `keep`.
unfoldable pub absorb : ℕ → ℕ → List ℕ → SourceSets → SourceSets
unfolding absorb_one
absorb keep skip [] h = h
absorb keep skip (source ∷ sources) h = absorb keep skip sources (absorb_one keep skip source h)

-- The set of `lost` is moved to that of `kept`, and `lost` last.
unfoldable pub link_into : ℕ → ℕ → SourceSets → SourceSets
unfolding absorb
link_into kept lost h =
    let h' = absorb (h.set_of kept) lost (h.members (h.set_of lost)) h in
    record h' { set_of = update h'.set_of lost (h.set_of kept) }

unfoldable pub combine_pointers : ℕ → ℕ → SourceSets → ℕ × SourceSets
unfolding link_into
combine_pointers one two h =
    if one == two
    then (one, h)
    else if h.set_of one == h.set_of two
    then (one, h)
    else if ltb (length (h.members (h.set_of two))) (length (h.members (h.set_of one)))
    then (one, link_into one two h)
    else (two, link_into two one h)

-- `none` is the null pointer.
unfoldable pub combine : Option ℕ → Option ℕ → SourceSets → Option ℕ × SourceSets
unfolding combine_pointers
combine (some one) (some two) h = let (s, h') = combine_pointers one two h in (some s, h')
combine (some one) none h = (some one, h)
combine none (some two) h = (some two, h)
combine none none h = (none, h)
