-- ===== src/IlGenerator/Patch.antt =====
-- The body of the loop of `mark_label` (src/pyjion/ilgen.h): one waiting branch is made to lead to
-- the location.
use pyjion.Prelude.{
  ◌≡◌, refl, arith, sym, ap, ◌∙◌, ℕ, ◌+◌, ◌%◌, ◌/◌, ◌<◌, ◌≤◌, ◌==◌, ==_iff, if◌then◌else◌, ◌&&◌,
  Bool-cases, inl, inr, ◌⊎◌, some, List, [], ◌∷◌, length, get_elem?, set, length-set,
  get_elem?-set_self, get_elem?-set_ne,
}
use pyjion.Prelude.Int.{pos, negsuc, ◌-ℤ◌, ltb_ℤ}
use pyjion.IlGenerator.{
  BranchType, CeeOpcodes, all_branches, find_short, short_branch_equivalent, low_byte, low_word,
  write_four, write_short, short_code, write_long, patch, branch_always, branch_true, branch_false,
  branch_equal, branch_not_equal, branch_leave, branch_less_than_equal,
  branch_less_than_equal_unsigned, branch_greater_than, branch_greater_than_unsigned,
  branch_greater_than_equal, branch_greater_than_equal_unsigned, branch_less_than,
  branch_less_than_unsigned,
}
use pyjion.IlGenerator.Bytes.{BranchesTo, low_byte-ByteLeadsTo, low_word-WordLeadsTo}

-- No two branches have the same long opcode.
abbrev pub HasDistinctOpcodes : CeeOpcodes → Type 0
HasDistinctOpcodes o = (t u : BranchType) → o.long t ≡ o.long u → t ≡ u

abbrev Among : BranchType → List BranchType → Type 0
Among t [] = ⊥
Among t (u ∷ us) = (u ≡ t) ⊎ Among t us

among_all : (t : BranchType) → Among t all_branches
among_all branch_always = inl refl
among_all branch_true = inr (inl refl)
among_all branch_false = inr (inr (inl refl))
among_all branch_equal = inr (inr (inr (inl refl)))
among_all branch_not_equal = inr (inr (inr (inr (inl refl))))
among_all branch_leave = inr (inr (inr (inr (inr (inl refl)))))
among_all branch_less_than_equal = inr (inr (inr (inr (inr (inr (inl refl))))))
among_all branch_less_than_equal_unsigned = inr (inr (inr (inr (inr (inr (inr (inl refl)))))))
among_all branch_greater_than = inr (inr (inr (inr (inr (inr (inr (inr (inl refl))))))))
among_all branch_greater_than_unsigned =
    inr (inr (inr (inr (inr (inr (inr (inr (inr (inl refl)))))))))
among_all branch_greater_than_equal =
    inr (inr (inr (inr (inr (inr (inr (inr (inr (inr (inl refl))))))))))
among_all branch_greater_than_equal_unsigned =
    inr (inr (inr (inr (inr (inr (inr (inr (inr (inr (inr (inl refl)))))))))))
among_all branch_less_than =
    inr (inr (inr (inr (inr (inr (inr (inr (inr (inr (inr (inr (inl refl))))))))))))
among_all branch_less_than_unsigned =
    inr (inr (inr (inr (inr (inr (inr (inr (inr (inr (inr (inr (inr (inl refl)))))))))))))

find_short_lem :
    (o : CeeOpcodes)
    → HasDistinctOpcodes o
    → (t : BranchType) (ts : List BranchType) → Among t ts
    → find_short o ts (o.long t) ≡ some (o.short t)
unfolding find_short
find_short_lem o inj t [] a = elim a [ ]
find_short_lem o inj t (u ∷ ts) a = elim (Bool-cases (o.long u == o.long t)) [
  | inl e ↦ rw e (ap (λ v. some (o.short v)) (inj u t ((==_iff (o.long u) (o.long t)).0 e)))
  | inr e ↦ elim a [
    | inl p ↦ absurd (ground (arith, e, ap o.long p))
    | inr b ↦ rw e (find_short_lem o inj t ts b)
  ]
]

short_branch_equivalent-long :
    (o : CeeOpcodes)
    → HasDistinctOpcodes o
    → (t : BranchType) → short_branch_equivalent o (o.long t) ≡ some (o.short t)
unfolding short_branch_equivalent
short_branch_equivalent-long o inj t = find_short_lem o inj t all_branches (among_all t)

-- A position outside the five bytes of the branch at `from`.
abbrev pub Outside : ℕ → ℕ → Type 0
Outside j from = (j < from) ⊎ (from + 5 ≤ j)

length-write_four :
    (from a b c d : ℕ) (il : List ℕ) → length (write_four from a b c d il) ≡ length il
unfolding write_four
length-write_four from a b c d il = simp length-set

get_elem?-set :
    (il : List ℕ) (i v j : ℕ)
    → i < length il
    → get_elem? (set il i v) j ≡ (if i == j then some v else get_elem? il j)
get_elem?-set il i v j h = elim (Bool-cases (i == j)) [
  | inl e ↦ let p = (==_iff i j).0 e in rw (e, sym p) (get_elem?-set_self il i v h)
  | inr e ↦ rw e (get_elem?-set_ne il v (λ p. absurd (ground (arith, e, p))))
]

get_elem?-write_four :
    (from a b c d : ℕ) (il : List ℕ) (j : ℕ)
    → from + 5 ≤ length il
    → get_elem? (write_four from a b c d il) j ≡ (
        if from + 4 == j
        then some d
        else if from + 3 == j
        then some c
        else if from + 2 == j
        then some b
        else if from + 1 == j
        then some a
        else get_elem? il j)
unfolding write_four
get_elem?-write_four from a b c d il j h =
    let il1 = set il (from + 1) a in
    let il2 = set il1 (from + 2) b in
    let il3 = set il2 (from + 3) c in
    rw
      (
        get_elem?-set il3 (from + 4) d j (
            omega (
              arith,
              length-set il (from + 1) a,
              length-set il1 (from + 2) b,
              length-set il2 (from + 3) c,
            )),
        get_elem?-set il2 (from + 3) c j
            (omega (arith, length-set il (from + 1) a, length-set il1 (from + 2) b)),
        get_elem?-set il1 (from + 2) b j (omega (arith, length-set il (from + 1) a)),
        get_elem?-set il (from + 1) a j (omega arith),
      )
      refl

-- What a patch promises: the branch leads to the location, and nothing else is touched.
abbrev pub Patches : CeeOpcodes → ℕ → ℕ → BranchType → List ℕ → List ℕ → Type 0
Patches o location from t il il' =
    BranchesTo o il' from t location
    × (length il' ≡ length il)
    × ((j : ℕ) → Outside j from → get_elem? il' j ≡ get_elem? il j)

write_short-Patches :
    (o : CeeOpcodes) (location from : ℕ) (t : BranchType) (il : List ℕ)
    → from + 5 ≤ length il
    → from + 2 < location + 129
    → location < from + 2 + 128
    → Patches o location from t il (
        write_four from
          (low_byte (pos location -ℤ pos (from + 2)))
          o.nop
          o.nop
          o.nop
          (set il from (o.short t)))
write_short-Patches o location from t il h k m =
    let byte = low_byte (pos location -ℤ pos (from + 2)) in
    let il1 = set il from (o.short t) in
    let within : from + 5 ≤ length il1 = rw (length-set il from (o.short t)) h in
    (
      inl (
        byte,
        ground (
          arith,
          get_elem?-write_four from byte o.nop o.nop o.nop il1 from within,
          get_elem?-set il from (o.short t) from (omega arith),
        ),
        ground (arith, get_elem?-write_four from byte o.nop o.nop o.nop il1 (from + 1) within),
        low_byte-ByteLeadsTo location (from + 2) k m,
      ),
      length-write_four from byte o.nop o.nop o.nop il1 ∙ length-set il from (o.short t),
      λ j out. ground (
        arith,
        out,
        get_elem?-write_four from byte o.nop o.nop o.nop il1 j within,
        get_elem?-set il from (o.short t) j (omega arith),
      ),
    )

write_long-Patches :
    (o : CeeOpcodes) (location from : ℕ) (t : BranchType) (il : List ℕ)
    → get_elem? il from ≡ some (o.long t)
    → from + 5 ≤ length il
    → location < 2147483648
    → from + 5 < 2147483648
    → Patches o location from t il (write_long from (pos location -ℤ pos (from + 5)) il)
unfolding write_long
write_long-Patches o location from t il e h k m =
    let w = low_word (pos location -ℤ pos (from + 5)) in
    let read = λ (j : ℕ).
      get_elem?-write_four from (w % 256) (w / 256 % 256) (w / 65536 % 256) (w / 16777216 % 256) il
        j h in
    (
      inr (
        _,
        _,
        _,
        _,
        ground (arith, e, read from),
        ground (arith, read (from + 1)),
        ground (arith, read (from + 2)),
        ground (arith, read (from + 3)),
        ground (arith, read (from + 4)),
        low_word-WordLeadsTo location (from + 5) k m,
      ),
      length-write_four from (w % 256) (w / 256 % 256) (w / 65536 % 256) (w / 16777216 % 256) il,
      λ j out. ground (arith, out, read j),
    )

-- A waiting long branch before the location is patched, in its short or its long form.
pub patch-Patches :
    (o : CeeOpcodes)
    → HasDistinctOpcodes o
    → (location from : ℕ) (t : BranchType) (il : List ℕ) → get_elem? il from ≡ some (o.long t)
    → from + 5 ≤ location
    → location ≤ length il
    → length il < 2147483648
    → (il' : List ℕ) × (patch o location from il ≡ some il') × Patches o location from t il il'
unfolding patch write_short short_code ◌-ℤ◌
patch-Patches o inj location from t il e h k m =
    let short_i = pos location -ℤ pos (from + 2) in
    elim (Bool-cases (ltb_ℤ (negsuc 127) short_i && ltb_ℤ short_i (pos 128))) [
      | inl c ↦ (
        write_four from (low_byte short_i) o.nop o.nop o.nop (set il from (o.short t)),
        rw (c, e, short_branch_equivalent-long o inj t) refl,
        write_short-Patches o location from t il (omega arith) (omega arith) (ground (arith, c)),
      )
      | inr c ↦ (
        write_long from (pos location -ℤ pos (from + 5)) il,
        rw c refl,
        write_long-Patches o location from t il e (omega arith) (omega arith) (omega arith),
      )
    ]
