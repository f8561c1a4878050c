-- ===== src/IlGenerator/Bytes.antt =====
-- The bytes of a branch as the runtime reads them, and what the emitter
-- (src/pyjion/ilgen.h) writes.
use pyjion.Prelude.{
  ◌≡◌, refl, arith, ap, ◌∙◌, ℕ, suc, ◌+◌, ◌-◌, ◌*◌, ◌/◌, ◌%◌, ◌<◌, ◌≤◌, ◌&&◌, Bool-cases, inl, inr,
  ◌⊎◌, some, List, [], ◌∷◌, ◌++◌, length, get_elem?, leb,
}
use pyjion.Prelude.Int.{pos, negsuc, ◌-ℤ◌, leb_ℤ}
use pyjion.IlGenerator.{BranchType, CeeOpcodes, low_byte, low_word, int_bytes, branch_bytes}

-- The signed byte `b` after an instruction that ends at `end` leads to `target`.
abbrev pub ByteLeadsTo : ℕ → ℕ → ℕ → Type 0
ByteLeadsTo end b target =
    ((b < 128) × (end + b ≡ target)) ⊎ ((128 ≤ b) × (b < 256) × (end + b ≡ target + 256))

-- The four bytes of a signed word, from the lowest on.
abbrev pub WordLeadsTo : ℕ → ℕ → ℕ → ℕ → ℕ → ℕ → Type 0
WordLeadsTo end a b c d target =
    let w = a + 256 * b + 65536 * c + 16777216 * d in
    ((w < 2147483648) × (end + w ≡ target))
    ⊎ ((2147483648 ≤ w) × (w < 4294967296) × (end + w ≡ target + 4294967296))

-- At `from` stands a branch of type `t` that leads to `target`.
abbrev pub BranchesTo : CeeOpcodes → List ℕ → ℕ → BranchType → ℕ → Type 0
BranchesTo o il from t target =
    ((b : ℕ) × (get_elem? il from ≡ some (o.short t))
      × (get_elem? il (from + 1) ≡ some b)
      × ByteLeadsTo (from + 2) b target)
    ⊎ ((a b c d : ℕ) × (get_elem? il from ≡ some (o.long t))
        × (get_elem? il (from + 1) ≡ some a)
        × (get_elem? il (from + 2) ≡ some b)
        × (get_elem? il (from + 3) ≡ some c)
        × (get_elem? il (from + 4) ≡ some d)
        × WordLeadsTo (from + 5) a b c d target)

word_bytes :
    (w : ℕ)
    → w < 4294967296
    → w % 256 + 256 * (w / 256 % 256) + 65536 * (w / 65536 % 256) + 16777216 * (w / 16777216 % 256)
      ≡ w
word_bytes w h = omega arith

suc_add : (n i : ℕ) → suc n + i ≡ suc (n + i)
suc_add n i = omega arith

pub get_elem?-append {ℓ} :
    {A : Type ℓ} (xs ys : List A) (i : ℕ) → get_elem? (xs ++ ys) (length xs + i) ≡ get_elem? ys i
get_elem?-append [] ys i = ap (get_elem? ys) (omega arith)
get_elem?-append (x ∷ xs) ys i =
    ap (get_elem? (x ∷ xs ++ ys)) (suc_add (length xs) i) ∙ get_elem?-append xs ys i

pub get_elem?-append_head {ℓ} :
    {A : Type ℓ} (xs ys : List A) → get_elem? (xs ++ ys) (length xs) ≡ get_elem? ys 0
get_elem?-append_head [] ys = refl
get_elem?-append_head (x ∷ xs) ys = get_elem?-append_head xs ys

-- The integer l - n, whichever is greater.
sub-cases :
    (l n : ℕ)
    → ((n ≤ l) × ((pos l -ℤ pos n) ≡ pos (l - n)))
      ⊎ ((l < n) × ((pos l -ℤ pos n) ≡ negsuc (n - l - 1)))
unfolding ◌-ℤ◌
sub-cases l n = elim (Bool-cases (leb (n + 0) (l + 0))) [
  | inl e ↦ inl (ground (arith, e), ground (arith, e))
  | inr e ↦ inr (ground (arith, e), ground (arith, e))
]

pub low_byte-ByteLeadsTo :
    (l n : ℕ) → n < l + 129 → l < n + 128 → ByteLeadsTo n (low_byte (pos l -ℤ pos n)) l
unfolding low_byte
low_byte-ByteLeadsTo l n h k = elim (sub-cases l n) [
  | inl (c, e) ↦ rw e (inl (omega arith, omega arith))
  | inr (c, e) ↦ rw e (inr (omega arith, omega arith, omega arith))
]

pub low_word-WordLeadsTo :
    (l n : ℕ)
    → l < 2147483648
    → n < 2147483648
    → let w = low_word (pos l -ℤ pos n) in
      WordLeadsTo n (w % 256) (w / 256 % 256) (w / 65536 % 256) (w / 16777216 % 256) l
unfolding low_word
low_word-WordLeadsTo l n h k = elim (sub-cases l n) [
  | inl (c, e) ↦ rw e (inl (omega arith, omega arith))
  | inr (c, e) ↦ rw e (inr (omega arith, omega arith, omega arith))
]

sub_ℤ_assoc : (l n k : ℕ) → ((pos l -ℤ pos n) -ℤ pos k) ≡ (pos l -ℤ pos (n + k))
unfolding ◌-ℤ◌
sub_ℤ_assoc l n k = ground arith

-- The test of `branch` on an offset back.
short_test :
    (l n : ℕ)
    → (leb_ℤ ((pos l -ℤ pos n) -ℤ pos 2) (pos 128)
        && leb_ℤ (negsuc 126) ((pos l -ℤ pos n) -ℤ pos 2))
      ≡ (leb l (n + 130) && leb (n + 2) (l + 127))
unfolding ◌-ℤ◌
short_test l n = ground arith

-- A branch back, from the end of the code to a location in it, leads there.
pub branch_bytes-BranchesTo :
    (o : CeeOpcodes) (il : List ℕ) (t : BranchType) (l : ℕ)
    → l ≤ length il
    → length il + 5 < 2147483648
    → BranchesTo o (il ++ branch_bytes o t (pos l -ℤ pos (length il))) (length il) t l
unfolding branch_bytes int_bytes
branch_bytes-BranchesTo o il t l h k =
    elim (Bool-cases (leb l (length il + 130) && leb (length il + 2) (l + 127))) [
      | inl e ↦
          rw (short_test l (length il), e, sub_ℤ_assoc l (length il) 2)
            (inl (
              low_byte (pos l -ℤ pos (length il + 2)),
              get_elem?-append_head il _,
              get_elem?-append il _ 1,
              low_byte-ByteLeadsTo l (length il + 2) (ground (arith, e)) (omega arith),
            ))
      | inr e ↦
          rw (short_test l (length il), e, sub_ℤ_assoc l (length il) 5)
            (inr (
              _,
              _,
              _,
              _,
              get_elem?-append_head il _,
              get_elem?-append il _ 1,
              get_elem?-append il _ 2,
              get_elem?-append il _ 3,
              get_elem?-append il _ 4,
              low_word-WordLeadsTo l (length il + 5) (omega arith) k,
            ))
    ]
