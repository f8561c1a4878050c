-- ===== src/IlGenerator/Integers.antt =====
-- Loading a constant of 32 bits (`ld_i4`, src/pyjion/ilgen.h).
use pyjion.Prelude.{
  ◌≡◌, refl, arith, ap, ℕ, ◌+◌, ◌-◌, ◌*◌, ◌%◌, ◌<◌, ◌≤◌, if◌then◌else◌, leb, ◌==◌, ◌&&◌, Bool-cases,
  inl, inr, ◌⊎◌, List, [], ◌∷◌,
}
use pyjion.Prelude.Int.{ℤ, pos, negsuc, ltb_ℤ}
use pyjion.IlGenerator.{low_byte, low_word, int_bytes}

-- CEE_LDC_I4_M1, CEE_LDC_I4_0 to CEE_LDC_I4_8, CEE_LDC_I4_S and CEE_LDC_I4.
pub record LdcOpcodes : Type 0 where
  pub minus_one : ℕ
  pub small : ℕ → ℕ
  pub short : ℕ
  pub long : ℕ

-- The `default` of the switch
unfoldable pub ld_i4_default : LdcOpcodes → ℤ → List ℕ
unfolding low_byte int_bytes
ld_i4_default o i =
    if ltb_ℤ (negsuc 127) i && ltb_ℤ i (pos 128)
    then o.short ∷ low_byte i ∷ []
    else o.long ∷ int_bytes i

-- The bytes that `ld_i4` emits.
unfoldable pub ld_i4 : LdcOpcodes → ℤ → List ℕ
unfolding ld_i4_default
ld_i4 o (negsuc n) = if n == 0 then o.minus_one ∷ [] else ld_i4_default o (negsuc n)
ld_i4 o (pos n) = if leb n 8 then o.small n ∷ [] else ld_i4_default o (pos n)

-- What a byte and a word stand for in two's complement.
abbrev pub ByteIs : ℕ → ℤ → Type 0
ByteIs b i = ((b < 128) × (i ≡ pos b)) ⊎ ((128 ≤ b) × (b < 256) × (i ≡ negsuc (255 - b)))

abbrev pub WordIs : ℕ → ℕ → ℕ → ℕ → ℤ → Type 0
WordIs a b c d i =
    let w = a + 256 * b + 65536 * c + 16777216 * d in
    ((w < 2147483648) × (i ≡ pos w))
    ⊎ ((2147483648 ≤ w) × (w < 4294967296) × (i ≡ negsuc (4294967295 - w)))

-- The instruction that these bytes are pushes `i`.
abbrev pub Pushes : LdcOpcodes → List ℕ → ℤ → Type 0
Pushes o bytes i =
    ((bytes ≡ o.minus_one ∷ []) × (i ≡ negsuc 0))
    ⊎ (((n : ℕ) × (n ≤ 8) × (bytes ≡ o.small n ∷ []) × (i ≡ pos n))
        ⊎ (((b : ℕ) × (bytes ≡ o.short ∷ b ∷ []) × ByteIs b i)
            ⊎ ((a b c d : ℕ) × (bytes ≡ o.long ∷ a ∷ b ∷ c ∷ d ∷ []) × WordIs a b c d i)))

abbrev pub FitsWord : ℤ → Type 0
FitsWord (pos n) = n < 2147483648
FitsWord (negsuc n) = n < 2147483648

ld_i4_default-Pushes : (o : LdcOpcodes) (i : ℤ) → FitsWord i → Pushes o (ld_i4_default o i) i
unfolding ld_i4_default int_bytes low_byte low_word
ld_i4_default-Pushes o (pos n) f =
    elim (Bool-cases (ltb_ℤ (negsuc 127) (pos n) && ltb_ℤ (pos n) (pos 128))) [
      | inl e ↦
          rw e
            (inr (inr (inl (n % 256, refl, inl (ground (arith, e), ap pos (ground (arith, e)))))))
      | inr e ↦ rw e (inr (inr (inr (_, _, _, _, refl, inl (omega arith, ap pos (omega arith))))))
    ]
ld_i4_default-Pushes o (negsuc n) f =
    elim (Bool-cases (ltb_ℤ (negsuc 127) (negsuc n) && ltb_ℤ (negsuc n) (pos 128))) [
      | inl e ↦
          let in_byte : n < 127 = ground (arith, e) in
          rw e (
            inr (
              inr (
                inl (
                  255 - n % 256,
                  refl,
                  inr (omega (arith, in_byte), omega arith, ap negsuc (omega (arith, in_byte))),
                ))))
      | inr e ↦ rw e (
          inr
            (inr (inr (_, _, _, _, refl, inr (omega arith, omega arith, ap negsuc (omega arith))))))
    ]

-- For a constant of 32 bits `ld_i4` emits an instruction that pushes just this constant.
pub ld_i4-Pushes : (o : LdcOpcodes) (i : ℤ) → FitsWord i → Pushes o (ld_i4 o i) i
unfolding ld_i4
ld_i4-Pushes o (pos n) f = elim (Bool-cases (leb n 8)) [
  | inl e ↦ rw e (inr (inl (n, ground (arith, e), refl, refl)))
  | inr e ↦ rw e (ld_i4_default-Pushes o (pos n) f)
]
ld_i4-Pushes o (negsuc n) f = elim (Bool-cases (n == 0)) [
  | inl e ↦ rw e (inl (refl, ap negsuc (ground (arith, e))))
  | inr e ↦ rw e (ld_i4_default-Pushes o (negsuc n) f)
]
