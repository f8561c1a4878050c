-- ===== src/Numbers/Sound.antt =====
-- The tables of src/pyjion/absvalue.cpp against Python's numeric tower.
use pyjion.Prelude.{◌≡◌, ◌≢◌, refl, Bool, true, false, Option, none, arith}
use pyjion.Kind.{avk_any, avk_bool}
use pyjion.Opcode.{BinaryOp, binary_power, binary_modulo, inplace_power}
use pyjion.Source.{SourceClass}
use pyjion.Value.{Settings, AbstractValue, kind}
use pyjion.Binary.{binary}
use pyjion.Numbers.{
  py_int, Number, family, power_family, number_value, number_type, python_result, ClaimsOnly,
  is_bool_modulo_int, a_bool, an_integer, a_big_integer, a_float, a_complex,
}

-- One table entry against the tower.
abbrev Sound : Settings → AbstractValue → BinaryOp → Number → Number → Type 0
Sound s result op a b =
    ClaimsOnly (kind s result) (python_result (family op) (number_type a) (number_type b))

-- Tables whose entries are plain values: each case is checked by evaluation.
module _ (s : Settings) (source : Option SourceClass) where
  bool-Sound :
      (op : BinaryOp) (b : Number)
      → family op ≢ power_family
      → is_bool_modulo_int a_bool op b ≡ false
      → Sound s (binary s (number_value a_bool) op (number_value b) source) op a_bool b
  unfolding binary number_value family python_result is_bool_modulo_int number_type kind
  bool-Sound binary_power b h g = absurd (h refl)
  bool-Sound inplace_power b h g = absurd (h refl)
  bool-Sound binary_modulo an_integer h g = cc
  bool-Sound _ a_bool h g = ground arith
  bool-Sound _ _ h g = ground arith

  big_integer-Sound :
      (op : BinaryOp) (b : Number)
      → family op ≢ power_family
      → Sound s
          (binary s (number_value a_big_integer) op (number_value b) source)
          op
          a_big_integer
          b
  unfolding binary number_value family python_result number_type kind
  big_integer-Sound binary_power b h = absurd (h refl)
  big_integer-Sound inplace_power b h = absurd (h refl)
  big_integer-Sound _ a_bool h = ground arith
  big_integer-Sound _ _ h = ground arith

  float-Sound :
      (op : BinaryOp) (b : Number)
      → family op ≢ power_family
      → Sound s (binary s (number_value a_float) op (number_value b) source) op a_float b
  unfolding binary number_value family python_result number_type kind
  float-Sound binary_power b h = absurd (h refl)
  float-Sound inplace_power b h = absurd (h refl)
  float-Sound _ a_bool h = ground arith
  float-Sound _ _ h = ground arith

  complex-Sound :
      (op : BinaryOp) (b : Number)
      → family op ≢ power_family
      → Sound s (binary s (number_value a_complex) op (number_value b) source) op a_complex b
  unfolding binary number_value family python_result number_type kind
  complex-Sound binary_power b h = absurd (h refl)
  complex-Sound inplace_power b h = absurd (h refl)
  complex-Sound _ a_bool h = ground arith
  complex-Sound _ _ h = ground arith

  integer-Sound :
      (op : BinaryOp) (b : Number)
      → family op ≢ power_family
      → Sound s (binary s (number_value an_integer) op (number_value b) source) op an_integer b
  unfolding binary number_value family python_result number_type kind
  integer-Sound binary_power b h = absurd (h refl)
  integer-Sound inplace_power b h = absurd (h refl)
  integer-Sound _ a_bool h = ground arith
  integer-Sound _ _ h = ground arith

  -- For two numbers and any operator but a power, and outside `bool % int`, the kind that the
  -- tables give claims nothing or is a kind of just the type that Python's arithmetic gives.
  pub binary-ClaimsOnly :
      (a : Number) (op : BinaryOp) (b : Number)
      → family op ≢ power_family
      → is_bool_modulo_int a op b ≡ false
      → ClaimsOnly
          (kind s (binary s (number_value a) op (number_value b) source))
          (python_result (family op) (number_type a) (number_type b))
  binary-ClaimsOnly a_bool op b h g = bool-Sound op b h g
  binary-ClaimsOnly an_integer op b h g = integer-Sound op b h
  binary-ClaimsOnly a_big_integer op b h g = big_integer-Sound op b h
  binary-ClaimsOnly a_float op b h g = float-Sound op b h
  binary-ClaimsOnly a_complex op b h g = complex-Sound op b h

-- For `bool % int`, with an integer of either size, the tables give the kind of a `bool`, which is
-- not the type that Python's arithmetic gives.
pub bool-modulo_unsound :
    (s : Settings) (b : Number) (source : Option SourceClass)
    → number_type b ≡ py_int
    → (kind s (binary s (number_value a_bool) binary_modulo (number_value b) source) ≡ avk_bool)
      × (¬ ClaimsOnly
          (kind s (binary s (number_value a_bool) binary_modulo (number_value b) source))
          (python_result (family binary_modulo) (number_type a_bool) (number_type b)))
unfolding binary number_value family python_result number_type kind
bool-modulo_unsound s an_integer source h = (refl, λ e. cc)
bool-modulo_unsound s a_big_integer source h = (refl, λ e. cc)
bool-modulo_unsound s a_bool source h = cc
bool-modulo_unsound s a_float source h = cc
bool-modulo_unsound s a_complex source h = cc

-- The one pair of numbers on which the tables give up though Python computes: a complex number
-- on the left of a big integer.
unfoldable pub is_complex_and_big : Number → Number → Bool
is_complex_and_big a_complex a_big_integer = true
is_complex_and_big _ _ = false

module _ (s : Settings) (source : Option SourceClass) where
  bool-precise :
      (op : BinaryOp) (b : Number)
      → family op ≢ power_family
      → is_complex_and_big a_bool b ≡ false
      → kind s (binary s (number_value a_bool) op (number_value b) source) ≡ avk_any
      → python_result (family op) (number_type a_bool) (number_type b) ≡ none
  unfolding binary number_value family python_result number_type kind is_complex_and_big
  bool-precise binary_power b h g = absurd (h refl)
  bool-precise inplace_power b h g = absurd (h refl)
  bool-precise _ a_bool h g = ground arith
  bool-precise _ _ h g = ground arith

  integer-precise :
      (op : BinaryOp) (b : Number)
      → family op ≢ power_family
      → is_complex_and_big an_integer b ≡ false
      → kind s (binary s (number_value an_integer) op (number_value b) source) ≡ avk_any
      → python_result (family op) (number_type an_integer) (number_type b) ≡ none
  unfolding binary number_value family python_result number_type kind is_complex_and_big
  integer-precise binary_power b h g = absurd (h refl)
  integer-precise inplace_power b h g = absurd (h refl)
  integer-precise _ a_bool h g = ground arith
  integer-precise _ _ h g = ground arith

  big_integer-precise :
      (op : BinaryOp) (b : Number)
      → family op ≢ power_family
      → is_complex_and_big a_big_integer b ≡ false
      → kind s (binary s (number_value a_big_integer) op (number_value b) source) ≡ avk_any
      → python_result (family op) (number_type a_big_integer) (number_type b) ≡ none
  unfolding binary number_value family python_result number_type kind is_complex_and_big
  big_integer-precise binary_power b h g = absurd (h refl)
  big_integer-precise inplace_power b h g = absurd (h refl)
  big_integer-precise _ a_bool h g = ground arith
  big_integer-precise _ _ h g = ground arith

  float-precise :
      (op : BinaryOp) (b : Number)
      → family op ≢ power_family
      → is_complex_and_big a_float b ≡ false
      → kind s (binary s (number_value a_float) op (number_value b) source) ≡ avk_any
      → python_result (family op) (number_type a_float) (number_type b) ≡ none
  unfolding binary number_value family python_result number_type kind is_complex_and_big
  float-precise binary_power b h g = absurd (h refl)
  float-precise inplace_power b h g = absurd (h refl)
  float-precise _ a_bool h g = ground arith
  float-precise _ _ h g = ground arith

  complex-precise :
      (op : BinaryOp) (b : Number)
      → family op ≢ power_family
      → is_complex_and_big a_complex b ≡ false
      → kind s (binary s (number_value a_complex) op (number_value b) source) ≡ avk_any
      → python_result (family op) (number_type a_complex) (number_type b) ≡ none
  unfolding binary number_value family python_result number_type kind is_complex_and_big
  complex-precise binary_power b h g = absurd (h refl)
  complex-precise inplace_power b h g = absurd (h refl)
  complex-precise _ a_bool h g = ground arith
  complex-precise _ _ h g = ground arith

  -- For two numbers and any operator but a power, outside complex numbers on the left of big
  -- integers, the tables give up only where Python's arithmetic has no result.
  pub binary_precise :
      (a : Number) (op : BinaryOp) (b : Number)
      → family op ≢ power_family
      → is_complex_and_big a b ≡ false
      → kind s (binary s (number_value a) op (number_value b) source) ≡ avk_any
      → python_result (family op) (number_type a) (number_type b) ≡ none
  binary_precise a_bool op b h g = bool-precise op b h g
  binary_precise an_integer op b h g = integer-precise op b h g
  binary_precise a_big_integer op b h g = big_integer-precise op b h g
  binary_precise a_float op b h g = float-precise op b h g
  binary_precise a_complex op b h g = complex-precise op b h g
