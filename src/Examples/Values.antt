-- ===== src/Examples/Values.antt =====
-- Inference over values, on small inputs.
use pyjion.Prelude.{◌≡◌, refl, true, false, Option, none, some}
use pyjion.Prelude.Int.{pos, negsuc}
use pyjion.Kind.{avk_integer, avk_bool, avk_float}
use pyjion.Opcode.{binary_add, binary_modulo, binary_lshift, binary_power, binary_multiply}
use pyjion.Source.{SourceClass, const_source, py_long, get_numeric_value}
use pyjion.Value.{Settings, integer_value, float_value, kind, avk_to_abstract_value}
use pyjion.Value.Kinds.{kind-avk_to_abstract_value}
use pyjion.Binary.{binary}
use pyjion.Numbers.{
  a_bool, an_integer, a_float, number_value, number_type, family, python_result, ClaimsOnly,
  is_bool_modulo_int,
}
use pyjion.Numbers.Sound.{
  binary-ClaimsOnly, bool-modulo_unsound, binary_precise, is_complex_and_big,
}
use pyjion.Inplace.{inplace_of, rows_differ, binary-inplace_of}

abbrev plain : Settings
plain = record {
  integer_unboxing_multiply = false;
  optimistic_integers = true;
  max_long = pos 0x7fff_ffff_ffff_ffff;
}

abbrev const_forty : Option SourceClass
const_forty = some (const_source (py_long (pos 40)))

kind-avk_to_abstract_value_example : kind plain (avk_to_abstract_value avk_float) ≡ avk_float
kind-avk_to_abstract_value_example = kind-avk_to_abstract_value plain avk_float (λ h. cc)

int_plus_float : kind plain (binary plain integer_value binary_add float_value none) ≡ avk_float
unfolding binary kind
int_plus_float = refl

-- A negative exponent is given the kind of an integer, though Python answers with a float.
negative_power :
    kind plain (
      binary plain integer_value binary_power integer_value
        (some (const_source (py_long (negsuc 0)))))
    ≡ avk_integer
unfolding binary kind get_numeric_value
negative_power = refl

binary-ClaimsOnly_example :
    ClaimsOnly
      (kind plain
        (binary plain (number_value an_integer) binary_multiply (number_value a_float) none))
      (python_result (family binary_multiply) (number_type an_integer) (number_type a_float))
unfolding family is_bool_modulo_int
binary-ClaimsOnly_example =
    binary-ClaimsOnly plain none an_integer binary_multiply a_float (λ h. cc) refl

bool-modulo_unsound_example :
    (kind plain
        (binary plain (number_value a_bool) binary_modulo (number_value an_integer) const_forty)
      ≡ avk_bool)
    × (¬ ClaimsOnly
        (kind plain
          (binary plain (number_value a_bool) binary_modulo (number_value an_integer) const_forty))
        (python_result (family binary_modulo) (number_type a_bool) (number_type an_integer)))
unfolding number_type
bool-modulo_unsound_example = bool-modulo_unsound plain an_integer const_forty refl

binary_precise_example :
    python_result (family binary_lshift) (number_type a_float) (number_type an_integer) ≡ none
unfolding family is_complex_and_big binary number_value kind
binary_precise_example =
    binary_precise plain none a_float binary_lshift an_integer (λ h. cc) refl refl

binary-inplace_of_example :
    binary plain integer_value (inplace_of binary_add) integer_value const_forty
    ≡ binary plain integer_value binary_add integer_value const_forty
unfolding rows_differ kind
binary-inplace_of_example =
    binary-inplace_of plain integer_value binary_add integer_value const_forty refl
