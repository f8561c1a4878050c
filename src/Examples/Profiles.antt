-- ===== src/Examples/Profiles.antt =====
-- A probe that sees an integer and then a float.
use pyjion.Prelude.{◌≡◌, refl, true, false, none, some, [], ◌∷◌}
use pyjion.Prelude.Int.{pos}
use pyjion.Kind.{avk_any, avk_float}
use pyjion.Value.{Settings, py_long_type, py_float_type, get_abstract_type}
use pyjion.Interpreter.{PyObject}
use pyjion.Profile.{PyjionCodeProfile, capture_each, capture_each-first_type}

abbrev settings : Settings
settings = record {
  integer_unboxing_multiply = true;
  optimistic_integers = true;
  max_long = pos 9223372036854775807;
}

abbrev nothing_seen : PyjionCodeProfile
nothing_seen = record { stack_types = λ i j. none; stack_kinds = λ i j. avk_any }

abbrev five : PyObject
five = record { type = py_long_type; digits = 1 }

abbrev half : PyObject
half = record { type = py_float_type; digits = 0 }

capture_each-first_type_example :
    ((capture_each settings (λ t. false) 4 0 (five ∷ half ∷ []) nothing_seen).stack_types 4 0
      ≡ some py_long_type)
    × ((capture_each settings (λ t. false) 4 0 (five ∷ half ∷ []) nothing_seen).stack_kinds 4 0
        ≡ avk_float)
unfolding get_abstract_type
capture_each-first_type_example =
    capture_each-first_type settings (λ t. false) 4 0 five (half ∷ []) nothing_seen refl
      (refl, (refl, tt))
