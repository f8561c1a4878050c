-- ===== src/Examples/States.antt =====
-- Merging of states and of sources, on small inputs.
use pyjion.Prelude.{◌≡◌, refl, ℕ, true, false, Option, none, some, [], ◌∷◌, length, inr}
use pyjion.Prelude.Int.{pos}
use pyjion.Value.{Settings, AbstractValue, integer_value, float_value, undefined_value, kind}
use pyjion.Links.{fresh_sets, combine_pointers}
use pyjion.Links.Partition.{Combines, combine_pointers-Combines, fresh_sets-IsPartition}
use pyjion.State.{InterpreterState, Merged, merge_states, starting_locals}
use pyjion.State.Termination.{Settles, merge_states-Settles}
use pyjion.State.Fixpoint.{Changes, Changes-Acc}
use mathlib.Core.List.{Permᴰ}
use pyjion.Binary.{merge_with}
use pyjion.State.Order.{merge_all, kind-merge_all}
use pyjion.Kind.{avk_any, avk_float}
use mathlib.Core.WellFounded.{Acc}

abbrev settings : Settings
settings = record {
  integer_unboxing_multiply = true;
  optimistic_integers = true;
  max_long = pos 9223372036854775807;
}

abbrev one_local : AbstractValue → Option ℕ → InterpreterState
one_local v s = record {
  stack = record { value = integer_value; sources = some 1 } ∷ [];
  locals =
      record { value_info = record { value = v; sources = s }; is_maybe_undefined = false } ∷ [];
  requires_pgc_probe = false;
  pgc_probe_size = 0;
}

-- One link makes three sources into two classes.
linked : (combine_pointers 1 2 fresh_sets).1.set_of 1 ≡ 2
unfolding combine_pointers
linked = refl

combine_pointers-Combines_example :
    Combines fresh_sets 1 2 (combine_pointers 1 2 fresh_sets).0 (combine_pointers 1 2 fresh_sets).1
combine_pointers-Combines_example = combine_pointers-Combines 1 2 fresh_sets fresh_sets-IsPartition

merge_states-Settles_example :
    (m : Merged InterpreterState) × (merge_states settings
        (one_local integer_value none)
        (one_local float_value (some 2))
        fresh_sets
      ≡ some m)
    × Settles (one_local integer_value none) m
merge_states-Settles_example =
    merge_states-Settles settings (one_local integer_value none) (one_local float_value (some 2))
      fresh_sets refl

Changes-Acc_example : Acc (Changes settings) (one_local undefined_value none)
Changes-Acc_example = Changes-Acc settings (one_local undefined_value none)

kind-merge_all_example :
    kind settings (merge_all settings undefined_value (integer_value ∷ float_value ∷ []))
    ≡ kind settings (merge_all settings undefined_value (float_value ∷ integer_value ∷ []))
kind-merge_all_example =
    kind-merge_all settings undefined_value (integer_value ∷ float_value ∷ [])
      (float_value ∷ integer_value ∷ []) (inr ((λ e. cc), ((λ e. cc), tt))) (Permᴰ.swap refl refl)

-- Where one of the values is undefined, the order counts.
undefined_last :
    (kind settings (merge_all settings undefined_value (undefined_value ∷ float_value ∷ []))
      ≡ avk_float)
    × (kind settings (merge_all settings undefined_value (float_value ∷ undefined_value ∷ []))
        ≡ avk_any)
unfolding kind merge_all merge_with
undefined_last = (refl, refl)

-- A function of two parameters, one of them variadic, with a further local.
three_locals :
    length (
      starting_locals (record {
        argcount = 1;
        kwonlyargcount = 0;
        nlocals = 3;
        varargs = true;
        varkeywords = false;
      }))
    ≡ 3
unfolding starting_locals
three_locals = refl
