-- ===== src/Examples/Analysis.antt =====
-- The abstract interpreter and the pass before it, on small code.
use pyjion.Prelude.{
  ◌≡◌, ◌≢◌, refl, ℕ, ◌*◌, ◌≤◌, if◌then◌else◌, ◌==◌, Bool, true, false, none, some, [], ◌∷◌, length,
}
use pyjion.Prelude.Int.{pos}
use pyjion.Kind.{avk_any, avk_integer, avk_float}
use pyjion.Opcode.{Opcode, binary_add}
use pyjion.Value.{Settings, integer_value, any_value}
use pyjion.Links.{fresh_sets}
use pyjion.AttributeTable.{AttributeTable, capture_store_attr, get_attr}
use pyjion.AttributeTable.History.{capture_all}
use pyjion.State.{ValueWithSources, InterpreterState, StartStates, CodeShape, init_starting_state}
use pyjion.Interpreter.{py_int, Code, Context, Machine, ok, fault, stack_imbalance, Flow, ◌>>=◌}
use pyjion.Interpreter.Step.{is_extended_arg}
use pyjion.Interpreter.Dispatch.{interpret_opcode}
use pyjion.Interpreter.Loop.{at_index, between, advance, first, step, begin}
use pyjion.Interpreter.Preprocess.{Scan, scanned, missing_opcode, out_of_fuel, preprocess}
use pyjion.Interpreter.Preprocess.Bounds.{preprocess-block_starts}
use pyjion.Interpreter.Preprocess.Fuel.{preprocess-out_of_fuel, preprocess-missing_opcode}
use pyjion.Interpreter.Contracts.{IsValid}
use pyjion.Interpreter.Contracts.Effects.{Moves, interpret_opcode-Moves}
use pyjion.Interpreter.Safety.Worklist.{IsReached, advance-IsValid}
use pyjion.Interpreter.Safety.Branches.{Branches}
use pyjion.Interpreter.Safety.Runs.{begin-IsValid, Reaches-IsReached}

abbrev settings : Settings
settings = record {
  integer_unboxing_multiply = true;
  optimistic_integers = true;
  max_long = pos 9223372036854775807;
}

-- `x + 1`, in a function of `x`; an unused block around it is left at index 6.
abbrev opcode_at : ℕ → Opcode
opcode_at i =
    if i == 0
    then Opcode.setup_finally
    else if i == 2
    then Opcode.load_fast
    else if i == 4
    then Opcode.load_const
    else if i == 6
    then Opcode.pop_block
    else Opcode.return_value

abbrev byte_at : ℕ → ℕ
byte_at i = if i == 0 then 8 else 0

abbrev code : Code
code = record {
  opcode_at = opcode_at;
  byte_at = byte_at;
  size = 10;
  consts = py_int (pos 1) 1 ∷ [];
  names = [];
  argcount = 1;
  is_coroutine = false;
}

abbrev context : Context
context = record {
  settings = settings;
  attr_type_table = true;
  optimization_level = 1;
  exception_handling = true;
  code_object_size_limit = 10000;
  code = code;
  globals = λ s. none;
  builtins = λ s. none;
  pgc_ready = false;
  compiled_with_probes = false;
  profile_type = λ i p. none;
  profile_kind = λ i p. avk_any;
  stack_effect = λ o a j. pos 1;
  block_starts = λ i. 0;
}

abbrev shape : CodeShape
shape = record {
  argcount = 1;
  kwonlyargcount = 0;
  nlocals = 1;
  varargs = false;
  varkeywords = false;
}

abbrev parameter : InterpreterState
parameter = record {
  stack = [];
  locals =
      record {
        value_info = record { value = any_value; sources = none };
        is_maybe_undefined = false;
      }
      ∷ [];
  requires_pgc_probe = false;
  pgc_probe_size = 0;
}

abbrev starts : StartStates
starts = record {
  state_at = λ i. if 0 == i then some parameter else none;
  reported = true;
  source_sets = fresh_sets;
}

abbrev no_attributes : AttributeTable
no_attributes = λ t. none

starts_made : init_starting_state settings (λ i. none) shape fresh_sets ≡ some starts
unfolding init_starting_state
starts_made = refl

abbrev machine : Machine
unfolding begin
machine = begin starts no_attributes

taken :
    advance context between (begin starts no_attributes)
    ≡ ok (at_index 0) (record (begin starts no_attributes) { queue = [] })
unfolding advance begin
taken = refl

Reaches-IsReached_example :
    IsReached (at_index 0) (record (begin starts no_attributes) { queue = [] })
    × (advance context (at_index 0) (record (begin starts no_attributes) { queue = [] })
        ≢ fault stack_imbalance)
Reaches-IsReached_example =
    Reaches-IsReached context shape fresh_sets no_attributes starts (at_index 0)
      (record (begin starts no_attributes) { queue = [] }) (λ i r. refl) starts_made
      (step between (at_index 0) _ _ first taken)

valid : IsValid context 1 (begin starts no_attributes)
unfolding init_starting_state
valid = begin-IsValid context shape fresh_sets no_attributes starts (λ i r. refl) starts_made

abbrev integer : ValueWithSources
integer = record { value = integer_value; sources = none }

-- The machine with two integers on the stack.
abbrev loaded : Machine
loaded = record (begin starts no_attributes) {
  state = record parameter { stack = integer ∷ integer ∷ [] };
}

interpret_opcode-Moves_example :
    Moves 1 2 1 2 (interpret_opcode context 4 (Opcode.binary binary_add) 0 loaded)
unfolding begin
interpret_opcode-Moves_example =
    interpret_opcode-Moves context 1 4 (Opcode.binary binary_add) 0 loaded refl valid

-- The sum of the two is an integer, and the only value left.
added :
    (r : Machine) × (interpret_opcode context 4 (Opcode.binary binary_add) 0 loaded
      ≡ ok (Flow.next false false) r)
    × (length r.state.stack ≡ 1)
unfolding interpret_opcode begin ◌>>=◌
added = (_, refl, refl)

advance-IsValid_example :
    IsValid context 1 (record (begin starts no_attributes) { queue = [] })
    × IsReached (at_index 0) (record (begin starts no_attributes) { queue = [] })
advance-IsValid_example =
    advance-IsValid context 1 between (at_index 0) (begin starts no_attributes)
      (record (begin starts no_attributes) { queue = [] }) valid tt taken

preprocessed : (s : Scan) × (preprocess context ≡ scanned s) × (s.block_starts 6 ≡ 0)
unfolding preprocess
preprocessed = (_, refl, refl)

preprocess-block_starts_example : preprocessed.0.block_starts 6 ≤ 6
preprocess-block_starts_example = preprocess-block_starts context preprocessed.0 6 preprocessed.1

-- No prefix stands in the code.
unprefixed :
    (a b c d : Bool)
    → is_extended_arg (
        if a
        then Opcode.setup_finally
        else if b
        then Opcode.load_fast
        else if c
        then Opcode.load_const
        else if d
        then Opcode.pop_block
        else Opcode.return_value)
      ≡ false
unfolding is_extended_arg
unprefixed true b c d = refl
unprefixed false true c d = refl
unprefixed false false true d = refl
unprefixed false false false true = refl
unprefixed false false false false = refl

preprocess-out_of_fuel_example : preprocess context ≢ out_of_fuel
preprocess-out_of_fuel_example = preprocess-out_of_fuel context

preprocess-missing_opcode_example : preprocess context ≢ missing_opcode
preprocess-missing_opcode_example =
    preprocess-missing_opcode context
      (λ u l h. unprefixed (2 * u == 0) (2 * u == 2) (2 * u == 4) (2 * u == 6))

-- Code of three prefixes and nothing else.
abbrev cut_code : Code
cut_code = record code { opcode_at = λ i. Opcode.extended_arg; size = 6 }

cut_read : preprocess (record context { code = cut_code }) ≡ missing_opcode
unfolding preprocess
cut_read = refl

-- The second kind switches the answer to `avk_any`.
mixed : get_attr (capture_all no_attributes none 5 (avk_integer ∷ avk_float ∷ [])) none 5 ≡ avk_any
unfolding get_attr capture_store_attr
mixed = refl
