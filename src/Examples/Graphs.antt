-- ===== src/Examples/Graphs.antt =====
-- The instruction graph of a small function.
use pyjion.Prelude.{zero, suc, ◌≡◌, refl, ℕ, true, false, none, some, List, [], ◌∷◌, All}
use pyjion.Prelude.Int.{pos, negsuc}
use pyjion.Kind.{avk_float}
use pyjion.Opcode.{binary, binary_add, load_const, store_fast, load_fast, return_value}
use pyjion.Source.{SourceClass, const_source, local_source, intermediate_source, py_object}
use pyjion.Value.{Settings, float_value}
use pyjion.Graph.{EscapeTransition, box, no_escape, unboxed, Instruction, Edge, InstructionGraph}
use pyjion.Graph.Locals.{fix_locals}
use pyjion.Graph.Deoptimize.{StackEffect}
use pyjion.Graph.Build.{StackEntry, Stacks, CodeUnit, instruction_graph}
use pyjion.Graph.Transitions.{IsConverted, instruction_graph-IsConverted}
use pyjion.Graph.UnboxedLocals.{LocalsAreUnboxed, fix_locals-LocalsAreUnboxed}

abbrev plain : Settings
plain = record {
  integer_unboxing_multiply = false;
  optimistic_integers = true;
  max_long = pos 0x7fff_ffff_ffff_ffff;
}

-- def f():
--     x = 1.5
--     return x + 2.5
abbrev code : List CodeUnit
code =
    (load_const, 1)
    ∷ (store_fast, 0)
    ∷ (load_fast, 0)
    ∷ (load_const, 2)
    ∷ (binary binary_add, 0)
    ∷ (return_value, 0)
    ∷ []

abbrev effect : StackEffect
effect load_const arg = pos 1
effect load_fast arg = pos 1
effect store_fast arg = negsuc 0
effect (binary op) arg = negsuc 0
effect return_value arg = negsuc 0
effect _ arg = pos 0

abbrev from_op : SourceClass → ℕ → List (ℕ × ℕ) → StackEntry
from_op c p used = record {
  value = some float_value;
  source = some (record { class = c; consumers = used; producer = p });
}

abbrev stacks : Stacks
stacks zero = none
stacks (suc zero) = none
stacks (suc (suc zero)) = some (from_op (const_source py_object) 0 ((2, 0) ∷ []) ∷ [])
stacks (suc (suc (suc (suc (suc (suc (suc (suc zero)))))))) =
    some
      (from_op local_source 4 ((8, 1) ∷ []) ∷ from_op (const_source py_object) 6 ((8, 0) ∷ []) ∷ [])
stacks (suc (suc (suc (suc (suc (suc (suc (suc (suc (suc zero)))))))))) =
    some (from_op intermediate_source 8 ((10, 0) ∷ []) ∷ [])
stacks _ = none

abbrev graph : InstructionGraph
graph = instruction_graph plain effect stacks true 0 1 code

abbrev transitions : List Edge → List (ℕ × ℕ × EscapeTransition)
transitions [] = []
transitions (e ∷ es) = (e.from, e.to, e.escaped) ∷ transitions es

-- The local is held unboxed, and only the value that is returned is boxed.
graph_locals : graph.unboxed_fast_locals ≡ (0, avk_float) ∷ []
unfolding instruction_graph
graph_locals = refl

graph_transitions :
    transitions graph.edges
    ≡ (0, 2, unboxed) ∷ (4, 8, unboxed) ∷ (6, 8, unboxed) ∷ (8, 10, box) ∷ []
unfolding instruction_graph
graph_transitions = refl

instruction_graph-IsConverted_example : All (IsConverted graph.instructions) graph.edges
instruction_graph-IsConverted_example =
    instruction_graph-IsConverted plain effect stacks true 0 1 code

abbrev plus_one : Instruction
plus_one = record {
  index = 4;
  opcode = load_fast;
  oparg = 0;
  jump_target = 1337;
  escape = false;
  deoptimized = false;
}

abbrev loaded : Edge
loaded = record {
  from = 4;
  to = 6;
  value = some float_value;
  source = record { class = local_source; consumers = []; producer = 4 };
  escaped = no_escape;
  kind = avk_float;
  position = 0;
}

abbrev stored : Edge
stored = record loaded { from = 0; to = 2 }

abbrev small : InstructionGraph
small = record {
  invalid = false;
  instructions = record plus_one { index = 2; opcode = store_fast } ∷ plus_one ∷ [];
  unboxed_fast_locals = [];
  edges = stored ∷ loaded ∷ [];
}

fix_locals-LocalsAreUnboxed_example : LocalsAreUnboxed (fix_locals 0 1 small)
fix_locals-LocalsAreUnboxed_example = fix_locals-LocalsAreUnboxed 0 1 small refl

small_local : (fix_locals 0 1 small).unboxed_fast_locals ≡ (0, avk_float) ∷ []
unfolding fix_locals
small_local = refl
