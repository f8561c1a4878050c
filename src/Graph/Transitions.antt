-- ===== src/Graph/Transitions.antt =====
-- The transitions that `fixEdges` puts on the edges, against the representations of the values
-- at both ends (src/pyjion/instructions.h, instructions.cpp).
use pyjion.Prelude.{
  ◌≡◌, arith, ℕ, Bool, Option, none, some, List, ◌&&◌, if◌then◌else◌, All, All-map_total,
}
use pyjion.Kind.{supports_escaping}
use pyjion.Value.{Settings}
use pyjion.Graph.{
  EscapeTransition, no_escape, box, unbox, unboxed, Instruction, Edge, InstructionGraph, escape_at,
}
use pyjion.Graph.Passes.{transition, fix_edge, fix_edges}
use pyjion.Graph.Deoptimize.{StackEffect}
use pyjion.Graph.Build.{Stacks, CodeUnit, instruction_graph, optimised_graph}

-- A value on the stack: a Python object, or an unboxed machine value.
pub data Representation : Type 0 where
  boxed_object raw_value : Representation

-- An instruction that escapes makes and takes unboxed values of the kinds that can escape.
unfoldable pub representation : Bool → Bool → Representation
representation escapes can = if escapes && can then raw_value else boxed_object

-- What a transition does to a value, and `none` where it does not fit the value.
unfoldable pub convert : EscapeTransition → Representation → Option Representation
convert no_escape boxed_object = some boxed_object
convert box raw_value = some boxed_object
convert unbox boxed_object = some raw_value
convert unboxed raw_value = some raw_value
convert _ _ = none

-- The transition of an edge turns what its producer makes into what its consumer takes.
abbrev pub IsConverted : List Instruction → Edge → Type 0
IsConverted xs e =
    convert e.escaped (representation (escape_at xs e.from) (supports_escaping e.kind))
    ≡ some (representation (escape_at xs e.to) (supports_escaping e.kind))

convert-transition :
    (from to can : Bool)
    → convert (transition from to can) (representation from can) ≡ some (representation to can)
unfolding convert transition representation
convert-transition from to can = ground arith

fix_edge-IsConverted : (xs : List Instruction) (e : Edge) → IsConverted xs (fix_edge xs e)
unfolding fix_edge
fix_edge-IsConverted xs e = convert-transition _ _ _

pub fix_edges-IsConverted :
    (g : InstructionGraph) → All (IsConverted (fix_edges g).instructions) (fix_edges g).edges
unfolding fix_edges
fix_edges-IsConverted g =
    All-map_total (IsConverted g.instructions) (fix_edge g.instructions) g.edges
      (fix_edge-IsConverted g.instructions)

-- In the finished graph of any code object, the transition of every edge fits the representation
-- that its producer makes, and gives the representation that its consumer takes.
pub instruction_graph-IsConverted :
    (s : Settings) (effect : StackEffect) (stacks : Stacks) (escape_locals : Bool)
    (argcount nlocals : ℕ) (code : List CodeUnit)
    → All
        (IsConverted
          (instruction_graph s effect stacks escape_locals argcount nlocals code).instructions)
        (instruction_graph s effect stacks escape_locals argcount nlocals code).edges
unfolding instruction_graph
instruction_graph-IsConverted s effect stacks escape_locals argcount nlocals code =
    fix_edges-IsConverted (optimised_graph s effect stacks escape_locals argcount nlocals code)
