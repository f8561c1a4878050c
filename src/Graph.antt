-- ===== src/Graph.antt =====
-- The instruction graph (src/pyjion/instructions.h, instructions.cpp): its data and the queries
-- for the edges of an instruction. The passes are in the modules below.
pub mod Passes
pub mod Locals
pub mod Deoptimize
pub mod Build
pub mod Transitions
pub mod LocalScan
pub mod UnboxedLocals
use pyjion.Prelude.{
  ℕ, zero, suc, ◌+◌, ltb, ◌==◌, if◌then◌else◌, Bool, not, true, false, Option, none, some, List, [],
  ◌∷◌,
}
use pyjion.Kind.{AbstractValueKind}
use pyjion.Opcode.{Opcode}
use pyjion.Source.{AbstractSource}
use pyjion.Value.{AbstractValue}

-- enum EscapeTransition
pub data EscapeTransition : Type 0 where
  no_escape box unbox unboxed : EscapeTransition

pub record Instruction : Type 0 where
  pub index : ℕ
  pub opcode : Opcode
  pub oparg : ℕ
  pub jump_target : ℕ
  pub escape : Bool
  pub deoptimized : Bool

-- The label of an edge is what its source describes itself as.
pub record Edge : Type 0 where
  pub from : ℕ
  pub to : ℕ
  pub value : Option AbstractValue
  pub source : AbstractSource
  pub escaped : EscapeTransition
  pub kind : AbstractValueKind
  pub position : ℕ

-- The map of instructions is a list in the order of its keys; the key of an instruction is its
-- `index`. Reading a missing key makes an entry that does not escape; the model reads the same
-- and does not keep the entry.
pub record InstructionGraph : Type 0 where
  pub invalid : Bool
  pub instructions : List Instruction
  pub unboxed_fast_locals : List (ℕ × AbstractValueKind)
  pub edges : List Edge

unfoldable pub find_instruction : List Instruction → ℕ → Option Instruction
find_instruction [] i = none
find_instruction (x ∷ xs) i = if x.index == i then some x else find_instruction xs i

abbrev pub option_escape : Option Instruction → Bool
option_escape none = false
option_escape (some x) = x.escape

-- `instructions[i].escape`
unfoldable pub escape_at : List Instruction → ℕ → Bool
unfolding find_instruction
escape_at xs i = option_escape (find_instruction xs i)

-- The edges that a query keeps, in the order in which they were made.
unfoldable pub edges_where : (Edge → Bool) → List Edge → List Edge
edges_where p [] = []
edges_where p (e ∷ es) = if p e then e ∷ edges_where p es else edges_where p es

abbrev pub newer : Option Edge → Edge → Option Edge
newer none e = some e
newer (some later) e = some later

-- A later edge at a position replaces an earlier one.
unfoldable pub last_at : ℕ → List Edge → Option Edge
last_at i [] = none
last_at i (e ∷ es) = if e.position == i then newer (last_at i es) e else last_at i es

unfoldable pub max_position : List Edge → ℕ
max_position [] = 0
max_position (e ∷ es) = let m = max_position es in if ltb m e.position then e.position else m

abbrev pub add_edge : Option Edge → List Edge → List Edge
add_edge none es = es
add_edge (some e) es = e ∷ es

-- The edges at the positions i, i + 1, … , i + n - 1, in that order.
unfoldable pub by_position : ℕ → ℕ → List Edge → List Edge
unfolding last_at
by_position zero i es = []
by_position (suc n) i es = add_edge (last_at i es) (by_position n (suc i) es)

unfoldable pub ordered : List Edge → List Edge
unfolding by_position max_position
ordered es = by_position (max_position es + 1) 0 es

abbrev pub enters : ℕ → Edge → Bool
enters i e = e.to == i

abbrev pub leaves : ℕ → Edge → Bool
leaves i e = e.from == i

unfoldable pub get_edges : List Edge → ℕ → List Edge
unfolding ordered edges_where
get_edges es i = ordered (edges_where (enters i) es)

unfoldable pub get_edges_from : List Edge → ℕ → List Edge
unfolding ordered edges_where
get_edges_from es i = ordered (edges_where (leaves i) es)

unfoldable pub get_unboxed_fast_locals : InstructionGraph → List (ℕ × AbstractValueKind)
get_unboxed_fast_locals g = g.unboxed_fast_locals

unfoldable pub is_valid : InstructionGraph → Bool
is_valid g = not g.invalid
