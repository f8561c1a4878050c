-- ===== src/Graph/Build.antt =====
-- The constructor of the instruction graph (src/pyjion/instructions.cpp): the instructions and
-- edges of a code object, and the passes over them.
use pyjion.Prelude.{
  ℕ, ◌+◌, ◌*◌, ◌%◌, ◌^◌, if◌then◌else◌, Bool, true, false, Option, none, some, List, [], ◌∷◌, ◌++◌,
}
use pyjion.Kind.{AbstractValueKind, avk_any}
use pyjion.Opcode.{Opcode, extended_arg, jumps_to, sizeof_codeunit}
use pyjion.Source.{AbstractSource, is_consumed_by}
use pyjion.Value.{AbstractValue, Settings, kind}
use pyjion.Graph.{no_escape, Instruction, Edge, InstructionGraph}
use pyjion.Graph.Passes.{fix_instructions, fix_edges}
use pyjion.Graph.Locals.{fix_locals}
use pyjion.Graph.Deoptimize.{StackEffect, deoptimize_instructions}

-- A stack entry, with its source looked up.
pub record StackEntry : Type 0 where
  pub value : Option AbstractValue
  pub source : Option AbstractSource

-- The states of the interpreter before each opcode, where it has reached them.
abbrev pub Stacks : Type 0
Stacks = ℕ → Option (List StackEntry)

-- An opcode and its byte of argument.
abbrev pub CodeUnit : Type 0
CodeUnit = Opcode × ℕ

abbrev pub kind_or_any : Settings → Option AbstractValue → AbstractValueKind
kind_or_any s none = avk_any
kind_or_any s (some v) = kind s v

unfoldable pub make_edge :
    Settings → ℕ → Option AbstractValue → AbstractSource → Option ℕ → List Edge
make_edge s index v source none = []
make_edge s index v source (some stack_position) =
    record {
      from = source.producer;
      to = index;
      value = v;
      source = source;
      escaped = no_escape;
      kind = kind_or_any s v;
      position = stack_position;
    }
    ∷ []

abbrev pub entry_edge : Settings → ℕ → Option AbstractValue → Option AbstractSource → List Edge
entry_edge s index v none = []
entry_edge s index v (some source) = make_edge s index v source (is_consumed_by source index)

unfoldable pub stack_edges : Settings → ℕ → List StackEntry → List Edge
unfolding make_edge is_consumed_by kind
stack_edges s index [] = []
stack_edges s index (si ∷ sis) = entry_edge s index si.value si.source ++ stack_edges s index sis

abbrev pub edges_before : Settings → Stacks → ℕ → Option (List StackEntry) → List Edge
edges_before s stacks index none = []
edges_before s stacks index (some sis) = stack_edges s index sis

unfoldable pub make_instruction : ℕ → Opcode → ℕ → Instruction
unfolding jumps_to
make_instruction i op arg = record {
  index = i;
  opcode = op;
  oparg = arg;
  jump_target = jumps_to op arg i;
  escape = false;
  deoptimized = false;
}

unfoldable pub is_extended_arg : Opcode → Bool
is_extended_arg extended_arg = true
is_extended_arg _ = false

-- `(oparg << 8) | GET_OPARG(curByte)`, stored in an `int16_t`.
unfoldable pub extend_oparg : ℕ → ℕ → ℕ
extend_oparg oparg byte = (oparg * 256 + byte) % 2 ^ 16

unfoldable pub single_graph : Settings → Stacks → ℕ → Opcode → ℕ → List Instruction × List Edge
unfolding stack_edges make_instruction
single_graph s stacks index op arg =
    (make_instruction index op arg ∷ [], edges_before s stacks index (stacks index))

-- One round over the code units that begin at `index`, prepended to the graph of the rest.
abbrev pub prepend :
    List Instruction × List Edge → List Instruction × List Edge → List Instruction × List Edge
prepend (xs, es) (ys, fs) = (xs ++ ys, es ++ fs)

-- The loop over the bytecode. An `EXTENDED_ARG` takes the next unit with it, and that one only.
unfoldable pub read_code : Settings → Stacks → ℕ → List CodeUnit → List Instruction × List Edge
unfolding single_graph is_extended_arg extend_oparg make_instruction
read_code s stacks index [] = ([], [])
read_code s stacks index ((op, arg) ∷ []) = single_graph s stacks index op arg
read_code s stacks index ((op, arg) ∷ (op', arg') ∷ units) =
    let rest = read_code s stacks (index + sizeof_codeunit) ((op', arg') ∷ units) in
    let after = read_code s stacks (index + sizeof_codeunit + sizeof_codeunit) units in
    if is_extended_arg op
    then prepend (make_instruction index op arg ∷ [], [])
        (prepend (single_graph s stacks (index + sizeof_codeunit) op' (extend_oparg arg arg'))
          after)
    else prepend (single_graph s stacks index op arg) rest

unfoldable pub optimise_locals : Bool → ℕ → ℕ → InstructionGraph → InstructionGraph
unfolding fix_locals
optimise_locals escape_locals argcount nlocals g =
    if escape_locals then fix_locals argcount nlocals g else g

-- The graph as it stands before `fixEdges`.
unfoldable pub optimised_graph :
    Settings → StackEffect → Stacks → Bool → ℕ → ℕ → List CodeUnit → InstructionGraph
unfolding read_code optimise_locals fix_instructions deoptimize_instructions
optimised_graph s effect stacks escape_locals argcount nlocals code =
    let (xs, es) = read_code s stacks 0 code in
    let start : InstructionGraph = record {
      invalid = false;
      instructions = xs;
      unboxed_fast_locals = [];
      edges = es;
    } in
    deoptimize_instructions effect (
      optimise_locals escape_locals argcount nlocals
        (fix_instructions s.integer_unboxing_multiply start))

unfoldable pub instruction_graph :
    Settings → StackEffect → Stacks → Bool → ℕ → ℕ → List CodeUnit → InstructionGraph
unfolding optimised_graph fix_edges
instruction_graph s effect stacks escape_locals argcount nlocals code =
    fix_edges (optimised_graph s effect stacks escape_locals argcount nlocals code)
