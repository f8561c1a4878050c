-- ===== src/Graph/Passes.antt =====
-- `fixInstructions` and `fixEdges` of the instruction graph (src/pyjion/instructions.cpp), and
-- the tests of src/pyjion/unboxing.cpp on the kinds of an instruction's inputs.
use pyjion.Prelude.{if◌then◌else◌, Bool, true, false, not, List, [], ◌∷◌, ◌&&◌, ◌||◌, map}
use pyjion.Kind.{
  AbstractValueKind, avk_integer, avk_range, avk_unboxed_range_iterator, avk_bytearray,
  supports_escaping, unboxed_argument,
}
use pyjion.Opcode.{
  Opcode, BinaryOp, binary, binary_power, inplace_power, inplace_multiply, binary_multiply,
  binary_subscr, get_iter, for_iter, store_subscr, load_fast, store_fast, delete_fast,
  opcode_supports_unboxing,
}
use pyjion.Graph.{
  EscapeTransition, no_escape, box, unbox, unboxed, Instruction, Edge, InstructionGraph, escape_at,
  get_edges, get_edges_from,
}

unfoldable pub is_integer : AbstractValueKind → Bool
is_integer avk_integer = true
is_integer _ = false

unfoldable pub is_unboxed_range_iterator : AbstractValueKind → Bool
is_unboxed_range_iterator avk_unboxed_range_iterator = true
is_unboxed_range_iterator _ = false

unfoldable pub any_kind : (AbstractValueKind → Bool) → List AbstractValueKind → Bool
any_kind p [] = false
any_kind p (k ∷ ks) = p k || any_kind p ks

unfoldable pub iterates_range : List AbstractValueKind → Bool
iterates_range (avk_range ∷ []) = true
iterates_range _ = false

unfoldable pub reads_bytearray : List AbstractValueKind → Bool
reads_bytearray (avk_integer ∷ avk_bytearray ∷ []) = true
reads_bytearray _ = false

unfoldable pub writes_bytearray : List AbstractValueKind → Bool
writes_bytearray (avk_integer ∷ avk_bytearray ∷ avk_integer ∷ []) = true
writes_bytearray _ = false

-- Whether a binary operator can run unboxed on inputs of these kinds. The flag is
-- `OPT_ENABLED(IntegerUnboxingMultiply)`.
unfoldable pub binary_supports_inputs : Bool → BinaryOp → List AbstractValueKind → Bool
unfolding any_kind is_integer reads_bytearray
binary_supports_inputs flag binary_power ks = not (any_kind is_integer ks)
binary_supports_inputs flag inplace_power ks = not (any_kind is_integer ks)
binary_supports_inputs flag inplace_multiply ks =
    if flag then true else not (any_kind is_integer ks)
binary_supports_inputs flag binary_multiply ks = if flag then true else not (any_kind is_integer ks)
binary_supports_inputs flag binary_subscr ks = reads_bytearray ks
binary_supports_inputs flag _ ks = true

unfoldable pub supports_inputs : Bool → Opcode → List AbstractValueKind → Bool
unfolding binary_supports_inputs iterates_range any_kind is_unboxed_range_iterator writes_bytearray
supports_inputs flag (binary op) ks = binary_supports_inputs flag op ks
supports_inputs flag get_iter ks = iterates_range ks
supports_inputs flag for_iter ks = any_kind is_unboxed_range_iterator ks
supports_inputs flag store_subscr ks = writes_bytearray ks
supports_inputs flag _ ks = true

-- The opcodes that `fixLocals` handles.
unfoldable pub is_fast_local : Opcode → Bool
is_fast_local load_fast = true
is_fast_local store_fast = true
is_fast_local delete_fast = true
is_fast_local _ = false

unfoldable pub inputs_escapable : List Edge → Bool
inputs_escapable [] = true
inputs_escapable (e ∷ es) =
    (supports_escaping e.kind || unboxed_argument e.kind) && inputs_escapable es

unfoldable pub outputs_escapable : List Edge → Bool
outputs_escapable [] = true
outputs_escapable (e ∷ es) = supports_escaping e.kind && outputs_escapable es

abbrev pub kinds_of : List Edge → List AbstractValueKind
kinds_of = map (λ e. e.kind)

-- Whether `fixInstructions` marks an instruction.
unfoldable pub can_escape : Bool → List Edge → Instruction → Bool
unfolding opcode_supports_unboxing is_fast_local inputs_escapable outputs_escapable supports_inputs
    get_edges get_edges_from
can_escape flag es x =
    opcode_supports_unboxing x.opcode
    && (not (is_fast_local x.opcode)
        && (inputs_escapable (get_edges es x.index)
            && (outputs_escapable (get_edges_from es x.index)
                && supports_inputs flag x.opcode (kinds_of (get_edges es x.index)))))

unfoldable pub fix_instruction : Bool → List Edge → Instruction → Instruction
unfolding can_escape
fix_instruction flag es x = if can_escape flag es x then record x { escape = true } else x

unfoldable pub fix_instructions : Bool → InstructionGraph → InstructionGraph
unfolding fix_instruction
fix_instructions flag g = record g {
  instructions = map (fix_instruction flag g.edges) g.instructions;
}

-- The transition of an edge between instructions that escape or do not, for a kind that can
-- escape or cannot.
unfoldable pub transition : Bool → Bool → Bool → EscapeTransition
transition false true true = unbox
transition false true false = no_escape
transition false false can = no_escape
transition true true true = unboxed
transition true false true = box
transition true to false = no_escape

unfoldable pub fix_edge : List Instruction → Edge → Edge
unfolding transition escape_at supports_escaping
fix_edge xs e = record e {
  escaped = transition (escape_at xs e.from) (escape_at xs e.to) (supports_escaping e.kind);
}

unfoldable pub fix_edges : InstructionGraph → InstructionGraph
unfolding fix_edge
fix_edges g = record g { edges = map (fix_edge g.instructions) g.edges }
