-- ===== src/Graph/Deoptimize.antt =====
-- `deoptimizeInstructions` of the instruction graph (src/pyjion/instructions.cpp). The loop
-- reads what its earlier rounds have changed. The stack effect of an opcode is CPython's, and
-- a parameter.
use pyjion.Prelude.{
  ℕ, ◌==◌, if◌then◌else◌, Bool, true, false, not, List, [], ◌∷◌, ◌&&◌, ◌||◌, map, length,
}
use pyjion.Prelude.Int.{ℤ, sub_ℕ, eq_ℤ}
use pyjion.Opcode.{Opcode, for_iter}
use pyjion.Graph.{Instruction, Edge, InstructionGraph, escape_at, get_edges, get_edges_from}
use pyjion.Graph.Passes.{is_fast_local}
use pyjion.Graph.Locals.{is_store_fast}

abbrev pub StackEffect : Type 0
StackEffect = Opcode → ℕ → ℤ

-- `instructions[i].escape = false`
unfoldable pub clear_escape : ℕ → Instruction → Instruction
clear_escape i x = if x.index == i then record x { escape = false } else x

-- `instructions[i].escape = false; instructions[i].deoptimized = true`
unfoldable pub deoptimize_at : ℕ → Instruction → Instruction
deoptimize_at i x = if x.index == i then record x { escape = false; deoptimized = true } else x

abbrev pub deoptimize : ℕ → InstructionGraph → InstructionGraph
deoptimize i g = record g { instructions = map (deoptimize_at i) g.instructions }

-- The consumer of a value whose producer is no longer escaped loses its mark too, unless it
-- stores a local.
unfoldable pub deoptimize_consumer : ℕ → Instruction → Instruction
deoptimize_consumer i x =
    if x.index == i && not (is_store_fast x.opcode)
    then record x { escape = false; deoptimized = true }
    else x

unfoldable pub any_from_escape : List Instruction → List Edge → Bool
unfolding escape_at
any_from_escape xs [] = false
any_from_escape xs (e ∷ es) = escape_at xs e.from || any_from_escape xs es

unfoldable pub any_to_escape : List Instruction → List Edge → Bool
unfolding escape_at
any_to_escape xs [] = false
any_to_escape xs (e ∷ es) = escape_at xs e.to || any_to_escape xs es

-- No inputs, and one output, to an instruction that is not escaped.
unfoldable pub lone_producer : List Instruction → List Edge → List Edge → Bool
unfolding escape_at
lone_producer xs [] (out ∷ []) = not (escape_at xs out.to)
lone_producer xs _ _ = false

-- No outputs, and one input, from an instruction that is not escaped.
unfoldable pub lone_consumer : List Instruction → List Edge → List Edge → Bool
unfolding escape_at
lone_consumer xs (e ∷ []) [] = not (escape_at xs e.from)
lone_consumer xs _ _ = false

-- Inputs and outputs, none of them from or to an escaped instruction.
unfoldable pub isolated : List Instruction → List Edge → List Edge → Bool
unfolding any_from_escape any_to_escape
isolated xs (e ∷ es) (f ∷ fs) = not (any_from_escape xs (e ∷ es)) && not (any_to_escape xs (f ∷ fs))
isolated xs _ _ = false

abbrev pub is_empty : List Edge → Bool
is_empty [] = true
is_empty _ = false

-- Boxed inputs, and one output, to an instruction that makes no value.
unfoldable pub feeds_sink : List Instruction → List Edge → List Edge → List Edge → Bool
unfolding any_from_escape
feeds_sink xs all (e ∷ es) (out ∷ []) =
    not (any_from_escape xs (e ∷ es)) && is_empty (get_edges_from all out.to)
feeds_sink xs all _ _ = false

abbrev pub sink_of : List Edge → ℕ
sink_of [] = 0
sink_of (out ∷ _) = out.to

unfoldable pub deoptimize_sink : ℕ → List Edge → InstructionGraph → InstructionGraph
unfolding clear_escape deoptimize_consumer
deoptimize_sink i outs g = record g {
  instructions = map (deoptimize_consumer (sink_of outs)) (map (clear_escape i) g.instructions);
}

-- The rules for one instruction that is escaped, the first that applies.
unfoldable pub deoptimize_rules : Bool → Instruction → InstructionGraph → InstructionGraph
unfolding lone_producer lone_consumer isolated feeds_sink deoptimize_sink
deoptimize_rules effect_is_right x g =
    let ins = get_edges g.edges x.index in
    let outs = get_edges_from g.edges x.index in
    if not effect_is_right
    then record (deoptimize x.index g) { invalid = true }
    else if lone_producer g.instructions ins outs
    then deoptimize x.index g
    else if lone_consumer g.instructions ins outs
    then deoptimize x.index g
    else if isolated g.instructions ins outs
    then deoptimize x.index g
    else if feeds_sink g.instructions g.edges ins outs
    then deoptimize_sink x.index outs g
    else g

unfoldable pub has_right_effect : StackEffect → List Edge → Instruction → Bool
has_right_effect effect es x =
    eq_ℤ (effect x.opcode x.oparg)
      (sub_ℕ (length (get_edges_from es x.index)) (length (get_edges es x.index)))

unfoldable pub is_for_iter : Opcode → Bool
is_for_iter for_iter = true
is_for_iter _ = false

-- One round of the loop: the instruction as the earlier rounds have left it.
unfoldable pub deoptimize_instruction :
    StackEffect → Instruction → InstructionGraph → InstructionGraph
unfolding deoptimize_rules has_right_effect is_for_iter is_fast_local escape_at
deoptimize_instruction effect x g =
    if escape_at g.instructions x.index
      && (not (is_fast_local x.opcode) && not (is_for_iter x.opcode))
    then deoptimize_rules (has_right_effect effect g.edges x) x g
    else g

unfoldable pub deoptimize_loop :
    StackEffect → List Instruction → InstructionGraph → InstructionGraph
unfolding deoptimize_instruction
deoptimize_loop effect [] g = g
deoptimize_loop effect (x ∷ xs) g = deoptimize_loop effect xs (deoptimize_instruction effect x g)

unfoldable pub deoptimize_instructions : StackEffect → InstructionGraph → InstructionGraph
unfolding deoptimize_loop
deoptimize_instructions effect g = deoptimize_loop effect g.instructions g
