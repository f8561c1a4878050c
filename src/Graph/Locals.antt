-- ===== src/Graph/Locals.antt =====
-- `fixLocals` of the instruction graph (src/pyjion/instructions.cpp): which locals can be held
-- unboxed.
use pyjion.Prelude.{
  ℕ, zero, suc, ◌+◌, ◌-◌, ◌==◌, if◌then◌else◌, Bool, true, false, not, List, [], ◌∷◌, ◌&&◌, map,
}
use pyjion.Kind.{AbstractValueKind, avk_undefined, supports_escaping, kind_eq}
use pyjion.Opcode.{Opcode, load_fast, store_fast, delete_fast}
use pyjion.Graph.{Instruction, Edge, InstructionGraph, get_edges, get_edges_from}

unfoldable pub is_load_fast : Opcode → Bool
is_load_fast load_fast = true
is_load_fast _ = false

unfoldable pub is_store_fast : Opcode → Bool
is_store_fast store_fast = true
is_store_fast _ = false

unfoldable pub is_delete_fast : Opcode → Bool
is_delete_fast delete_fast = true
is_delete_fast _ = false

-- The variables of the loop over the instructions for one local.
pub record LocalScan : Type 0 where
  pub loads_can_be_escaped : Bool
  pub stores_can_be_escaped : Bool
  pub abstract_types_match : Bool
  pub local_avk : AbstractValueKind
  pub has_stores : Bool
  pub has_loads : Bool

abbrev pub first_scan : LocalScan
first_scan = record {
  loads_can_be_escaped = true;
  stores_can_be_escaped = true;
  abstract_types_match = true;
  local_avk = avk_undefined;
  has_stores = false;
  has_loads = false;
}

-- Two kinds of one local clash, unless none was seen before.
unfoldable pub clashes : AbstractValueKind → AbstractValueKind → Bool
unfolding kind_eq
clashes old new = not (kind_eq old avk_undefined) && not (kind_eq old new)

unfoldable pub note_kind : AbstractValueKind → LocalScan → LocalScan
unfolding clashes
note_kind k s = record s {
  abstract_types_match = if clashes s.local_avk k then false else s.abstract_types_match;
  local_avk = k;
}

-- A use is trusted if it has exactly one edge, of a kind that can escape.
unfoldable pub scan_load : List Edge → LocalScan → LocalScan
unfolding note_kind supports_escaping
scan_load (e ∷ []) s =
    if supports_escaping e.kind
    then note_kind e.kind (record s { has_loads = true })
    else record s { has_loads = true; loads_can_be_escaped = false }
scan_load _ s = record s { has_loads = true; loads_can_be_escaped = false }

unfoldable pub scan_store : List Edge → LocalScan → LocalScan
unfolding note_kind supports_escaping
scan_store (e ∷ []) s =
    if supports_escaping e.kind
    then note_kind e.kind (record s { has_stores = true })
    else record s { has_stores = true; stores_can_be_escaped = false }
scan_store _ s = record s { has_stores = true; stores_can_be_escaped = false }

unfoldable pub is_load_of : ℕ → Instruction → Bool
unfolding is_load_fast
is_load_of n x = is_load_fast x.opcode && (x.oparg == n)

unfoldable pub is_store_of : ℕ → Instruction → Bool
unfolding is_store_fast
is_store_of n x = is_store_fast x.opcode && (x.oparg == n)

unfoldable pub is_delete_of : ℕ → Instruction → Bool
unfolding is_delete_fast
is_delete_of n x = is_delete_fast x.opcode && (x.oparg == n)

unfoldable pub scan_instruction : ℕ → List Edge → Instruction → LocalScan → LocalScan
unfolding scan_load scan_store is_load_of is_store_of get_edges get_edges_from
scan_instruction n es x s =
    let loaded = if is_load_of n x then scan_load (get_edges_from es x.index) s else s in
    if is_store_of n x then scan_store (get_edges es x.index) loaded else loaded

unfoldable pub scan_local : ℕ → List Edge → List Instruction → LocalScan → LocalScan
unfolding scan_instruction
scan_local n es [] s = s
scan_local n es (x ∷ xs) s = scan_local n es xs (scan_instruction n es x s)

unfoldable pub can_unbox_local : LocalScan → Bool
can_unbox_local s =
    s.loads_can_be_escaped
    && (s.stores_can_be_escaped && (s.has_stores && (s.has_loads && s.abstract_types_match)))

unfoldable pub escape_local : ℕ → Instruction → Instruction
unfolding is_load_of is_store_of is_delete_of
escape_local n x =
    if is_load_of n x
    then record x { escape = true }
    else if is_store_of n x
    then record x { escape = true }
    else if is_delete_of n x
    then record x { escape = true }
    else x

-- The body of the loop over the locals.
unfoldable pub fix_local : ℕ → InstructionGraph → InstructionGraph
unfolding scan_local can_unbox_local escape_local
fix_local n g =
    let s = scan_local n g.edges g.instructions first_scan in
    if can_unbox_local s
    then record g {
      instructions = map (escape_local n) g.instructions;
      unboxed_fast_locals = (n, s.local_avk) ∷ g.unboxed_fast_locals;
    }
    else g

-- `count` locals from `start` on.
unfoldable pub fix_locals_from : ℕ → ℕ → InstructionGraph → InstructionGraph
unfolding fix_local
fix_locals_from zero start g = g
fix_locals_from (suc count) start g = fix_locals_from count (suc start) (fix_local start g)

-- The last index is included.
unfoldable pub fix_locals : ℕ → ℕ → InstructionGraph → InstructionGraph
unfolding fix_locals_from
fix_locals start_idx end_idx g = fix_locals_from (end_idx + 1 - start_idx) start_idx g
