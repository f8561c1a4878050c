-- ===== src/Interpreter/Loop.antt =====
-- The worklist of `interpret` (src/pyjion/absint.cpp).
use pyjion.State.{StartStates}
use pyjion.AttributeTable.{AttributeTable}
use pyjion.Prelude.{◌≡◌, false, none, ℕ, ◌+◌, ltb, if◌then◌else◌, List, [], ◌∷◌}
use pyjion.Interpreter.{
  Context, Machine, AbstractInterpreterResult, success, Result, ok, fault, Flow, next, next_block,
  finished,
}
use pyjion.Interpreter.Step.{interpret_index, state_or_empty}

-- Where the run is: at an index within a block, between two blocks, or at its end.
pub data Position : Type 0 where
  at_index : ℕ → Position
  between : Position
  done : AbstractInterpreterResult → Position

unfoldable pub after_flow : ℕ × Flow → Position
after_flow (cur, next skip_effect jump) = at_index (cur + 2)
after_flow (cur, next_block) = between
after_flow (cur, finished r) = done r

unfoldable pub take_queue : List ℕ → Machine → Position × Machine
take_queue [] m = (done success, m)
take_queue (i ∷ is) m = (at_index i, record m { queue = is })

unfoldable pub settle : Result (ℕ × Flow) → Result Position
unfolding after_flow
settle (ok r m) = ok (after_flow r) m
settle (fault e) = fault e

-- One step of the two loops: the test of the `for` loop and its body, or the next block.
unfoldable pub advance : Context → Position → Machine → Result Position
unfolding settle take_queue interpret_index
advance ctx (at_index cur) m =
    if ltb cur ctx.code.size then settle (interpret_index ctx cur m) else ok between m
advance ctx between m = let (p, m') = take_queue m.queue m in ok p m'
advance ctx (done r) m = ok (done r) m

-- The positions that a run comes to from the start of its first loop.
pub data Reaches (ctx : Context) (start : Machine) : Position → Machine → Type 0 where
  first : Reaches ctx start between start
  step :
      (p q : Position) (m n : Machine)
      → Reaches ctx start p m
      → advance ctx p m ≡ ok q n
      → Reaches ctx start q n

-- The variables of `interpret` where its first loop begins, for the states that `initStartingState`
-- leaves; `lastState` is not set yet, and stands as the state of the index 0.
unfoldable pub begin : StartStates → AttributeTable → Machine
unfolding state_or_empty
begin starts attributes = record {
  state = state_or_empty (starts.state_at 0);
  stack_position = 0;
  sources = [];
  sets = starts.source_sets;
  start_states = starts.state_at;
  queue = 0 ∷ [];
  opcode_sources = λ i. none;
  try_except_markers = λ i. none;
  last_resolved_global = λ i. none;
  attributes = attributes;
  pgc_required = false;
  pgc_size = 0;
}
