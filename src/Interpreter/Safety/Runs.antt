-- ===== src/Interpreter/Safety/Runs.antt =====
-- Whole runs of the analysis, from the state that `initStartingState` makes.
use pyjion.Prelude.{
  ◌≡◌, ◌≢◌, refl, sym, ◌∙◌, inl, inr, ap, ℕ, true, false, Option, none, some, [], length,
}
use mathlib.Core.Path.{subst}
use mathlib.Core.Option.{some_inj}
use pyjion.Links.{SourceSets, update}
use pyjion.AttributeTable.{AttributeTable}
use pyjion.State.{
  InterpreterState, StartStates, CodeShape, init_starting_state, update_start_state,
  starting_locals,
}
use pyjion.Interpreter.{Context, Machine, Result, fault, stack_imbalance}
use pyjion.Interpreter.Loop.{Position, advance, Reaches, first, step, begin}
use pyjion.Interpreter.Contracts.{IsValid, restores}
use pyjion.Interpreter.Contracts.Updates.{update_cases, some≢none}
use pyjion.Interpreter.Safety.{Sound}
use pyjion.Interpreter.Safety.Worklist.{IsReached, advance-Sound, advance-IsValid}

-- Every position that a run from a valid machine comes to has a valid machine too, and a start
-- state if it is an index.
Reaches-IsValid :
    {ctx : Context} {size : ℕ} {start : Machine} (q : Position) (n : Machine)
    → IsValid ctx size start
    → Reaches ctx start q n
    → IsValid ctx size n × IsReached q n
Reaches-IsValid _ _ v first = (v, tt)
Reaches-IsValid {ctx = ctx} {size = size} _ _ v (step p q m n r e) =
    let (valid, reached) = Reaches-IsValid p m v r in
    advance-IsValid ctx size p q m n valid reached e

imbalanced-Sound :
    (ctx : Context) (size : ℕ) (m : Machine) (r : Result Position)
    → Sound ctx size IsReached m r
    → r ≢ fault stack_imbalance
imbalanced-Sound ctx size m r s e = subst (Sound ctx size IsReached m) e s

abbrev starting : CodeShape → InterpreterState
starting c = record {
  stack = [];
  locals = starting_locals c;
  requires_pgc_probe = false;
  pgc_probe_size = 0;
}

abbrev only_first : CodeShape → ℕ → Option InterpreterState
only_first c = update (λ i. none) 0 (some (starting c))

only_first_starting :
    (c : CodeShape) (i : ℕ) (s : InterpreterState)
    → only_first c i ≡ some s
    → length s.locals ≡ length (starting_locals c)
only_first_starting c i s e = elim (update_cases (λ j. none) 0 (some (starting c)) i) [
  | inl u ↦ sym (ap (λ (x : InterpreterState). length x.locals) (some_inj.0 (sym u ∙ e)))
  | inr u ↦ absurd (some≢none (sym e ∙ u))
]

pub begin-IsValid :
    (ctx : Context) (c : CodeShape) (sets : SourceSets) (attributes : AttributeTable)
    (starts : StartStates)
    → ((i : ℕ) → restores (ctx.code.opcode_at i) ≡ true → ctx.block_starts i ≡ 0)
    → init_starting_state ctx.settings (λ i. none) c sets ≡ some starts
    → IsValid ctx (length (starting_locals c)) (begin starts attributes)
unfolding init_starting_state update_start_state begin
begin-IsValid ctx c sets attributes starts h e =
    subst (λ (s : StartStates). IsValid ctx (length (starting_locals c)) (begin s attributes))
      (some_inj.0 e)
      (record {
        local_count = refl;
        start_counts = only_first_starting c;
        queued = (some≢none, tt);
        blocks = λ i r. subst (λ k. only_first c k ≢ none) (sym (h i r)) some≢none;
      })

-- A run of the analysis from `initStartingState`, of code that leaves no other block than one that
-- starts at index 0: where it comes to an index, that has a start state, and no step of it throws
-- a `StackImbalanceException`.
pub Reaches-IsReached :
    (ctx : Context) (c : CodeShape) (sets : SourceSets) (attributes : AttributeTable)
    (starts : StartStates) (q : Position) (n : Machine)
    → ((i : ℕ) → restores (ctx.code.opcode_at i) ≡ true → ctx.block_starts i ≡ 0)
    → init_starting_state ctx.settings (λ i. none) c sets ≡ some starts
    → Reaches ctx (begin starts attributes) q n
    → IsReached q n × (advance ctx q n ≢ fault stack_imbalance)
Reaches-IsReached ctx c sets attributes starts q n h e r =
    let count = length (starting_locals c) in
    let (valid, reached) = Reaches-IsValid q n (begin-IsValid ctx c sets attributes starts h e) r in
    (reached, imbalanced-Sound ctx count n _ (advance-Sound ctx count q n valid reached))
