-- ===== src/Interpreter/Safety/Worklist.antt =====
-- The prefixes of an opcode and the worklist (Step.antt, Loop.antt): every index that the analysis
-- visits has a start state.
use pyjion.Prelude.{
  ltb, ◌≡◌, ◌≢◌, refl, sym, ℕ, zero, suc, ◌+◌, if◌then◌else◌, Bool, true, false, Option, none, some,
  List, [], ◌∷◌, All,
}
use pyjion.Opcode.{Opcode}
use pyjion.State.{InterpreterState}
use pyjion.Interpreter.{
  Context, Machine, stack_underflow, stack_imbalance, undefined, Result, ok, fault, Action, pure,
  ◌>>=◌, Flow, next, next_block, finished,
}
use pyjion.Interpreter.Step.{is_extended_arg, process, load_start, interpret_index}
use pyjion.Interpreter.Contracts.{IsValid, IsStarted}
use mathlib.Core.Path.{subst}
use pyjion.Interpreter.Safety.{Sound, IsSound, bind-IsSound, state-IsSound, update-IsSound}
use pyjion.Interpreter.Safety.Rounds.{Continues, process_opcode-IsSound, enter_handler-IsSound}
use pyjion.Interpreter.Loop.{
  Position, at_index, between, done, after_flow, take_queue, settle, advance,
}

-- The same for an opcode that is found after its prefixes.
abbrev pub Follows : ℕ × Flow → Machine → Type 0
Follows (cur, flow) m = Continues cur flow m

module _ (ctx : Context) (size : ℕ) where
  paired_Sound :
      (cur : ℕ) (m : Machine) (r : Result Flow)
      → Sound ctx size (Continues cur) m r
      → Sound ctx size Follows m (elim r [ ok flow m' ↦ ok (cur, flow) m' | fault e ↦ fault e ])
  paired_Sound cur m (ok flow m') p = p
  paired_Sound cur m (fault stack_underflow) p = p
  paired_Sound cur m (fault stack_imbalance) p = p
  paired_Sound cur m (fault undefined) p = p

module _ {ctx : Context} {size : ℕ} where
  paired-IsSound :
      (cur : ℕ) {f : Action Flow}
      → IsSound ctx size cur Flow (Continues cur) f
      → IsSound ctx size cur (ℕ × Flow) Follows (f >>= λ flow. pure (cur, flow))
  unfolding ◌>>=◌
  paired-IsSound cur {f = f} p = record {
    run = λ m v s. paired_Sound ctx size cur m (f m) (p.run m v s);
  }

  elim-IsSound :
      {A : Type 0} {P : A → Machine → Type 0} {cur : ℕ} (b : Bool) {f g : Action A}
      → IsSound ctx size cur A P f
      → IsSound ctx size cur A P g
      → IsSound ctx size cur A P (elim b [ true ↦ f | false ↦ g ])
  elim-IsSound true p q = p
  elim-IsSound false p q = q

  process-IsSound :
      (n cur : ℕ) (opcode : Opcode) (oparg : ℕ)
      → opcode ≡ ctx.code.opcode_at cur
      → IsSound ctx size cur (ℕ × Flow) Follows (process n ctx cur opcode oparg)
  unfolding process
  process-IsSound zero cur opcode oparg e = record { run = λ m v s. tt }
  process-IsSound (suc n) cur opcode oparg e =
      elim-IsSound (is_extended_arg opcode)
        (bind-IsSound (enter_handler-IsSound cur) (λ entered. state-IsSound (λ state count.
          update-IsSound _ state (cur + 2) count (λ b m v s t.
            (elim-IsSound (ltb (cur + 2) ctx.code.size)
                (process-IsSound n (cur + 2) (ctx.code.opcode_at (cur + 2)) _ refl)
                (record { run = λ m v s. tt })).run
              m v t))))
        (paired-IsSound cur (process_opcode-IsSound opcode oparg e))

  loaded_Sound :
      {A : Type 0} (P : A → Machine → Type 0) (cur : ℕ) (m : Machine) (f : Action A)
      (o : Option InterpreterState)
      → IsValid ctx size m
      → m.start_states cur ≡ o
      → o ≢ none
      → IsSound ctx size cur A P f
      → Sound ctx size P m ((load_start o >>= λ u. f) m)
  unfolding load_start ◌>>=◌
  loaded_Sound P cur m f none v e s p = absurd (s refl)
  loaded_Sound P cur m f (some state) v e s p =
      p.run (record m { state = state; pgc_required = false; pgc_size = 0 })
        (record {
          local_count = v.start_counts cur state e;
          start_counts = v.start_counts;
          queued = v.queued;
          blocks = v.blocks;
        })
        (subst (λ o. o ≢ none) (sym e) s)

  interpret_index-IsSound :
      (cur : ℕ) → IsSound ctx size cur (ℕ × Flow) Follows (interpret_index ctx cur)
  unfolding interpret_index ◌>>=◌
  interpret_index-IsSound cur = record {
    run = λ m v s.
        loaded_Sound Follows cur m _ (m.start_states cur) v refl s
          (process-IsSound ctx.code.size cur (ctx.code.opcode_at cur) (ctx.code.byte_at cur) refl);
  }

-- Where the run is within a block, the index has a start state.
abbrev pub IsReached : Position → Machine → Type 0
IsReached (at_index i) m = IsStarted m i
IsReached between m = Unit
IsReached (done r) m = Unit

module _ (ctx : Context) (size : ℕ) where
  settle-Sound :
      (m : Machine) (r : Result (ℕ × Flow))
      → Sound ctx size Follows m r
      → Sound ctx size IsReached m (settle r)
  unfolding settle after_flow
  settle-Sound m (ok (cur, next skip jump) m') p = p
  settle-Sound m (ok (cur, next_block) m') p = p
  settle-Sound m (ok (cur, finished r) m') p = p
  settle-Sound m (fault stack_underflow) p = p
  settle-Sound m (fault stack_imbalance) p = p
  settle-Sound m (fault undefined) p = p

  taken_Sound :
      (m : Machine) (queue : List ℕ)
      → m.queue ≡ queue
      → IsValid ctx size m
      → Sound ctx size IsReached m (let (p, m') = take_queue queue m in ok p m')
  unfolding take_queue
  taken_Sound m [] e v = (v, λ i s. s, tt)
  taken_Sound m (i ∷ is) e v =
      let (first, rest) : All (IsStarted m) (i ∷ is) = subst (All (IsStarted m)) e v.queued in
      (
        record {
          local_count = v.local_count;
          start_counts = v.start_counts;
          queued = rest;
          blocks = v.blocks;
        },
        λ j s. s,
        first,
      )

  if_Sound :
      (m : Machine) (b : Bool) (r r' : Result Position)
      → Sound ctx size IsReached m r
      → Sound ctx size IsReached m r'
      → Sound ctx size IsReached m (if b then r else r')
  if_Sound m true r r' p q = p
  if_Sound m false r r' p q = q

  -- A step of the loops from a valid machine, at an index that has a start state if at one, leads to
  -- such a machine and such an index, keeps the start states that there are, and throws no
  -- `StackImbalanceException`.
  pub advance-Sound :
      (p : Position) (m : Machine)
      → IsValid ctx size m
      → IsReached p m
      → Sound ctx size IsReached m (advance ctx p m)
  unfolding advance
  advance-Sound (at_index cur) m v s =
      if_Sound m (ltb cur ctx.code.size) _ _
        (settle-Sound m (interpret_index ctx cur m) ((interpret_index-IsSound cur).run m v s))
        (v, λ i q. q, tt)
  advance-Sound between m v s = taken_Sound m m.queue refl v
  advance-Sound (done r) m v s = (v, λ i q. q, tt)

-- A step of the loops of `interpret` from a valid machine, at an index that has a start state if it
-- is at one, leads to a valid machine, and to an index that has a start state if to one.
pub advance-IsValid :
    (ctx : Context) (size : ℕ) (p q : Position) (m n : Machine)
    → IsValid ctx size m
    → IsReached p m
    → advance ctx p m ≡ ok q n
    → IsValid ctx size n × IsReached q n
advance-IsValid ctx size p q m n v r e =
    let (valid, kept, reached) : Sound ctx size IsReached m (ok q n) =
      subst (Sound ctx size IsReached m) e (advance-Sound ctx size p m v r) in
    (valid, reached)
