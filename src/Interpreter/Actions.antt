-- ===== src/Interpreter/Actions.antt =====
-- The actions on the state that the handlers of `interpret` are made of (src/pyjion/absint.cpp,
-- absint.h). An oparg is an `int16_t` as its bit pattern.
use pyjion.Prelude.{
  ℕ, suc, zero, ◌^◌, ltb, if◌then◌else◌, Bool, Option, none, some, List, [], ◌∷◌, ◌++◌, length,
  get_elem?, set,
}
use pyjion.Source.{SourceClass, AbstractSource, intermediate_source, add_consumer}
use pyjion.Value.{AbstractValue}
use pyjion.Links.{combine, update}
use pyjion.State.{ValueWithSources, LocalInfo, InterpreterState, StartStates, update_start_state}
use pyjion.Interpreter.{
  Context, Machine, stack_underflow, stack_imbalance, undefined, ok, fault, Action, pure, raise,
  ◌>>=◌, ◌>>◌, unsnoc,
}

abbrev pub gets : {A : Type 0} → (Machine → A) → Action A
gets f m = ok (f m) m

abbrev pub modify : (Machine → Machine) → Action (Unit {0})
modify f m = ok tt (f m)

abbrev pub or_undefined : {A : Type 0} → Option A → Action A
or_undefined none = raise undefined
or_undefined (some a) = pure a

-- An index that the source reads as a signed number; a negative one is out of bounds.
unfoldable pub item_at : {A : Type 0} → List A → ℕ → Option A
item_at xs oparg = if ltb oparg (2 ^ 15) then get_elem? xs oparg else none

-- The rounds of a loop `for (i = 0; i < oparg; i++)`.
unfoldable pub rounds : ℕ → ℕ
rounds oparg = if ltb oparg (2 ^ 15) then oparg else 0

unfoldable pub consume : ℕ → ℕ → Option ℕ → List AbstractSource → List AbstractSource
unfolding add_consumer
consume index position none sources = sources
consume index position (some k) sources = elim (get_elem? sources k) [
  | none ↦ sources
  | some s ↦ set sources k (add_consumer index position s)
]

unfoldable pub pop_from :
    ℕ → ℕ → Option (List ValueWithSources × ValueWithSources) → Action ValueWithSources
unfolding consume
pop_from cur position none m = fault stack_underflow
pop_from cur position (some (rest, v)) m = ok v (record m {
  state = record m.state { stack = rest };
  sources = consume cur position v.sources m.sources;
})

-- `lastState.pop(cur, position)`
unfoldable pub pop : ℕ → ℕ → Action ValueWithSources
unfolding pop_from unsnoc
pop cur position m = pop_from cur position (unsnoc m.state.stack) m

-- `POP_VALUE()`
unfoldable pub pop_value : ℕ → Action ValueWithSources
unfolding pop
pop_value cur = do
  position ← gets (λ m. m.stack_position)
  v ← pop cur position
  modify (λ m. record m { stack_position = suc m.stack_position })
  pure v

unfoldable pub pop_values : ℕ → ℕ → Action (Unit {0})
unfolding pop_value
pop_values cur zero = pure tt
pop_values cur (suc n) = do pop_value cur; pop_values cur n

-- `lastState.push(v)`
unfoldable pub push : ValueWithSources → Action (Unit {0})
push v = modify (λ m. record m { state = record m.state { stack = m.state.stack ++ v ∷ [] } })

-- `newSource`: the set of a new source is that of its own number.
unfoldable pub new_source : SourceClass → ℕ → Action ℕ
new_source class producer m = ok (length m.sources) (record m {
  sources = m.sources ++ record { class = class; consumers = []; producer = producer } ∷ [];
})

-- `newSource(new IntermediateSource(cur))`
unfoldable pub new_intermediate : ℕ → Action ℕ
unfolding new_source
new_intermediate cur = new_source intermediate_source cur

-- A value with a fresh source.
unfoldable pub push_fresh : ℕ → AbstractValue → Action (Unit {0})
unfolding new_intermediate push
push_fresh cur v = do s ← new_intermediate cur; push (record { value = v; sources = some s })

unfoldable pub push_many : ℕ → AbstractValue → ℕ → Action (Unit {0})
unfolding push_fresh
push_many cur v zero = pure tt
push_many cur v (suc n) = do push_fresh cur v; push_many cur v n

-- `AbstractSource::combine`
unfoldable pub combine_sources : Option ℕ → Option ℕ → Action (Option ℕ)
unfolding combine
combine_sources a b m = let (s, sets) = combine a b m.sets in ok s (record m { sets = sets })

-- `m_opcodeSources[cur] = sources`
unfoldable pub set_opcode_sources : ℕ → Option ℕ → Action (Unit {0})
set_opcode_sources cur s =
    modify (λ m. record m { opcode_sources = update m.opcode_sources cur (some s) })

unfoldable pub known_source : ℕ → SourceClass → Option (Option ℕ) → Action (Option ℕ)
unfolding new_source set_opcode_sources
known_source cur class none = do
  s ← new_source class cur
  set_opcode_sources cur (some s)
  pure (some s)
known_source cur class (some s) = pure s

-- `addLocalSource`, `addGlobalSource`, `addBuiltinSource` and `addConstSource`, by the class of the
-- source that they make.
unfoldable pub add_opcode_source : ℕ → SourceClass → Action (Option ℕ)
unfolding known_source
add_opcode_source cur class = do s ← gets (λ m. m.opcode_sources cur); known_source cur class s

-- `lastState.getLocal(index)`
unfoldable pub get_local : ℕ → Action LocalInfo
unfolding item_at
get_local index = do l ← gets (λ m. item_at m.state.locals index); or_undefined l

-- `lastState.replaceLocal(index, info)`
unfoldable pub replace_local : ℕ → LocalInfo → Action (Unit {0})
unfolding get_local
replace_local index info = do
  get_local index
  modify (λ m. record m { state = record m.state { locals = set m.state.locals index info } })

unfoldable pub updated : Option StartStates → Action Bool
updated none m = fault stack_imbalance
updated (some s) m = ok s.reported (record m { start_states = s.state_at; sets = s.source_sets })

-- `updateStartState(state, index)`
unfoldable pub update_start : Context → InterpreterState → ℕ → Action Bool
unfolding updated
update_start ctx state index m =
    updated (update_start_state ctx.settings m.start_states state index m.sets) m

unfoldable pub enqueue_if : Bool → ℕ → Action (Unit {0})
enqueue_if changed target =
    modify (λ m. record m { queue = if changed then m.queue ++ target ∷ [] else m.queue })

-- The state flows to a jump target, which is queued if that changes its start state.
unfoldable pub branch_state : Context → InterpreterState → ℕ → Action Bool
unfolding update_start enqueue_if
branch_state ctx state target = do
  changed ← update_start ctx state target
  enqueue_if changed target
  pure changed

unfoldable pub branch_to : Context → ℕ → Action Bool
unfolding branch_state
branch_to ctx target = do state ← gets (λ m. m.state); branch_state ctx state target
