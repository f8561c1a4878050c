-- ===== src/State.antt =====
-- The states of the abstract interpreter (src/pyjion/absint.h, src/pyjion/absvalue.h) and their
-- merging (src/pyjion/absint.cpp).
pub mod Merging
pub mod Termination
pub mod Fixpoint
pub mod Covering
pub mod Order
use pyjion.Prelude.{
  ℕ, zero, suc, ◌+◌, ◌==◌, if◌then◌else◌, Bool, true, false, not, ◌||◌, Option, none, some, List,
  [], ◌∷◌, not, ◌&&◌, same_bool, length, ite, ◌-◌, ◌++◌, replicate,
}
use native.Mathlib.Decide.{ℕ_discrete}
use pyjion.Kind.{avk_any}
use pyjion.Value.{
  Settings, AbstractValue, PyTypeObject, any_value, undefined_value, tuple_value, dict_value,
}
use pyjion.Binary.{merge_with}
use pyjion.Links.{SourceSets, combine, update}

-- `AbstractValueWithSources`. The source is a number into the sets of Links.antt, and `none` the
-- null pointer.
pub record ValueWithSources : Type 0 where
  pub value : AbstractValue
  pub sources : Option ℕ

-- `AbstractLocalInfo`
pub record LocalInfo : Type 0 where
  pub value_info : ValueWithSources
  pub is_maybe_undefined : Bool

-- The bottom of the stack is its first element.
pub record InterpreterState : Type 0 where
  pub stack : List ValueWithSources
  pub locals : List LocalInfo
  pub requires_pgc_probe : Bool
  pub pgc_probe_size : ℕ

unfoldable pub AbstractValue-discrete : Discrete AbstractValue
AbstractValue-discrete = hlevel (ℕ_discrete)

-- Whether two sources are both null, or both point to the same set.
unfoldable pub same_set : SourceSets → Option ℕ → Option ℕ → Bool
same_set h none none = true
same_set h none (some b) = false
same_set h (some a) none = false
same_set h (some a) (some b) = h.set_of a == h.set_of b

-- `AbstractValueWithSources::operator==`. The source compares the pointers of the values. It does
-- so only for a value and the outcome of merging it, which is that same object, the other one
-- where the first is the only `UndefinedValue`, or the only `AnyValue`; there equal pointers are
-- equal values.
unfoldable pub values_equal : SourceSets → ValueWithSources → ValueWithSources → Bool
unfolding AbstractValue-discrete same_set
values_equal h a b =
    ite (AbstractValue-discrete a.value b.value) (same_set h a.sources b.sources) false

-- `AbstractLocalInfo::operator!=`, negated.
unfoldable pub locals_equal : SourceSets → LocalInfo → LocalInfo → Bool
unfolding values_equal
locals_equal h a b =
    values_equal h b.value_info a.value_info && same_bool b.is_maybe_undefined a.is_maybe_undefined

-- `AbstractValueWithSources::mergeWith`
unfoldable pub merge_values :
    Settings → ValueWithSources → ValueWithSources → SourceSets → ValueWithSources × SourceSets
unfolding merge_with combine
merge_values s a b h = (
  record { value = merge_with s a.value b.value; sources = (combine a.sources b.sources h).0 },
  (combine a.sources b.sources h).1,
)

-- `AbstractLocalInfo::mergeWith`
unfoldable pub merge_local_infos :
    Settings → LocalInfo → LocalInfo → SourceSets → LocalInfo × SourceSets
unfolding merge_values
merge_local_infos s a b h = (
  record {
    value_info = (merge_values s a.value_info b.value_info h).0;
    is_maybe_undefined = a.is_maybe_undefined || b.is_maybe_undefined;
  },
  (merge_values s a.value_info b.value_info h).1,
)

-- What merging leaves in a slot, whether that is a change, and the sets.
pub record Merged {ℓ} (A : Type ℓ) : Type ℓ where
  pub result : A
  pub changed : Bool
  pub sets : SourceSets

-- The loop body for one slot: the slot is replaced only if the merged one differs from it.
unfoldable pub merge_slot {ℓ} :
    {A : Type ℓ}
    → (A → A → SourceSets → A × SourceSets)
    → (SourceSets → A → A → Bool)
    → A
    → A
    → SourceSets
    → Merged A
merge_slot merge equal old new h =
    let (merged, h') = merge old new h in
    if equal h' merged old
    then record { result = old; changed = false; sets = h' }
    else record { result = merged; changed = true; sets = h' }

-- The loop over the slots that both sides have; the others of the old side stay.
unfoldable pub merge_slots {ℓ} :
    {A : Type ℓ} → (A → A → SourceSets → Merged A) → List A → List A → SourceSets → Merged (List A)
merge_slots step [] news h = record { result = []; changed = false; sets = h }
merge_slots step (old ∷ olds) [] h = record { result = old ∷ olds; changed = false; sets = h }
merge_slots step (old ∷ olds) (new ∷ news) h =
    let first = step old new h in
    let rest = merge_slots step olds news first.sets in
    record {
      result = first.result ∷ rest.result;
      changed = first.changed || rest.changed;
      sets = rest.sets;
    }

abbrev pub merge_value_slot :
    Settings → ValueWithSources → ValueWithSources → SourceSets → Merged ValueWithSources
merge_value_slot s = merge_slot (merge_values s) values_equal

abbrev pub merge_local_slot : Settings → LocalInfo → LocalInfo → SourceSets → Merged LocalInfo
merge_local_slot s = merge_slot (merge_local_infos s) locals_equal

-- An empty stack takes the other side's.
unfoldable pub merge_stacks :
    Settings
    → List ValueWithSources
    → List ValueWithSources
    → SourceSets
    → Merged (List ValueWithSources)
unfolding merge_slots merge_slot merge_values values_equal
merge_stacks s [] [] h = record { result = []; changed = false; sets = h }
merge_stacks s [] (new ∷ news) h = record { result = new ∷ news; changed = true; sets = h }
merge_stacks s (old ∷ olds) news h = merge_slots (merge_value_slot s) (old ∷ olds) news h

-- `mergeStates`: the first state is the one that is merged into. `none` is the
-- `StackImbalanceException`. The source skips the locals where both states share one vector;
-- merging a vector with itself changes nothing.
unfoldable pub merge_states :
    Settings → InterpreterState → InterpreterState → SourceSets → Option (Merged InterpreterState)
unfolding merge_stacks merge_slots merge_slot merge_local_infos locals_equal
merge_states s merge_to new h =
    if not (length merge_to.locals == length new.locals)
    then none
    else (let locals = merge_slots (merge_local_slot s) merge_to.locals new.locals h in
        let stack = merge_stacks s merge_to.stack new.stack locals.sets in
        some (record {
          result = record merge_to { locals = locals.result; stack = stack.result };
          changed = locals.changed || stack.changed;
          sets = stack.sets;
        }))

-- The map `m_startStates`, with the sets and whether the state was new or changed.
pub record StartStates : Type 0 where
  pub state_at : ℕ → Option InterpreterState
  pub reported : Bool
  pub source_sets : SourceSets

unfoldable pub store_merged :
    (ℕ → Option InterpreterState) → ℕ → Option (Merged InterpreterState) → Option StartStates
store_merged states index none = none
store_merged states index (some m) = some (record {
  state_at = update states index (some m.result);
  reported = m.changed;
  source_sets = m.sets;
})

unfoldable pub update_at :
    Settings
    → (ℕ → Option InterpreterState)
    → InterpreterState
    → ℕ
    → Option InterpreterState
    → SourceSets
    → Option StartStates
unfolding merge_states store_merged
update_at s states new index none h =
    some (record { state_at = update states index (some new); reported = true; source_sets = h })
update_at s states new index (some initial) h =
    store_merged states index (merge_states s initial new h)

-- `updateStartState`
unfoldable pub update_start_state :
    Settings
    → (ℕ → Option InterpreterState)
    → InterpreterState
    → ℕ
    → SourceSets
    → Option StartStates
unfolding update_at
update_start_state s states new index h = update_at s states new index (states index) h

abbrev pub assigned : AbstractValue → LocalInfo
assigned v = record {
  value_info = record { value = v; sources = none };
  is_maybe_undefined = false;
}

abbrev pub unassigned : LocalInfo
unassigned = record {
  value_info = record { value = undefined_value; sources = none };
  is_maybe_undefined = true;
}

-- What `initStartingState` reads of the code object.
pub record CodeShape : Type 0 where
  pub argcount : ℕ
  pub kwonlyargcount : ℕ
  pub nlocals : ℕ
  pub varargs : Bool
  pub varkeywords : Bool

unfoldable pub parameter_locals : CodeShape → List LocalInfo
parameter_locals c =
    replicate (c.argcount + c.kwonlyargcount) (assigned any_value)
    ++ ((if c.varargs then assigned (tuple_value avk_any) ∷ [] else [])
        ++ (if c.varkeywords then assigned dict_value ∷ [] else []))

-- The locals of `initStartingState`, in a code object whose parameters are among its locals.
unfoldable pub starting_locals : CodeShape → List LocalInfo
unfolding parameter_locals
starting_locals c =
    let parameters = parameter_locals c in
    parameters ++ replicate (c.nlocals - length parameters) unassigned

-- `initStartingState`
unfoldable pub init_starting_state :
    Settings → (ℕ → Option InterpreterState) → CodeShape → SourceSets → Option StartStates
unfolding update_start_state starting_locals
init_starting_state s states c h =
    update_start_state s states
      (record {
        stack = [];
        locals = starting_locals c;
        requires_pgc_probe = false;
        pgc_probe_size = 0;
      })
      0 h
