-- ===== src/Interpreter/Profiled.antt =====
-- What the profile adds to the values on the stack: `fromPgc` (src/pyjion/absint.h) and the macros
-- `PGC_PROBE` and `PGC_UPDATE_STACK` (src/pyjion/absint.cpp).
use pyjion.Prelude.{
  ℕ, suc, zero, ◌-◌, ltb, if◌then◌else◌, Bool, true, false, ◌||◌, ◌&&◌, not, Option, none, some,
  List, length, get_elem?, set, ◌==◌,
}
use pyjion.Kind.{AbstractValueKind, is_known_type}
use pyjion.Source.{SourceClass, AbstractSource, class_has_const_value, class_is_builtin}
use pyjion.Value.{Settings, PyTypeObject, AbstractValue, volatile_value, pgc_value, kind}
use pyjion.Links.{update}
use pyjion.State.{ValueWithSources}
use pyjion.Interpreter.{Context, stack_underflow, undefined, Action, pure, raise, ◌>>=◌, ◌>>◌}
use pyjion.Interpreter.Actions.{gets, modify}

unfoldable pub needs_guard : AbstractValue → Bool
needs_guard (volatile_value t v) = true
needs_guard (pgc_value t k) = true
needs_guard _ = false

-- `known()`: a volatile value always answers yes.
unfoldable pub known : Settings → AbstractValue → Bool
unfolding is_known_type kind
known s (volatile_value t v) = true
known s (pgc_value t k) = true
known s v = is_known_type (kind s v)

unfoldable pub class_at : List AbstractSource → Option ℕ → Option SourceClass
class_at sources none = none
class_at sources (some k) = elim (get_elem? sources k) [ none ↦ none | some s ↦ some s.class ]

unfoldable pub is_const_or_builtin : Option SourceClass → Bool
unfolding class_has_const_value class_is_builtin
is_const_or_builtin none = false
is_const_or_builtin (some c) = class_has_const_value c || class_is_builtin c

unfoldable pub profiled :
    ValueWithSources → AbstractValueKind → Option PyTypeObject → ValueWithSources
profiled existing k none = existing
profiled existing k (some t) = record existing { value = pgc_value (some t) k }

-- `fromPgc`, for the value that it finds on the stack.
unfoldable pub from_pgc :
    Settings
    → List AbstractSource
    → ValueWithSources
    → Option PyTypeObject
    → AbstractValueKind
    → ValueWithSources
unfolding is_const_or_builtin class_at needs_guard known profiled
from_pgc s sources existing t k =
    if is_const_or_builtin (class_at sources existing.sources)
    then existing
    else if not (needs_guard existing.value) && known s existing.value
    then existing
    else profiled existing k t

unfoldable pub profile_value : Context → ℕ → ℕ → ℕ → Option ValueWithSources → Action (Unit {0})
unfolding from_pgc
profile_value ctx cur pos index none = raise undefined
profile_value ctx cur pos index (some existing) = modify (λ m. record m {
  state = record m.state {
    stack = set m.state.stack index (
        from_pgc ctx.settings m.sources existing (ctx.profile_type cur pos)
          (ctx.profile_kind cur pos));
  };
})

unfoldable pub profile_stack : Context → ℕ → ℕ → List ValueWithSources → Action (Unit {0})
unfolding profile_value
profile_stack ctx cur pos stack =
    if length stack == 0
    then raise stack_underflow
    else if ltb pos (length stack)
    then profile_value ctx cur pos (length stack - 1 - pos)
        (get_elem? stack (length stack - 1 - pos))
    else raise undefined

-- One round of `PGC_UPDATE_STACK`: `push_n` of `fromPgc` at `pos` below the top.
unfoldable pub profile_position : Context → ℕ → ℕ → Action (Unit {0})
unfolding profile_stack
profile_position ctx cur pos = do stack ← gets (λ m. m.state.stack); profile_stack ctx cur pos stack

-- `count` rounds, from `pos` on.
unfoldable pub profile_positions : Context → ℕ → ℕ → ℕ → Action (Unit {0})
unfolding profile_position
profile_positions ctx cur pos zero = pure tt
profile_positions ctx cur pos (suc count) = do
  profile_position ctx cur pos
  profile_positions ctx cur (suc pos) count

-- `PGC_UPDATE_STACK`
unfoldable pub update_stack : Context → ℕ → ℕ → Action (Unit {0})
unfolding profile_positions
update_stack ctx cur count = do
  profile_positions ctx cur 0 count
  modify (λ m. record m { start_states = update m.start_states cur (some m.state) })

-- `if (PGC_READY()) { PGC_PROBE(size); PGC_UPDATE_STACK(size); }`, for a test that may ask for
-- more. The size is a 16-bit pattern, and `count` the rounds of the loop.
unfoldable pub probe_if : Bool → Context → ℕ → ℕ → ℕ → Action (Unit {0})
unfolding update_stack
probe_if false ctx cur size count = pure tt
probe_if true ctx cur size count = do
  modify (λ m. record m { pgc_required = true; pgc_size = size })
  (if ctx.compiled_with_probes then update_stack ctx cur count else pure tt)
