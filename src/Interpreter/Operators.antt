-- ===== src/Interpreter/Operators.antt =====
-- The opcodes of `interpret` that compute, build, and take names (src/pyjion/absint.cpp).
use pyjion.Prelude.{ℕ, ◌/◌, ◌%◌, if◌then◌else◌, ◌&&◌, Option, none, some}
use pyjion.Kind.{AbstractValueKind, avk_any}
use pyjion.Opcode.{BinaryOp, UnaryOp}
use pyjion.Source.{global_source, builtin_source}
use pyjion.Value.{
  list_value, Settings, AbstractValue, PyTypeObject, any_value, volatile_value, pgc_value, kind,
  avk_to_abstract_value, get_abstract_type, get_py_type,
}
use pyjion.Binary.{binary, unary, compare, iter, item}
use pyjion.Links.{update}
use pyjion.State.{ValueWithSources}
use pyjion.AttributeTable.{get_attr, capture_store_attr}
use pyjion.Interpreter.{Context, Name, PyObject, undefined, Action, pure, raise, ◌>>=◌, ◌>>◌, Flow}
use pyjion.Interpreter.Actions.{
  gets, modify, or_undefined, item_at, rounds, pop_value, pop_values, push, push_fresh, push_many,
  add_opcode_source,
}
use pyjion.Interpreter.Profiled.{probe_if, known, class_at}
use pyjion.Interpreter.Shuffles.{go_on}

-- The opcodes that pop some values and push one of a fixed kind.
unfoldable pub build : ℕ → ℕ → AbstractValue → Action Flow
unfolding pop_values push_fresh
build cur n v = do pop_values cur n; push_fresh cur v; go_on

unfoldable pub discard : ℕ → ℕ → Action Flow
unfolding pop_values
discard cur n = do pop_values cur n; go_on

unfoldable pub handle_binary : Context → ℕ → BinaryOp → Action Flow
unfolding probe_if pop_value class_at binary push_fresh
handle_binary ctx cur op = do
  probe_if ctx.pgc_ready ctx cur 2 2
  two ← pop_value cur
  one ← pop_value cur
  sources ← gets (λ m. m.sources)
  push_fresh cur (binary ctx.settings one.value op two.value (class_at sources two.sources))
  go_on

unfoldable pub handle_compare : Context → ℕ → Action Flow
unfolding probe_if pop_value compare push_fresh
handle_compare ctx cur = do
  probe_if ctx.pgc_ready ctx cur 2 2
  two ← pop_value cur
  one ← pop_value cur
  push_fresh cur (compare ctx.settings one.value two.value)
  go_on

unfoldable pub handle_unary : ℕ → UnaryOp → Action Flow
unfolding pop_value unary push_fresh
handle_unary cur op = do v ← pop_value cur; push_fresh cur (unary v.value op); go_on

unfoldable pub handle_get_iter : ℕ → Action Flow
unfolding pop_value iter push_fresh
handle_get_iter cur = do v ← pop_value cur; push_fresh cur (iter v.value); go_on

-- `i < oparg >> 8` on a signed number
unfoldable pub high_rounds : ℕ → ℕ
unfolding rounds
high_rounds oparg = rounds oparg / 256

unfoldable pub handle_unpack_ex : ℕ → ℕ → Action Flow
unfolding pop_value push_many push_fresh high_rounds
handle_unpack_ex cur oparg = do
  pop_value cur
  push_many cur any_value (high_rounds oparg)
  push_fresh cur list_value
  push_many cur any_value (oparg % 256)
  go_on

unfoldable pub handle_unpack_sequence : Context → ℕ → ℕ → Action Flow
unfolding probe_if pop_value push_many rounds item
handle_unpack_sequence ctx cur oparg = do
  probe_if ctx.pgc_ready ctx cur 1 1
  container ← pop_value cur
  push_many cur (item container.value) (rounds oparg)
  go_on

unfoldable pub handle_store_subscr : Context → ℕ → Action Flow
unfolding probe_if pop_values
handle_store_subscr ctx cur = do probe_if ctx.pgc_ready ctx cur 3 3; pop_values cur 3; go_on

unfoldable pub resolve_global : ℕ → Option PyObject → Action (Unit {0})
resolve_global oparg v =
    modify (λ m. record m { last_resolved_global = update m.last_resolved_global oparg (some v) })

unfoldable pub load_builtin : Context → ℕ → ℕ → Name → Option PyObject → Action (Unit {0})
unfolding push_fresh resolve_global add_opcode_source push get_abstract_type avk_to_abstract_value
load_builtin ctx cur oparg name none = do push_fresh cur any_value; resolve_global oparg none
load_builtin ctx cur oparg name (some v) = do
  s ← add_opcode_source cur (builtin_source name.text)
  push (record {
    value = avk_to_abstract_value (get_abstract_type ctx.settings v.type none);
    sources = s;
  })
  resolve_global oparg (some v)

unfoldable pub load_global_value : Context → ℕ → ℕ → Name → Option PyObject → Action (Unit {0})
unfolding load_builtin
load_global_value ctx cur oparg name none = load_builtin ctx cur oparg name (ctx.builtins name.text)
load_global_value ctx cur oparg name (some v) = do
  s ← add_opcode_source cur (global_source name.text)
  push (record { value = volatile_value (some v.type) (some v.digits); sources = s })
  resolve_global oparg (some v)

unfoldable pub handle_load_global : Context → ℕ → ℕ → Action Flow
unfolding item_at load_global_value
handle_load_global ctx cur oparg = do
  name ← or_undefined (item_at ctx.code.names oparg)
  load_global_value ctx cur oparg name (ctx.globals name.text)
  go_on

-- The overrides of `pythonType`.
unfoldable pub python_type : Settings → AbstractValue → Option PyTypeObject
unfolding get_py_type kind
python_type s (volatile_value t v) = t
python_type s (pgc_value t k) = t
python_type s v = get_py_type (kind s v)

unfoldable pub attribute_value : AbstractValueKind → AbstractValue
unfolding get_py_type
attribute_value avk_any = any_value
attribute_value k = pgc_value (get_py_type k) k

unfoldable pub load_attribute : Context → ℕ → ValueWithSources → Option Name → Action (Unit {0})
unfolding get_attr python_type attribute_value push_fresh
load_attribute ctx cur obj none = raise undefined
load_attribute ctx cur obj (some name) = do
  table ← gets (λ m. m.attributes)
  push_fresh cur
      (attribute_value (get_attr table (python_type ctx.settings obj.value) name.address))

unfoldable pub handle_load_attr : Context → ℕ → ℕ → Action Flow
unfolding probe_if pop_value known item_at load_attribute push_fresh
handle_load_attr ctx cur oparg = do
  probe_if ctx.pgc_ready ctx cur 1 1
  obj ← pop_value cur
  (if ctx.attr_type_table && known ctx.settings obj.value
      then load_attribute ctx cur obj (item_at ctx.code.names oparg)
      else push_fresh cur any_value)
  go_on

unfoldable pub store_attribute :
    Context → ValueWithSources → ValueWithSources → Option Name → Action (Unit {0})
unfolding capture_store_attr python_type kind
store_attribute ctx obj v none = raise undefined
store_attribute ctx obj v (some name) = modify (λ m. record m {
  attributes =
      (capture_store_attr m.attributes (python_type ctx.settings obj.value) name.address
        (kind ctx.settings v.value)).0;
})

unfoldable pub handle_store_attr : Context → ℕ → ℕ → Action Flow
unfolding pop_value known item_at store_attribute
handle_store_attr ctx cur oparg = do
  obj ← pop_value cur
  v ← pop_value cur
  (if ctx.attr_type_table && (known ctx.settings obj.value && known ctx.settings v.value)
      then store_attribute ctx obj v (item_at ctx.code.names oparg)
      else pure tt)
  go_on
