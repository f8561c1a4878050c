-- ===== src/Interpreter/Shuffles.antt =====
-- The opcodes of `interpret` that move values on the stack, and load and store locals
-- (src/pyjion/absint.cpp).
use pyjion.Prelude.{ℕ, leb, if◌then◌else◌, ite, Bool, true, false, ◌&&◌, none, some, List, [], ◌∷◌}
use pyjion.Kind.{AbstractValueKind, avk_any, avk_integer, avk_big_integer, avk_float, avk_string}
use pyjion.Source.{PyConst, py_long, py_object, local_source, const_source}
use pyjion.Value.{
  Settings, PyTypeObject, AbstractValue, any_value, undefined_value, bool_value, bytes_value,
  complex_value, integer_value, big_integer_value, string_value, float_value, list_value,
  dict_value, set_value, none_value, function_value, tuple_value, is_big, get_abstract_type,
}
use pyjion.State.{ValueWithSources}
use pyjion.AttributeTable.{PyTypeObject-discrete}
use pyjion.Interpreter.{
  Context, PyObject, Constant, py_none, py_text, py_list, py_dict, py_bool, py_float, py_bytes,
  py_set, py_complex, py_function, py_other, py_int, py_tuple, Action, pure, ◌>>=◌, ◌>>◌, Flow,
  next,
}
use pyjion.Interpreter.Actions.{
  or_undefined, item_at, pop_value, push, new_intermediate, combine_sources, set_opcode_sources,
  add_opcode_source, get_local, replace_local,
}
use pyjion.Interpreter.Profiled.{probe_if}

abbrev pub go_on : Action Flow
go_on = pure (next false false)

-- `v.Sources = newSource(new IntermediateSource(cur))`
unfoldable pub renew : ℕ → ValueWithSources → Action ValueWithSources
unfolding new_intermediate
renew cur v = do s ← new_intermediate cur; pure (record v { sources = some s })

unfoldable pub handle_rot_two : ℕ → Action Flow
unfolding pop_value combine_sources set_opcode_sources renew push
handle_rot_two cur = do
  top ← pop_value cur
  second ← pop_value cur
  s ← combine_sources top.sources second.sources
  set_opcode_sources cur s
  top' ← renew cur top
  second' ← renew cur second
  push top'
  push second'
  go_on

unfoldable pub handle_rot_three : ℕ → Action Flow
unfolding pop_value combine_sources set_opcode_sources renew push
handle_rot_three cur = do
  top ← pop_value cur
  second ← pop_value cur
  third ← pop_value cur
  lower ← combine_sources second.sources third.sources
  s ← combine_sources top.sources lower
  set_opcode_sources cur s
  top' ← renew cur top
  second' ← renew cur second
  third' ← renew cur third
  push top'
  push third'
  push second'
  go_on

unfoldable pub handle_rot_four : ℕ → Action Flow
unfolding pop_value combine_sources set_opcode_sources renew push
handle_rot_four cur = do
  top ← pop_value cur
  second ← pop_value cur
  third ← pop_value cur
  fourth ← pop_value cur
  lowest ← combine_sources third.sources fourth.sources
  lower ← combine_sources second.sources lowest
  s ← combine_sources top.sources lower
  set_opcode_sources cur s
  top' ← renew cur top
  second' ← renew cur second
  third' ← renew cur third
  fourth' ← renew cur fourth
  push top'
  push fourth'
  push third'
  push second'
  go_on

unfoldable pub handle_dup_top : ℕ → Action Flow
unfolding pop_value renew push
handle_dup_top cur = do
  top ← pop_value cur
  first ← renew cur top
  push first
  again ← renew cur top
  push again
  go_on

unfoldable pub handle_dup_top_two : ℕ → Action Flow
unfolding pop_value renew push
handle_dup_top_two cur = do
  top ← pop_value cur
  second ← pop_value cur
  top' ← renew cur top
  second' ← renew cur second
  push second'
  push top'
  push second'
  push top'
  go_on

unfoldable pub tuple_of_kind : AbstractValueKind → AbstractValue
tuple_of_kind avk_string = tuple_value avk_string
tuple_of_kind avk_big_integer = tuple_value avk_big_integer
tuple_of_kind avk_integer = tuple_value avk_integer
tuple_of_kind avk_float = tuple_value avk_float
tuple_of_kind _ = tuple_value avk_any

unfoldable pub all_of_type : PyTypeObject → List PyObject → Bool
unfolding PyTypeObject-discrete
all_of_type t [] = true
all_of_type t (x ∷ xs) =
    ite (PyTypeObject-discrete (some x.type) (some t)) true false && all_of_type t xs

unfoldable pub tuple_to_abstract : Settings → List PyObject → AbstractValue
unfolding tuple_of_kind all_of_type get_abstract_type
tuple_to_abstract s [] = tuple_value avk_any
tuple_to_abstract s (x ∷ xs) =
    if all_of_type x.type xs
    then tuple_of_kind (get_abstract_type s x.type (some x.digits))
    else tuple_value avk_any

-- `toAbstract`
unfoldable pub to_abstract : Settings → Constant → AbstractValue
unfolding tuple_to_abstract is_big
to_abstract s py_none = none_value
to_abstract s (py_int v digits) = if is_big digits then big_integer_value else integer_value
to_abstract s py_text = string_value
to_abstract s py_list = list_value
to_abstract s py_dict = dict_value
to_abstract s (py_tuple items) = tuple_to_abstract s items
to_abstract s py_bool = bool_value
to_abstract s py_float = float_value
to_abstract s py_bytes = bytes_value
to_abstract s py_set = set_value
to_abstract s py_complex = complex_value
to_abstract s py_function = function_value
to_abstract s py_other = any_value

-- The constant as a source holds it.
unfoldable pub const_of : Constant → PyConst
const_of (py_int v digits) = py_long v
const_of _ = py_object

unfoldable pub handle_load_const : Context → ℕ → ℕ → Action Flow
unfolding item_at add_opcode_source to_abstract const_of push
handle_load_const ctx cur oparg = do
  c ← or_undefined (item_at ctx.code.consts oparg)
  s ← add_opcode_source cur (const_source (const_of c))
  push (record { value = to_abstract ctx.settings c; sources = s })
  go_on

unfoldable pub handle_load_fast : ℕ → ℕ → Action Flow
unfolding add_opcode_source get_local push
handle_load_fast cur oparg = do
  s ← add_opcode_source cur local_source
  l ← get_local oparg
  push (record l.value_info { sources = s })
  go_on

unfoldable pub is_undefined : AbstractValue → Bool
is_undefined undefined_value = true
is_undefined _ = false

unfoldable pub handle_store_fast : Context → ℕ → ℕ → Action Flow
unfolding probe_if pop_value set_opcode_sources replace_local is_undefined
handle_store_fast ctx cur oparg = do
  probe_if (ctx.pgc_ready && leb 2 ctx.optimization_level) ctx cur 1 1
  v ← pop_value cur
  set_opcode_sources cur v.sources
  replace_local oparg (record { value_info = v; is_maybe_undefined = is_undefined v.value })
  go_on

unfoldable pub handle_delete_fast : ℕ → Action Flow
unfolding replace_local
handle_delete_fast oparg = do
  replace_local oparg (record {
    value_info = record { value = undefined_value; sources = none };
    is_maybe_undefined = true;
  })
  go_on
