-- ===== src/Interpreter/Calls.antt =====
-- The opcodes of `interpret` that call and that make functions (src/pyjion/absint.cpp).
use pyjion.Prelude.{
  ℕ, ◌+◌, ◌*◌, ◌/◌, ◌%◌, ◌^◌, ◌==◌, ltb, if◌then◌else◌, Bool, true, false, ◌&&◌, Option, some,
}
use pyjion.Kind.{AbstractValueKind, avk_method}
use pyjion.Source.{SourceClass, local_source, method_source}
use pyjion.Value.{
  Settings, any_value, method_value, function_value, string_value, kind, avk_to_abstract_value,
}
use pyjion.State.{ValueWithSources}
use pyjion.KnownMethods.{known_function_return_type, resolve_method}
use pyjion.Interpreter.{Context, undefined, Action, raise, ◌>>=◌, ◌>>◌, Flow}
use pyjion.Interpreter.Actions.{
  gets, or_undefined, item_at, rounds, pop_value, pop_values, push, new_source, push_fresh,
}
use pyjion.Interpreter.Profiled.{probe_if, known, class_at}
use pyjion.Interpreter.Shuffles.{go_on, renew}

-- The rounds of `PGC_UPDATE_STACK(oparg + 1)`.
unfoldable pub rounds_after : ℕ → ℕ
rounds_after oparg = if ltb oparg (2 ^ 15) then oparg + 1 else 0

unfoldable pub handle_call_function : Context → ℕ → ℕ → Action Flow
unfolding probe_if rounds_after pop_values pop_value known_function_return_type class_at
    avk_to_abstract_value new_source push
handle_call_function ctx cur oparg = do
  probe_if ctx.pgc_ready ctx cur ((oparg + 1) % 2 ^ 16) (rounds_after oparg)
  pop_values cur (oparg % 256)
  pop_values cur (2 * (oparg / 256 % 256))
  func ← pop_value cur
  sources ← gets (λ m. m.sources)
  s ← new_source local_source cur
  push (record {
    value = avk_to_abstract_value (known_function_return_type (class_at sources func.sources));
    sources = some s;
  })
  go_on

unfoldable pub handle_call_function_kw : ℕ → ℕ → Action Flow
unfolding pop_value pop_values rounds push_fresh
handle_call_function_kw cur oparg = do
  pop_value cur
  pop_values cur (rounds oparg)
  pop_value cur
  push_fresh cur any_value
  go_on

-- Whether the bit of value `b` is set.
unfoldable pub has_bit : ℕ → ℕ → Bool
has_bit oparg b = oparg / b % 2 == 1

unfoldable pub pop_if : ℕ → Bool → Action (Unit {0})
unfolding pop_values
pop_if cur test = pop_values cur (if test then 1 else 0)

unfoldable pub handle_call_function_ex : ℕ → ℕ → Action Flow
unfolding pop_if has_bit pop_value push_fresh
handle_call_function_ex cur oparg = do
  pop_if cur (has_bit oparg 1)
  pop_value cur
  pop_value cur
  push_fresh cur any_value
  go_on

unfoldable pub handle_make_function : ℕ → ℕ → Action Flow
unfolding pop_if has_bit pop_value push_fresh
handle_make_function cur oparg = do
  pop_value cur
  pop_value cur
  pop_if cur (has_bit oparg 8)
  pop_if cur (has_bit oparg 4)
  pop_if cur (has_bit oparg 2)
  pop_if cur (has_bit oparg 1)
  push_fresh cur function_value
  go_on

-- `FVS_MASK` and `FVS_HAVE_SPEC` are CPython's bit of value 4.
unfoldable pub handle_format_value : ℕ → ℕ → Action Flow
unfolding pop_if has_bit pop_value push_fresh
handle_format_value cur oparg = do
  pop_if cur (has_bit oparg 4)
  pop_value cur
  push_fresh cur string_value
  go_on

unfoldable pub handle_load_method : Context → ℕ → ℕ → Action Flow
unfolding pop_value item_at new_source renew push
handle_load_method ctx cur oparg = do
  object ← pop_value cur
  name ← or_undefined (item_at ctx.code.names oparg)
  s ← new_source (method_source name.text) cur
  object' ← renew cur object
  push object'
  push (record { value = method_value; sources = some s })
  go_on

unfoldable pub is_method : AbstractValueKind → Bool
is_method avk_method = true
is_method _ = false

-- The call of a method whose source was made by `LOAD_METHOD`; any other source makes the
-- `dynamic_cast` a null pointer.
unfoldable pub push_method_result :
    Settings → ℕ → ValueWithSources → Option SourceClass → Action (Unit {0})
unfolding kind resolve_method avk_to_abstract_value push_fresh
push_method_result s cur self (some (method_source name)) =
    push_fresh cur
      (avk_to_abstract_value (resolve_method (avk_to_abstract_value (kind s self.value)) name))
push_method_result s cur self _ = raise undefined

unfoldable pub handle_call_method : Context → ℕ → ℕ → Action Flow
unfolding probe_if rounds_after pop_values rounds pop_value is_method kind known push_method_result
    class_at push_fresh
handle_call_method ctx cur oparg = do
  probe_if ctx.pgc_ready ctx cur ((oparg + 1) % 2 ^ 16) (rounds_after oparg)
  pop_values cur (rounds oparg)
  method ← pop_value cur
  self ← pop_value cur
  sources ← gets (λ m. m.sources)
  (if is_method (kind ctx.settings method.value) && known ctx.settings self.value
      then push_method_result ctx.settings cur self (class_at sources method.sources)
      else push_fresh cur any_value)
  go_on
