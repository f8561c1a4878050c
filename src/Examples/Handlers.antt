-- ===== src/Examples/Handlers.antt =====
-- The compiler's stack of kinds and its exception handlers, on small inputs.
use pyjion.Prelude.{◌≡◌, refl, arith, sym, ap, none, some, [], ◌∷◌}
use mathlib.Core.Option.{some_inj}
use pyjion.Kind.{stack_kind_object, stack_kind_value_int}
use pyjion.Interpreter.Contracts.Updates.{some≢none}
use pyjion.ValueStack.{inc, dec, dup_top, dec-inc}
use pyjion.ExceptionHandling.{
  ExceptionHandler, ExceptionHandlerManager, set_root_handler, add_setup_finally_handler,
  handler_at_offset, get_root_of, IsLinked, add_setup_finally_handler-IsLinked,
}

dec-inc_example :
    dec 6 (inc 6 stack_kind_object (stack_kind_value_int ∷ [])) ≡ some (stack_kind_value_int ∷ [])
dec-inc_example = dec-inc 6 stack_kind_object (stack_kind_value_int ∷ [])

underflow : dec 2 (stack_kind_object ∷ []) ≡ none
unfolding dec
underflow = refl

duplicated :
    dup_top (stack_kind_object ∷ stack_kind_value_int ∷ [])
    ≡ some (stack_kind_object ∷ stack_kind_value_int ∷ stack_kind_value_int ∷ [])
unfolding dup_top
duplicated = refl

abbrev no_handlers : ExceptionHandlerManager
no_handlers = record { exception_handlers = []; handler_indexes = λ i. none }

abbrev rooted : ExceptionHandlerManager
unfolding set_root_handler
rooted = (set_root_handler 7 no_handlers).1

rooted-IsLinked : IsLinked rooted.exception_handlers
unfolding set_root_handler
rooted-IsLinked = record {
  root = λ h e. sym (ap (λ (x : ExceptionHandler). x.back_handler) (some_inj.0 e));
  back = λ i h e. absurd (some≢none (sym e));
}

add_setup_finally_handler-IsLinked_example :
    IsLinked (add_setup_finally_handler 8 [] 0 20 rooted).1.exception_handlers
    × (handler_at_offset 20 (add_setup_finally_handler 8 [] 0 20 rooted).1
        ≡ some (add_setup_finally_handler 8 [] 0 20 rooted).0)
    × (get_root_of 2 (add_setup_finally_handler 8 [] 0 20 rooted).1.exception_handlers 1 ≡ some 0)
unfolding set_root_handler
add_setup_finally_handler-IsLinked_example =
    add_setup_finally_handler-IsLinked 8 [] 0 20 rooted 1 rooted-IsLinked (omega arith)
      (omega arith)
