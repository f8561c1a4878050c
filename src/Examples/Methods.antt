-- ===== src/Examples/Methods.antt =====
-- The table of methods, from an empty module.
use pyjion.Prelude.{◌≡◌, ◌≢◌, refl, ℕ, none, some, []}
use pyjion.CodeModel.{JitMethod, BaseModule, add_method, add_at, register_symbol, resolve_method}
use pyjion.CodeModel.Tokens.{IsFresh, add_method-IsFresh, add_method_twice}

abbrev new_module : BaseModule
new_module = record {
  existing_slots = λ a. none;
  slot_cursor = 0;
  methods = λ t. none;
  symbol_table = λ t. none;
}

abbrev method : JitMethod
method = record { return_type = 1; params = []; addr = 4096 }

first_token : (add_method method "typeslot" new_module).0 ≡ 0x0010_0001
unfolding add_method add_at register_symbol
first_token = refl

add_method-IsFresh_example :
    IsFresh (add_method method "typeslot" new_module).1
    × (new_module.methods (add_method method "typeslot" new_module).0 ≡ none)
    × (resolve_method new_module
          (add_method method "typeslot" new_module).1
          (add_method method "typeslot" new_module).0
        ≡ some method)
    × ((token : ℕ) (n : JitMethod)
        → new_module.methods token ≡ some n
        → (add_method method "typeslot" new_module).1.methods token ≡ some n)
add_method-IsFresh_example =
    add_method-IsFresh method "typeslot" new_module new_module ((λ a. refl), λ t h. refl)

add_method_twice_example :
    (add_method method "typeslot" (add_method method "typeslot" new_module).1).0
    ≢ (add_method method "typeslot" new_module).0
add_method_twice_example = add_method_twice method "typeslot" new_module refl
