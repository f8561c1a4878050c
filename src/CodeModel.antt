-- ===== src/CodeModel.antt =====
-- The table of methods that the emitted code calls (src/pyjion/codemodel.h, codemodel.cpp).
pub mod Tokens
use Prim.Native.String.{String}
use pyjion.Prelude.{ℕ, ◌+◌, Option, none, some, List}
use pyjion.Links.{update}

-- `JITMethod`. A `CorInfoType` is its number, and an address a number.
pub record JitMethod : Type 0 where
  pub return_type : ℕ
  pub params : List ℕ
  pub addr : ℕ

-- `slotCursor` is an `int` in the source and a number without a bound here, so the model is that of a
-- module with fewer than 2^31 - 2^20 methods.
pub record BaseModule : Type 0 where
  pub existing_slots : ℕ → Option ℕ
  pub slot_cursor : ℕ
  pub methods : ℕ → Option JitMethod
  pub symbol_table : ℕ → Option String

-- `METHOD_SLOT_SPACE`
abbrev pub method_slot_space : ℕ
method_slot_space = 0x0010_0000

unfoldable pub register_symbol : ℕ → String → BaseModule → BaseModule
register_symbol token label g = record g { symbol_table = update g.symbol_table token (some label) }

unfoldable pub add_at : JitMethod → String → Option ℕ → BaseModule → ℕ × BaseModule
unfolding register_symbol
add_at method label none g =
    let token = method_slot_space + (g.slot_cursor + 1) in
    (
      token,
      register_symbol token label (record g {
        slot_cursor = g.slot_cursor + 1;
        methods = update g.methods token (some method);
      }),
    )
add_at method label (some token) g = (token, g)

-- `BaseModule::AddMethod`
unfoldable pub add_method : JitMethod → String → BaseModule → ℕ × BaseModule
unfolding add_at
add_method method label g = add_at method label (g.existing_slots method.addr) g

unfoldable pub resolve_from : Option JitMethod → BaseModule → ℕ → Option JitMethod
resolve_from none parent token = parent.methods token
resolve_from (some method) parent token = some method

-- `UserModule::ResolveMethod`: what the module lacks is looked for in its parent. `none` is the
-- null pointer.
unfoldable pub resolve_method : BaseModule → BaseModule → ℕ → Option JitMethod
unfolding resolve_from
resolve_method parent user token = resolve_from (user.methods token) parent token
