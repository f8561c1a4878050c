-- ===== src/CodeModel/Tokens.antt =====
-- Tokens of methods are never given out twice (src/pyjion/codemodel.cpp).
use Prim.Native.String.{String}
use pyjion.Prelude.{
  ◌≡◌, ◌≢◌, refl, sym, ap, ◌∙◌, arith, ℕ, ◌+◌, ◌<◌, ◌==◌, ==_iff, Bool-cases, inl, inr, none, some,
}
use mathlib.Core.Option.{none-ne-some}
use pyjion.CodeModel.{
  JitMethod, BaseModule, method_slot_space, add_method, add_at, register_symbol, resolve_method,
  resolve_from,
}

-- No slot is known, and no token after the cursor has a method. A new module is so.
abbrev pub IsFresh : BaseModule → Type 0
IsFresh g =
    ((addr : ℕ) → g.existing_slots addr ≡ none)
    × ((token : ℕ) → method_slot_space + g.slot_cursor < token → g.methods token ≡ none)

-- Adding a method to a fresh module keeps it fresh and the methods that it has; the new token
-- had no method and is resolved to the new one, whatever the parent of the module.
pub add_method-IsFresh :
    (m : JitMethod) (label : String) (parent g : BaseModule)
    → IsFresh g
    → IsFresh (add_method m label g).1
      × (g.methods (add_method m label g).0 ≡ none)
      × (resolve_method parent (add_method m label g).1 (add_method m label g).0 ≡ some m)
      × ((token : ℕ) (n : JitMethod)
          → g.methods token ≡ some n
          → (add_method m label g).1.methods token ≡ some n)
unfolding add_method add_at register_symbol resolve_method resolve_from
add_method-IsFresh m label parent g (s, f) =
    let token = method_slot_space + (g.slot_cursor + 1) in
    let absent : g.methods token ≡ none = f token (omega arith) in
    rw (s m.addr) (
      (
        s,
        λ t h. elim (Bool-cases (token == t)) [
          | inl q ↦ absurd (omega (arith, h, (==_iff token t).0 q))
          | inr q ↦ rw q (f t (omega (arith, h)))
        ],
      ),
      absent,
      rw ((==_iff token token).1 refl) refl,
      λ t n e. elim (Bool-cases (token == t)) [
        | inl q ↦ absurd (none-ne-some n (sym absent ∙ ap g.methods ((==_iff token t).0 q) ∙ e))
        | inr q ↦ rw q e
      ],
    )

-- In a module that notes no slot for an address, a method that is added twice at it gets two
-- tokens: adding does not note the slot.
pub add_method_twice :
    (m : JitMethod) (label : String) (g : BaseModule)
    → g.existing_slots m.addr ≡ none
    → (add_method m label (add_method m label g).1).0 ≢ (add_method m label g).0
unfolding add_method add_at register_symbol
add_method_twice m label g s = rw (s, s) (λ e. omega (arith, e))
