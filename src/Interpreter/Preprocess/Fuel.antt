-- ===== src/Interpreter/Preprocess/Fuel.antt =====
-- The end of the scan of `preprocess` (src/pyjion/absint.cpp): its fuel, and its reads at the end of
-- the code.
use pyjion.Prelude.{
  ◌≡◌, ◌≢◌, refl, sym, ap, ◌∙◌, arith, ℕ, zero, suc, ◌+◌, ◌*◌, ◌≤◌, ◌<◌, ltb, leb, ltb→lt,
  if◌then◌else◌, Bool, true, false, List, [], ◌∷◌,
}
use mathlib.Core.Path.{subst}
use pyjion.Opcode.{Opcode}
use pyjion.Interpreter.{Context, incompatible_compiler_flags, incompatible_size}
use pyjion.Interpreter.Step.{is_extended_arg}
use pyjion.Interpreter.Preprocess.{
  AbsIntBlockInfo, Scan, Scanned, scanned, rejected, missing_name, missing_opcode, out_of_fuel,
  close, and_then, leave_block, open_block, scan_from, start_scan, preprocess,
}
use pyjion.Interpreter.Preprocess.Outcomes.{
  ScansTo, stays, opens, leaves, deletes, rejects, misses, scan_opcode-ScansTo,
}

opposite : true ≢ false
opposite e = ground arith

-- The fuel is enough, and a read past the end of the code implies `R`.
abbrev Reads : Type 0 → Scanned → Type 0
Reads R (scanned s) = Unit
Reads R (rejected r) = Unit
Reads R missing_name = Unit
Reads R missing_opcode = R
Reads R out_of_fuel = ⊥

-- The last code unit is a prefix.
abbrev EndsWithPrefix : Context → Type 0
EndsWithPrefix ctx =
    (u : ℕ) × (2 * u < ctx.code.size)
    × (ctx.code.size ≤ 2 * u + 2)
    × (is_extended_arg (ctx.code.opcode_at (2 * u)) ≡ true)

module _ (R : Type 0) where
  leave_block-Reads :
      (index : ℕ) (blocks : List AbsIntBlockInfo) (s : Scan) → Reads R (leave_block index blocks s)
  unfolding leave_block
  leave_block-Reads index [] s = tt
  leave_block-Reads index (b ∷ bs) s = tt

  ScansTo-Reads : (index : ℕ) (s : Scan) (r : Scanned) → ScansTo index s r → Reads R r
  unfolding open_block
  ScansTo-Reads index s _ stays = tt
  ScansTo-Reads index s _ (opens target) = tt
  ScansTo-Reads index s _ leaves = leave_block-Reads index s.blocks s
  ScansTo-Reads index s _ (deletes oparg) = tt
  ScansTo-Reads index s _ (rejects r) = tt
  ScansTo-Reads index s _ misses = tt

  elim-Reads :
      (b : Bool) (r r' : Scanned)
      → (b ≡ true → Reads R r)
      → (b ≡ false → Reads R r')
      → Reads R (elim b [ true ↦ r | false ↦ r' ])
  elim-Reads true r r' p q = p refl
  elim-Reads false r r' p q = q refl

  if-Reads : (b : Bool) (r r' : Scanned) → Reads R r → Reads R r' → Reads R (if b then r else r')
  if-Reads true r r' p q = p
  if-Reads false r r' p q = q

  and_then-Reads :
      (r : Scanned) (f : Scan → Scanned)
      → Reads R r
      → ((s : Scan) → Reads R (f s))
      → Reads R (and_then r f)
  unfolding and_then
  and_then-Reads (scanned s) f p q = q s
  and_then-Reads (rejected r) f p q = tt
  and_then-Reads missing_name f p q = tt
  and_then-Reads missing_opcode f p q = p
  and_then-Reads out_of_fuel f p q = p

-- A scan whose fuel counts the code units from `cur` on, and `cur` is the index of one.
scan_from-Reads :
    (n : ℕ) (ctx : Context) (index cur u : ℕ) (opcode : Opcode) (oparg : ℕ) (s : Scan)
    → cur ≡ 2 * u
    → opcode ≡ ctx.code.opcode_at cur
    → cur < ctx.code.size
    → ctx.code.size ≤ cur + 2 * n
    → Reads (EndsWithPrefix ctx) (scan_from n ctx index cur opcode oparg s)
unfolding scan_from
scan_from-Reads zero ctx index cur u opcode oparg s even e l f = absurd (omega (arith, l, f))
scan_from-Reads (suc n) ctx index cur u opcode oparg s even e l f =
    let R = EndsWithPrefix ctx in
    let next : (index oparg : ℕ) (s : Scan)
        → ltb (cur + 2) ctx.code.size ≡ true
        → Reads R (scan_from n ctx index (cur + 2) (ctx.code.opcode_at (cur + 2)) oparg s) =
      λ index oparg s y.
        scan_from-Reads n ctx index (cur + 2) (u + 1) _ oparg s (omega (arith, even)) refl
          (ltb→lt _ _ y) (omega (arith, f)) in
    elim-Reads R (is_extended_arg opcode) _ _
      (λ x. elim-Reads R (ltb (cur + 2) ctx.code.size) _ _ (next index _ (close index s)) (λ y. (
        u,
        omega (arith, even, l),
        ground (arith, even, y),
        ap (λ i. is_extended_arg (ctx.code.opcode_at i)) (sym even)
            ∙ ap is_extended_arg (sym e)
            ∙ x,
      )))
      (λ x.
        and_then-Reads R _ _
          (ScansTo-Reads R index _ _
            (scan_opcode-ScansTo ctx index cur opcode oparg (close index s)))
          (λ s'. elim-Reads R (ltb (cur + 2) ctx.code.size) _ _ (next (cur + 2) _ s') (λ y. tt)))

some_code-Reads :
    (ctx : Context) (b : Bool)
    → leb ctx.code.size 0 ≡ b
    → Reads (EndsWithPrefix ctx) (
        if b
        then scanned (start_scan ctx)
        else scan_from
            (suc ctx.code.size)
            ctx
            0
            0
            (ctx.code.opcode_at 0)
            (ctx.code.byte_at 0)
            (start_scan ctx))
some_code-Reads ctx true e = tt
some_code-Reads ctx false e =
    scan_from-Reads (suc ctx.code.size) ctx 0 0 0 (ctx.code.opcode_at 0) (ctx.code.byte_at 0)
      (start_scan ctx) refl refl (ground (arith, e)) (omega arith)

preprocess-Reads : (ctx : Context) → Reads (EndsWithPrefix ctx) (preprocess ctx)
unfolding preprocess
preprocess-Reads ctx =
    let R = EndsWithPrefix ctx in
    if-Reads R ctx.code.is_coroutine (rejected incompatible_compiler_flags) _ tt (
      if-Reads R (leb ctx.code_object_size_limit ctx.code.size) (rejected incompatible_size) _ tt
        (some_code-Reads ctx (leb ctx.code.size 0) refl))

-- The scan of any code ends before its fuel is used up.
pub preprocess-out_of_fuel : (ctx : Context) → preprocess ctx ≢ out_of_fuel
preprocess-out_of_fuel ctx e = subst (Reads (EndsWithPrefix ctx)) e (preprocess-Reads ctx)

-- The scan of code whose last code unit is not the prefix of an opcode reads no opcode past the end
-- of the code.
pub preprocess-missing_opcode :
    (ctx : Context)
    → ((u : ℕ)
        → 2 * u < ctx.code.size
        → ctx.code.size ≤ 2 * u + 2
        → is_extended_arg (ctx.code.opcode_at (2 * u)) ≡ false)
    → preprocess ctx ≢ missing_opcode
preprocess-missing_opcode ctx h e =
    let (u, lo, hi, x) : EndsWithPrefix ctx =
      subst (Reads (EndsWithPrefix ctx)) e (preprocess-Reads ctx) in
    opposite (sym x ∙ h u lo hi)
