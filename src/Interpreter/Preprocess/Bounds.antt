-- ===== src/Interpreter/Preprocess/Bounds.antt =====
-- The block starts that `preprocess` (src/pyjion/absint.cpp) records.
use pyjion.Prelude.{
  ◌≡◌, arith, ℕ, zero, suc, ◌+◌, ◌≤◌, ◌==◌, ltb, leb, if◌then◌else◌, Bool, true, false, List, [],
  ◌∷◌, All, All-mono, ==_iff, Bool-cases, inl, inr,
}
use mathlib.Core.Path.{subst}
use pyjion.Opcode.{Opcode}
use pyjion.Links.{update}
use pyjion.Interpreter.{Context, incompatible_compiler_flags, incompatible_size}
use pyjion.Interpreter.Step.{is_extended_arg}
use pyjion.Interpreter.Preprocess.{
  AbsIntBlockInfo, Scan, Scanned, scanned, rejected, missing_name, missing_opcode, out_of_fuel,
  close_blocks, close, and_then, open_block, leave_block, scan_from, start_scan, preprocess,
}
use pyjion.Interpreter.Preprocess.Outcomes.{
  ScansTo, stays, opens, leaves, deletes, rejects, misses, scan_opcode-ScansTo,
}

abbrev AreBefore : (ℕ → ℕ) → Type 0
AreBefore starts = (i : ℕ) → starts i ≤ i

-- The open blocks start at `index` at the latest, and each recorded start is not after the index it
-- is recorded for.
record IsPlaced (index : ℕ) (s : Scan) : Type 0 where
  open_starts : All (λ b. b.block_start ≤ index) s.blocks
  recorded : AreBefore s.block_starts

update-AreBefore :
    (starts : ℕ → ℕ) (index start : ℕ)
    → start ≤ index
    → AreBefore starts
    → AreBefore (update starts index start)
update-AreBefore starts index start l p i = elim (Bool-cases (index == i)) [
  | inl e ↦ rw e (omega (arith, l, (==_iff index i).0 e))
  | inr e ↦ rw e (p i)
]

if-IsPlaced :
    (index : ℕ) (s : Scan) (b : Bool) (x y : List AbsIntBlockInfo × (ℕ → ℕ))
    → IsPlaced index (record s { blocks = x.0; block_starts = x.1 })
    → IsPlaced index (record s { blocks = y.0; block_starts = y.1 })
    → IsPlaced index (
        let (blocks, starts) = (if b then x else y) in
        record s { blocks = blocks; block_starts = starts })
if-IsPlaced index s true x y p q = p
if-IsPlaced index s false x y p q = q

close_blocks-IsPlaced :
    (index : ℕ) (s : Scan) (blocks : List AbsIntBlockInfo) (starts : ℕ → ℕ)
    → All (λ b. b.block_start ≤ index) blocks
    → AreBefore starts
    → IsPlaced index (
        let (blocks', starts') = close_blocks index blocks starts in
        record s { blocks = blocks'; block_starts = starts' })
unfolding close_blocks
close_blocks-IsPlaced index s [] starts all p = record { open_starts = tt; recorded = p }
close_blocks-IsPlaced index s (b ∷ bs) starts all p =
    if-IsPlaced index s (leb b.block_end index) _ _
      (close_blocks-IsPlaced index s bs (update starts index b.block_start) all.1
        (update-AreBefore starts index b.block_start all.0 p))
      (record { open_starts = all; recorded = p })

abbrev PlacedAt : ℕ → Scanned → Type 0
PlacedAt index (scanned s) = IsPlaced index s
PlacedAt index (rejected r) = Unit
PlacedAt index missing_name = Unit
PlacedAt index missing_opcode = Unit
PlacedAt index out_of_fuel = Unit

leave_block-PlacedAt :
    (index : ℕ) (blocks : List AbsIntBlockInfo) (s : Scan)
    → All (λ b. b.block_start ≤ index) blocks
    → IsPlaced index s
    → PlacedAt index (leave_block index blocks s)
unfolding leave_block
leave_block-PlacedAt index [] s all p = p
leave_block-PlacedAt index (b ∷ bs) s all p = record {
  open_starts = all.1;
  recorded = update-AreBefore s.block_starts index b.block_start all.0 p.recorded;
}

ScansTo-PlacedAt :
    (index : ℕ) (s : Scan) (r : Scanned) → IsPlaced index s → ScansTo index s r → PlacedAt index r
unfolding open_block
ScansTo-PlacedAt index s _ p stays = p
ScansTo-PlacedAt index s _ p (opens target) = record {
  open_starts = (omega arith, p.open_starts);
  recorded = p.recorded;
}
ScansTo-PlacedAt index s _ p leaves = leave_block-PlacedAt index s.blocks s p.open_starts p
ScansTo-PlacedAt index s _ p (deletes oparg) = record {
  open_starts = p.open_starts;
  recorded = p.recorded;
}
ScansTo-PlacedAt index s _ p (rejects r) = tt
ScansTo-PlacedAt index s _ p misses = tt

abbrev EndsBefore : Scanned → Type 0
EndsBefore (scanned s) = AreBefore s.block_starts
EndsBefore (rejected r) = Unit
EndsBefore missing_name = Unit
EndsBefore missing_opcode = Unit
EndsBefore out_of_fuel = Unit

elim-EndsBefore :
    (b : Bool) (r r' : Scanned)
    → EndsBefore r
    → EndsBefore r'
    → EndsBefore (elim b [ true ↦ r | false ↦ r' ])
elim-EndsBefore true r r' p q = p
elim-EndsBefore false r r' p q = q

and_then-EndsBefore :
    (index : ℕ) (r : Scanned) (f : Scan → Scanned)
    → PlacedAt index r
    → ((s : Scan) → IsPlaced index s → EndsBefore (f s))
    → EndsBefore (and_then r f)
unfolding and_then
and_then-EndsBefore index (scanned s) f p q = q s p
and_then-EndsBefore index (rejected r) f p q = tt
and_then-EndsBefore index missing_name f p q = tt
and_then-EndsBefore index missing_opcode f p q = tt
and_then-EndsBefore index out_of_fuel f p q = tt

later-IsPlaced : (index later : ℕ) (s : Scan) → index ≤ later → IsPlaced index s → IsPlaced later s
later-IsPlaced index later s l p = record {
  open_starts = All-mono _ _ s.blocks (λ b h. omega (arith, h, l)) p.open_starts;
  recorded = p.recorded;
}

scan_from-EndsBefore :
    (n : ℕ) (ctx : Context) (index cur : ℕ) (opcode : Opcode) (oparg : ℕ) (s : Scan)
    → index ≤ cur
    → IsPlaced index s
    → EndsBefore (scan_from n ctx index cur opcode oparg s)
unfolding scan_from close
scan_from-EndsBefore zero ctx index cur opcode oparg s l p = tt
scan_from-EndsBefore (suc n) ctx index cur opcode oparg s l p =
    let closed : IsPlaced index (close index s) =
      close_blocks-IsPlaced index s s.blocks s.block_starts p.open_starts p.recorded in
    elim-EndsBefore (is_extended_arg opcode) _ _
      (elim-EndsBefore (ltb (cur + 2) ctx.code.size) _ _
        (scan_from-EndsBefore n ctx index (cur + 2) _ _ (close index s) (omega (arith, l)) closed)
        tt)
      (and_then-EndsBefore index _ _
        (ScansTo-PlacedAt index _ _ closed
          (scan_opcode-ScansTo ctx index cur opcode oparg (close index s)))
        (λ s' p'.
          elim-EndsBefore (ltb (cur + 2) ctx.code.size) _ _
            (scan_from-EndsBefore n ctx (cur + 2) (cur + 2) _ _ s' (omega arith)
              (later-IsPlaced index (cur + 2) s' (omega (arith, l)) p'))
            p'.recorded))

if-EndsBefore :
    (b : Bool) (r r' : Scanned) → EndsBefore r → EndsBefore r' → EndsBefore (if b then r else r')
if-EndsBefore true r r' p q = p
if-EndsBefore false r r' p q = q

preprocessed-EndsBefore : (ctx : Context) → EndsBefore (preprocess ctx)
unfolding preprocess
preprocessed-EndsBefore ctx =
    if-EndsBefore ctx.code.is_coroutine (rejected incompatible_compiler_flags) _ tt (
      if-EndsBefore (leb ctx.code_object_size_limit ctx.code.size) (rejected incompatible_size) _ tt
        (if-EndsBefore (leb ctx.code.size 0) (scanned (start_scan ctx)) _ (λ i. omega arith)
          (scan_from-EndsBefore (suc ctx.code.size) ctx 0 0 (ctx.code.opcode_at 0)
            (ctx.code.byte_at 0) (start_scan ctx) (omega arith)
            (record { open_starts = tt; recorded = λ i. omega arith }))))

-- Where `preprocess` succeeds, no block starts after the index that it is recorded for.
pub preprocess-block_starts :
    (ctx : Context) (s : Scan) (i : ℕ) → preprocess ctx ≡ scanned s → s.block_starts i ≤ i
preprocess-block_starts ctx s i e = subst EndsBefore e (preprocessed-EndsBefore ctx) i
