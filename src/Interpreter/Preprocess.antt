-- ===== src/Interpreter/Preprocess.antt =====
-- The pass over the bytecode before the analysis (`AbstractInterpreter::preprocess`,
-- src/pyjion/absint.cpp). The hashes of the names are left out.
pub mod Outcomes
pub mod Bounds
pub mod Fuel
use Prim.Native.String.{String}
use pyjion.Prelude.{
  ℕ, zero, suc, ◌+◌, ◌*◌, ◌%◌, ◌^◌, ltb, leb, if◌then◌else◌, Bool, true, false, Option, none, some,
  List, [], ◌∷◌, ◌||◌,
}
use pyjion.Prelude.Text.{same_text}
use pyjion.Opcode.{Opcode, jumps_to}
use pyjion.Links.{update}
use pyjion.Interpreter.{
  AbstractInterpreterResult, incompatible_compiler_flags, incompatible_size,
  incompatible_opcode_yield, incompatible_opcode_with_except, incompatible_frame_global, Name,
  Context,
}
use pyjion.Interpreter.Actions.{item_at}
use pyjion.Interpreter.Step.{is_extended_arg}

-- struct AbsIntBlockInfo
pub record AbsIntBlockInfo : Type 0 where
  pub block_start : ℕ
  pub block_end : ℕ

-- The variables of `preprocess`: `blockStarts`, its last block first, `m_blockStarts` and
-- `m_assignmentState`.
pub record Scan : Type 0 where
  pub blocks : List AbsIntBlockInfo
  pub block_starts : ℕ → ℕ
  pub assignment_state : ℕ → Bool

-- What the scan of an opcode ends with: the variables, or the result that `preprocess` returns.
-- It may also read a name that there is not, or past the end of the code, for which the source has
-- no test. `out_of_fuel` stands for nothing in the source.
pub data Scanned : Type 0 where
  scanned : Scan → Scanned
  rejected : AbstractInterpreterResult → Scanned
  missing_name missing_opcode out_of_fuel : Scanned

-- The blocks that end before the opcode at `index` are left there.
unfoldable pub close_blocks : ℕ → List AbsIntBlockInfo → (ℕ → ℕ) → List AbsIntBlockInfo × (ℕ → ℕ)
close_blocks index [] starts = ([], starts)
close_blocks index (b ∷ bs) starts =
    let rest = close_blocks index bs (update starts index b.block_start) in
    if leb b.block_end index then rest else (b ∷ bs, starts)

unfoldable pub close : ℕ → Scan → Scan
unfolding close_blocks
close index s =
    let (blocks, starts) = close_blocks index s.blocks s.block_starts in
    record s { blocks = blocks; block_starts = starts }

unfoldable pub open_block : ℕ → ℕ → Scan → Scanned
open_block index target s =
    scanned (record s { blocks = record { block_start = index; block_end = target } ∷ s.blocks })

unfoldable pub leave_block : ℕ → List AbsIntBlockInfo → Scan → Scanned
leave_block index [] s = scanned s
leave_block index (b ∷ bs) s =
    scanned (record s { blocks = bs; block_starts = update s.block_starts index b.block_start })

unfoldable pub is_one_of : List String → String → Bool
is_one_of [] name = false
is_one_of (x ∷ xs) name = same_text x name || is_one_of xs name

-- The names of the functions that look at the frame.
unfoldable pub is_frame_global : String → Bool
unfolding is_one_of
is_frame_global = is_one_of ("vars" ∷ "dir" ∷ "locals" ∷ "eval" ∷ "exec" ∷ [])

unfoldable pub scan_global : Option Name → Scan → Scanned
unfolding is_frame_global
scan_global none s = missing_name
scan_global (some name) s =
    if is_frame_global name.text then rejected incompatible_frame_global else scanned s

-- A negative argument is below `co_argcount` too.
unfoldable pub is_argument : Context → ℕ → Bool
is_argument ctx oparg = if ltb oparg (2 ^ 15) then ltb oparg ctx.code.argcount else true

unfoldable pub delete_argument : Context → ℕ → Scan → Scanned
unfolding is_argument
delete_argument ctx oparg s = scanned (
    if is_argument ctx oparg
    then record s { assignment_state = update s.assignment_state oparg false }
    else s)

-- The switch over the opcodes: `index` is where the opcode's prefixes begin, and `cur` where it
-- stands itself.
unfoldable pub scan_opcode : Context → ℕ → ℕ → Opcode → ℕ → Scan → Scanned
unfolding jumps_to open_block leave_block scan_global delete_argument item_at
scan_opcode ctx index cur Opcode.setup_finally oparg s =
    if ctx.exception_handling
    then open_block index (jumps_to Opcode.setup_finally oparg cur) s
    else rejected incompatible_opcode_with_except
scan_opcode ctx index cur Opcode.setup_with oparg s =
    open_block index (jumps_to Opcode.setup_with oparg cur) s
scan_opcode ctx index cur Opcode.setup_async_with oparg s =
    open_block index (jumps_to Opcode.setup_async_with oparg cur) s
scan_opcode ctx index cur Opcode.for_iter oparg s =
    open_block index (jumps_to Opcode.for_iter oparg cur) s
scan_opcode ctx index cur Opcode.pop_except oparg s = leave_block index s.blocks s
scan_opcode ctx index cur Opcode.pop_block oparg s = leave_block index s.blocks s
scan_opcode ctx index cur Opcode.yield_from oparg s = rejected incompatible_opcode_yield
scan_opcode ctx index cur Opcode.delete_fast oparg s = delete_argument ctx oparg s
scan_opcode ctx index cur Opcode.load_global oparg s = scan_global (item_at ctx.code.names oparg) s
scan_opcode ctx index cur _ oparg s = scanned s

unfoldable pub and_then : Scanned → (Scan → Scanned) → Scanned
and_then (scanned s) f = f s
and_then (rejected r) f = rejected r
and_then missing_name f = missing_name
and_then missing_opcode f = missing_opcode
and_then out_of_fuel f = out_of_fuel

-- From `processOpCode` on, for at most `n` code units. The opcode after a prefix is read without a
-- look at the size of the code: at its end, that is a read past it.
unfoldable pub scan_from : ℕ → Context → ℕ → ℕ → Opcode → ℕ → Scan → Scanned
unfolding is_extended_arg close scan_opcode and_then
scan_from zero ctx index cur opcode oparg s = out_of_fuel
scan_from (suc n) ctx index cur opcode oparg s = elim (is_extended_arg opcode) [
  | true ↦ elim (ltb (cur + 2) ctx.code.size) [
    | true ↦
        scan_from n ctx index (cur + 2) (ctx.code.opcode_at (cur + 2))
          ((oparg * 256 + ctx.code.byte_at (cur + 2)) % 2 ^ 16) (close index s)
    | false ↦ missing_opcode
  ]
  | false ↦ and_then (scan_opcode ctx index cur opcode oparg (close index s)) (λ s'.
      elim (ltb (cur + 2) ctx.code.size) [
        | true ↦
            scan_from n ctx (cur + 2) (cur + 2) (ctx.code.opcode_at (cur + 2))
              (ctx.code.byte_at (cur + 2)) s'
        | false ↦ scanned s'
      ])
]

abbrev pub start_scan : Context → Scan
start_scan ctx = record {
  blocks = [];
  block_starts = λ i. 0;
  assignment_state = λ i. ltb i ctx.code.argcount;
}

-- `preprocess`. No opcode is scanned twice, so the fuel counts the code units there are.
unfoldable pub preprocess : Context → Scanned
unfolding scan_from
preprocess ctx =
    if ctx.code.is_coroutine
    then rejected incompatible_compiler_flags
    else if leb ctx.code_object_size_limit ctx.code.size
    then rejected incompatible_size
    else if leb ctx.code.size 0
    then scanned (start_scan ctx)
    else scan_from (suc ctx.code.size) ctx 0 0 (ctx.code.opcode_at 0) (ctx.code.byte_at 0)
        (start_scan ctx)
