-- ===== src/Examples/Code.antt =====
-- Labels and branches, on small code with the opcodes of ECMA-335.
use pyjion.Prelude.{◌≡◌, refl, arith, ℕ, ◌==◌, if◌then◌else◌, none, some, [], ◌∷◌}
use mathlib.Core.Option
use mathlib.Core.Option.{bind}
use pyjion.IlGenerator.{
  BranchType, CeeOpcodes, IlGenerator, define_label, branch, push_back, mark_label, branch_bytes,
  branch_if_known, branch_to, patch_all, mark_if_known, branch_always, branch_false, branch_true,
  branch_equal, branch_greater_than_equal, branch_greater_than, branch_less_than_equal,
  branch_less_than, branch_not_equal, branch_greater_than_equal_unsigned,
  branch_greater_than_unsigned, branch_less_than_equal_unsigned, branch_less_than_unsigned,
  branch_leave,
}
use pyjion.IlGenerator.Bytes.{BranchesTo}
use pyjion.Prelude.{◌+◌}
use pyjion.Prelude.Int.{negsuc}
use pyjion.IlGenerator.Integers.{LdcOpcodes, ld_i4, Pushes, ld_i4-Pushes}
use pyjion.IlGenerator.Labels.{IsWaiting}
use pyjion.IlGenerator.Branches.{branch-BranchesTo, branch-IsWaiting}

abbrev long_opcode : BranchType → ℕ
long_opcode branch_always = 0x38
long_opcode branch_false = 0x39
long_opcode branch_true = 0x3a
long_opcode branch_equal = 0x3b
long_opcode branch_greater_than_equal = 0x3c
long_opcode branch_greater_than = 0x3d
long_opcode branch_less_than_equal = 0x3e
long_opcode branch_less_than = 0x3f
long_opcode branch_not_equal = 0x40
long_opcode branch_greater_than_equal_unsigned = 0x41
long_opcode branch_greater_than_unsigned = 0x42
long_opcode branch_less_than_equal_unsigned = 0x43
long_opcode branch_less_than_unsigned = 0x44
long_opcode branch_leave = 0xdd

abbrev short_opcode : BranchType → ℕ
short_opcode branch_always = 0x2b
short_opcode branch_false = 0x2c
short_opcode branch_true = 0x2d
short_opcode branch_equal = 0x2e
short_opcode branch_greater_than_equal = 0x2f
short_opcode branch_greater_than = 0x30
short_opcode branch_less_than_equal = 0x31
short_opcode branch_less_than = 0x32
short_opcode branch_not_equal = 0x33
short_opcode branch_greater_than_equal_unsigned = 0x34
short_opcode branch_greater_than_unsigned = 0x35
short_opcode branch_less_than_equal_unsigned = 0x36
short_opcode branch_less_than_unsigned = 0x37
short_opcode branch_leave = 0xde

abbrev ecma : CeeOpcodes
ecma = record { long = long_opcode; short = short_opcode; nop = 0 }

branch_of : ℕ → BranchType
branch_of n =
    if n == 0x38
    then branch_always
    else if n == 0x39
    then branch_false
    else if n == 0x3a
    then branch_true
    else if n == 0x3b
    then branch_equal
    else if n == 0x3c
    then branch_greater_than_equal
    else if n == 0x3d
    then branch_greater_than
    else if n == 0x3e
    then branch_less_than_equal
    else if n == 0x3f
    then branch_less_than
    else if n == 0x40
    then branch_not_equal
    else if n == 0x41
    then branch_greater_than_equal_unsigned
    else if n == 0x42
    then branch_greater_than_unsigned
    else if n == 0x43
    then branch_less_than_equal_unsigned
    else if n == 0x44
    then branch_less_than_unsigned
    else branch_leave

abbrev empty : IlGenerator
empty = record { il = []; labels = [] }

-- A forward branch over a return, and a label behind it.
abbrev waiting_code : IlGenerator
waiting_code = record {
  il = 0x39 ∷ 0xfa ∷ 0xff ∷ 0 ∷ 0 ∷ 0x2a ∷ [];
  labels = record { location = none; branch_offsets = 0 ∷ [] } ∷ [];
}

emitted :
    Option.map (push_back (0x2a ∷ [])) (branch ecma branch_false 0 (define_label empty).1)
    ≡ some waiting_code
unfolding define_label branch branch_if_known branch_to branch_bytes push_back
emitted = refl

abbrev marked_code : IlGenerator
marked_code = record {
  il = 0x2c ∷ 4 ∷ 0 ∷ 0 ∷ 0 ∷ 0x2a ∷ [];
  labels = record { location = some 6; branch_offsets = 0 ∷ [] } ∷ [];
}

marked : mark_label ecma 0 waiting_code ≡ some marked_code
unfolding mark_label mark_if_known patch_all bind
marked = refl

waiting_code-IsWaiting : IsWaiting ecma waiting_code 0 ((0, branch_false) ∷ [])
waiting_code-IsWaiting = (refl, (omega arith, omega arith, refl, tt))

branch-IsWaiting_example :
    (g' : IlGenerator) × (branch ecma branch_leave 0 waiting_code ≡ some g')
    × IsWaiting ecma g' 0 ((0, branch_false) ∷ (6, branch_leave) ∷ [])
branch-IsWaiting_example =
    branch-IsWaiting ecma waiting_code branch_leave 0 ((0, branch_false) ∷ [])
      waiting_code-IsWaiting

branch-BranchesTo_example :
    (g' : IlGenerator) × (branch ecma branch_always 0 marked_code ≡ some g')
    × BranchesTo ecma g'.il 6 branch_always 6
branch-BranchesTo_example =
    branch-BranchesTo ecma marked_code branch_always 0 6 (0 ∷ []) refl (omega arith) (omega arith)

abbrev ecma_ldc : LdcOpcodes
ecma_ldc = record { minus_one = 0x15; small = λ n. 0x16 + n; short = 0x1f; long = 0x20 }

loads_minus_two : ld_i4 ecma_ldc (negsuc 1) ≡ 0x1f ∷ 0xfe ∷ []
unfolding ld_i4
loads_minus_two = refl

ld_i4-Pushes_example : Pushes ecma_ldc (ld_i4 ecma_ldc (negsuc 999)) (negsuc 999)
ld_i4-Pushes_example = ld_i4-Pushes ecma_ldc (negsuc 999) (omega arith)
