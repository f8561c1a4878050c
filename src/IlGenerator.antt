-- ===== src/IlGenerator.antt =====
-- The emitter of CIL (src/pyjion/ilgen.h): labels, branches, and the integers it writes. The
-- opcodes' bytes are CoreCLR's, and a parameter here.
pub mod Bytes
pub mod Patch
pub mod Labels
pub mod Branches
pub mod Locals
pub mod LocalReuse
pub mod Integers
use pyjion.Prelude.{
  ℕ, ◌+◌, ◌-◌, ◌*◌, ◌/◌, ◌%◌, ◌^◌, ◌==◌, if◌then◌else◌, Bool, ◌&&◌, Option, none, some, List, [],
  ◌∷◌, ◌++◌, length, get_elem?, set,
}
use mathlib.Core.Option
use mathlib.Core.Option.{bind}
use pyjion.Prelude.Int.{ℤ, pos, negsuc, ◌-ℤ◌, ltb_ℤ, leb_ℤ}

-- enum BranchType
pub data BranchType : Type 0 where
  branch_always branch_true branch_false branch_equal branch_not_equal branch_leave
        branch_less_than_equal branch_less_than_equal_unsigned branch_greater_than
        branch_greater_than_unsigned branch_greater_than_equal branch_greater_than_equal_unsigned
        branch_less_than branch_less_than_unsigned :
      BranchType

-- The bytes of CoreCLR's opcodes: of each branch in its long and its short form, and of CEE_NOP.
pub record CeeOpcodes : Type 0 where
  pub long : BranchType → ℕ
  pub short : BranchType → ℕ
  pub nop : ℕ

-- A location of -1 is `none`.
pub record LabelInfo : Type 0 where
  pub location : Option ℕ
  pub branch_offsets : List ℕ

pub record IlGenerator : Type 0 where
  pub il : List ℕ
  pub labels : List LabelInfo

abbrev pub all_branches : List BranchType
all_branches =
    branch_always ∷ branch_true ∷ branch_false ∷ branch_equal ∷ branch_not_equal ∷ branch_leave
    ∷ branch_less_than_equal ∷ branch_less_than_equal_unsigned ∷ branch_greater_than
    ∷ branch_greater_than_unsigned ∷ branch_greater_than_equal ∷ branch_greater_than_equal_unsigned
    ∷ branch_less_than ∷ branch_less_than_unsigned ∷ []

unfoldable pub find_short : CeeOpcodes → List BranchType → ℕ → Option ℕ
find_short c [] code = none
find_short c (t ∷ ts) code = if c.long t == code then some (c.short t) else find_short c ts code

-- `shortBranchEquivalent.at`, where `none` is its exception.
unfoldable pub short_branch_equivalent : CeeOpcodes → ℕ → Option ℕ
unfolding find_short
short_branch_equivalent c code = find_short c all_branches code

-- The low byte of an integer, and its low 32 bits, in two's complement.
unfoldable pub low_byte : ℤ → ℕ
low_byte (pos n) = n % 256
low_byte (negsuc n) = 255 - n % 256

unfoldable pub low_word : ℤ → ℕ
low_word (pos n) = n % 4294967296
low_word (negsuc n) = 4294967295 - n % 4294967296

-- The bytes that `emit_int` writes, from the lowest on.
unfoldable pub int_bytes : ℤ → List ℕ
unfolding low_word
int_bytes v =
    let w = low_word v in
    (w % 256) ∷ (w / 256 % 256) ∷ (w / 65536 % 256) ∷ (w / 16777216 % 256) ∷ []

-- `push_back` of some bytes
unfoldable pub push_back : List ℕ → IlGenerator → IlGenerator
push_back bytes g = record g { il = g.il ++ bytes }

-- `branch(BranchType, int)`
unfoldable pub branch_bytes : CeeOpcodes → BranchType → ℤ → List ℕ
unfolding low_byte int_bytes ◌-ℤ◌
branch_bytes c t offset =
    if leb_ℤ (offset -ℤ pos 2) (pos 128) && leb_ℤ (negsuc 126) (offset -ℤ pos 2)
    then c.short t ∷ low_byte (offset -ℤ pos 2) ∷ []
    else c.long t ∷ int_bytes (offset -ℤ pos 5)

-- `define_label`: the label is the number of the new entry.
unfoldable pub define_label : IlGenerator → ℕ × IlGenerator
define_label g = (
  length g.labels,
  record g { labels = g.labels ++ record { location = none; branch_offsets = [] } ∷ [] },
)

-- To a label that has no location yet, a long branch is emitted and noted for later.
unfoldable pub branch_to :
    CeeOpcodes → BranchType → ℕ → Option ℕ → List ℕ → IlGenerator → IlGenerator
unfolding push_back branch_bytes
branch_to c t label none offsets g = push_back (branch_bytes c t (pos 65535)) (record g {
  labels =
      set g.labels label (record { location = none; branch_offsets = offsets ++ length g.il ∷ [] });
})
branch_to c t label (some l) offsets g = push_back (branch_bytes c t (pos l -ℤ pos (length g.il))) g

unfoldable pub branch_if_known :
    CeeOpcodes → BranchType → ℕ → Option LabelInfo → IlGenerator → Option IlGenerator
unfolding branch_to
branch_if_known c t label none g = none
branch_if_known c t label (some info) g =
    some (branch_to c t label info.location info.branch_offsets g)

-- `branch(BranchType, Label)`. `none` is a label that was never defined, where the source reads
-- out of bounds.
unfoldable pub branch : CeeOpcodes → BranchType → ℕ → IlGenerator → Option IlGenerator
unfolding branch_if_known
branch c t label g = branch_if_known c t label (get_elem? g.labels label) g

-- The four bytes after the opcode at `from`. Writing out of bounds, which the source leaves
-- undefined, changes nothing.
unfoldable pub write_four : ℕ → ℕ → ℕ → ℕ → ℕ → List ℕ → List ℕ
write_four from a b c d il =
    set (set (set (set il (from + 1) a) (from + 2) b) (from + 3) c) (from + 4) d

unfoldable pub write_short : CeeOpcodes → ℕ → ℤ → List ℕ → Option ℕ → Option (List ℕ)
unfolding write_four low_byte
write_short c from short_i il none = none
write_short c from short_i il (some code) =
    some (write_four from (low_byte short_i) c.nop c.nop c.nop (set il from code))

unfoldable pub short_code : CeeOpcodes → Option ℕ → Option ℕ
unfolding short_branch_equivalent
short_code c none = none
short_code c (some code) = short_branch_equivalent c code

unfoldable pub write_long : ℕ → ℤ → List ℕ → List ℕ
unfolding write_four low_word
write_long from long_i il =
    let w = low_word long_i in
    write_four from (w % 256) (w / 256 % 256) (w / 65536 % 256) (w / 16777216 % 256) il

-- The body of the loop of `mark_label`, for a branch at `from`.
unfoldable pub patch : CeeOpcodes → ℕ → ℕ → List ℕ → Option (List ℕ)
unfolding write_short short_code write_long ◌-ℤ◌
patch c location from il =
    if ltb_ℤ (negsuc 127) (pos location -ℤ pos (from + 2))
      && ltb_ℤ (pos location -ℤ pos (from + 2)) (pos 128)
    then write_short c from (pos location -ℤ pos (from + 2)) il (short_code c (get_elem? il from))
    else some (write_long from (pos location -ℤ pos (from + 5)) il)

unfoldable pub patch_all : CeeOpcodes → ℕ → List ℕ → List ℕ → Option (List ℕ)
unfolding patch bind
patch_all c location [] il = some il
patch_all c location (from ∷ offsets) il =
    bind (patch c location from il) (λ il'. patch_all c location offsets il')

unfoldable pub mark_if_known : CeeOpcodes → ℕ → Option LabelInfo → IlGenerator → Option IlGenerator
unfolding patch_all
mark_if_known c label none g = none
mark_if_known c label (some info) g =
    Option.map
      (λ il. record {
        il = il;
        labels = set g.labels label (record info { location = some (length g.il) });
      })
      (patch_all c (length g.il) info.branch_offsets g.il)

-- `mark_label`: the label stands at the end of the code so far.
unfoldable pub mark_label : CeeOpcodes → ℕ → IlGenerator → Option IlGenerator
unfolding mark_if_known
mark_label c label g = mark_if_known c label (get_elem? g.labels label) g
