-- ===== src/ValueStack.antt =====
-- The stack of entry kinds that the compiler keeps while it emits code (`ValueStack`, src/pyjion/stack.h
-- and stack.cpp). The bottom is the first element, as in the source.
use pyjion.Prelude.{
  ◌≡◌, refl, ap, ◌∙◌, arith, ◌≤◌, false, length-append, ℕ, zero, suc, ◌+◌, ◌-◌, ltb, if◌then◌else◌,
  Option, none, some, List, [], ◌∷◌, ◌++◌, length, get_elem?,
}
use pyjion.Kind.{StackEntryKind}

-- `push_back`, in the loop of `inc`
unfoldable pub inc : ℕ → StackEntryKind → List StackEntryKind → List StackEntryKind
inc zero kind stack = stack
inc (suc by) kind stack = inc by kind (stack ++ kind ∷ [])

unfoldable pub but_last : List StackEntryKind → List StackEntryKind
but_last [] = []
but_last (k ∷ []) = []
but_last (k ∷ l ∷ ks) = k ∷ but_last (l ∷ ks)

-- `pop_back`, in the loop of `dec`
unfoldable pub drop_last : ℕ → List StackEntryKind → List StackEntryKind
unfolding but_last
drop_last zero stack = stack
drop_last (suc by) stack = drop_last by (but_last stack)

-- `none` is the `StackUnderflowException`.
unfoldable pub dec : ℕ → List StackEntryKind → Option (List StackEntryKind)
unfolding drop_last
dec by stack = if ltb (length stack) by then none else some (drop_last by stack)

-- The kind `n` below the top; `at` throws where there is none.
unfoldable pub peek : ℕ → List StackEntryKind → Option StackEntryKind
peek n stack = if ltb n (length stack) then get_elem? stack (length stack - 1 - n) else none

unfoldable pub dup_top : List StackEntryKind → Option (List StackEntryKind)
unfolding peek
dup_top stack = elim (peek 0 stack) [ none ↦ none | some k ↦ some (stack ++ k ∷ []) ]

length-inc :
    (by : ℕ) (kind : StackEntryKind) (stack : List StackEntryKind)
    → length (inc by kind stack) ≡ length stack + by
unfolding inc
length-inc zero kind stack = omega arith
length-inc (suc by) kind stack =
    omega (arith, length-inc by kind (stack ++ kind ∷ []), length-append stack (kind ∷ []))

but_last-append :
    (stack : List StackEntryKind) (kind : StackEntryKind) → but_last (stack ++ kind ∷ []) ≡ stack
unfolding but_last
but_last-append [] kind = refl
but_last-append (k ∷ []) kind = refl
but_last-append (k ∷ l ∷ ks) kind = ap (λ t. k ∷ t) (but_last-append (l ∷ ks) kind)

drop_last-but_last :
    (by : ℕ) (stack : List StackEntryKind)
    → drop_last by (but_last stack) ≡ but_last (drop_last by stack)
unfolding drop_last
drop_last-but_last zero stack = refl
drop_last-but_last (suc by) stack = drop_last-but_last by (but_last stack)

drop_last-inc :
    (by : ℕ) (kind : StackEntryKind) (stack : List StackEntryKind)
    → drop_last by (inc by kind stack) ≡ stack
unfolding drop_last inc
drop_last-inc zero kind stack = refl
drop_last-inc (suc by) kind stack =
    drop_last-but_last by (inc by kind (stack ++ kind ∷ []))
    ∙ ap but_last (drop_last-inc by kind (stack ++ kind ∷ []))
    ∙ but_last-append stack kind

not_below : (a b : ℕ) → b ≤ a → ltb a b ≡ false
not_below a b h = ground arith

-- `dec` undoes an `inc` by as many entries, whatever their kind, and never underflows then.
pub dec-inc :
    (by : ℕ) (kind : StackEntryKind) (stack : List StackEntryKind)
    → dec by (inc by kind stack) ≡ some stack
unfolding dec
dec-inc by kind stack =
    rw
      (
        not_below (length (inc by kind stack)) by (omega (arith, length-inc by kind stack)),
        drop_last-inc by kind stack,
      )
      refl
