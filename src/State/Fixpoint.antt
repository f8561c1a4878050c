-- ===== src/State/Fixpoint.antt =====
-- The analysis settles: the merges into one state of the abstract interpreter
-- (src/pyjion/absint.cpp) report a change only finitely often.
use mathlib.Core.WellFounded.{Acc}
use mathlib.Core.Option.{some_inj}
use mathlib.Core.Path.{subst}
use pyjion.Prelude.{
  ◌≡◌, arith, sym, ◌∙◌, ℕ, zero, suc, ◌<◌, ◌==◌, ==_iff, Bool-cases, inl, inr, some, length, true,
}
use pyjion.Value.{Settings}
use pyjion.Links.{SourceSets}
use pyjion.State.{InterpreterState, Merged, merge_states}
use pyjion.State.Termination.{
  Settles, Below, emptiness, emptiness_le, state_rank, merge_states-Settles,
}

-- Merging something into the state `a` reported a change and left the state `b`.
pub data Changes (s : Settings) : InterpreterState → InterpreterState → Type 0 where
  changes :
      {a : InterpreterState} (new : InterpreterState) (h : SourceSets) (m : Merged InterpreterState)
      → merge_states s a new h ≡ some m
      → m.changed ≡ true
      → Changes s m.result a

merge_states-length :
    (s : Settings) (a b : InterpreterState) (h : SourceSets) (m : Merged InterpreterState)
    → merge_states s a b h ≡ some m
    → length a.locals ≡ length b.locals
unfolding merge_states
merge_states-length s a b h m e = elim (Bool-cases (length a.locals == length b.locals)) [
  | inl q ↦ (==_iff (length a.locals) (length b.locals)).0 q
  | inr q ↦ ground (arith, e, q)
]

Changes-Below : {s : Settings} {a b : InterpreterState} → Changes s b a → Below b a
Changes-Below {s = s} {a = a} (changes new h m e c) =
    let (m', e', o) = merge_states-Settles s a new h (merge_states-length s a new h m e) in
    elim (subst (Settles a) (some_inj.0 (sym e' ∙ e)) o) [
      | inl (d, r) ↦ absurd (ground (arith, c, d))
      | inr (d, l) ↦ l
    ]

-- With a stack that is not empty, the rank falls at each change.
Changes-Acc_filled :
    (s : Settings) (n : ℕ) (a : InterpreterState)
    → emptiness a.stack ≡ 0
    → state_rank a < n
    → Acc (Changes s) a
Changes-Acc_filled s zero a f l = absurd (ground (arith, l))
Changes-Acc_filled s (suc n) a f l = Acc.intro a (λ b c. elim (Changes-Below c) [
  | inl g ↦ absurd (ground (arith, f, g))
  | inr (g, k) ↦ Changes-Acc_filled s n b (ground (arith, f, g)) (ground (arith, l, k))
])

Changes-Acc_below :
    (s : Settings) (n : ℕ) (a : InterpreterState) → state_rank a < n → Acc (Changes s) a
Changes-Acc_below s zero a l = absurd (ground (arith, l))
Changes-Acc_below s (suc n) a l = Acc.intro a (λ b c. elim (Changes-Below c) [
  | inl g ↦
      Changes-Acc_filled s (suc (state_rank b)) b (ground (arith, g, emptiness_le a.stack))
        (ground arith)
  | inr (g, k) ↦ Changes-Acc_below s n b (ground (arith, l, k))
])

-- From any state, the merges into it report a change only finitely often.
pub Changes-Acc : (s : Settings) (a : InterpreterState) → Acc (Changes s) a
Changes-Acc s a = Changes-Acc_below s (suc (state_rank a)) a (ground arith)
