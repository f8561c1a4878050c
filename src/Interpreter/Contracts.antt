-- ===== src/Interpreter/Contracts.antt =====
-- What an action of `interpret` (src/pyjion/absint.cpp) may do to the stack and to the start
-- states, and how this composes.
pub mod Primitives
pub mod Updates
pub mod Flows
pub mod Peeking
pub mod Shuffling
pub mod Operating
pub mod Calling
pub mod Jumping
pub mod Table
pub mod Restoring
pub mod Effects
use pyjion.Prelude.{
  ◌≡◌, ◌≢◌, arith, ℕ, ◌+◌, ◌-◌, ◌<◌, ◌≤◌, Bool, true, false, Option, none, some, List, length, All,
  if◌then◌else◌,
}
use mathlib.Core.Path.{subst}
use pyjion.Opcode.{Opcode}
use pyjion.State.{LocalInfo, InterpreterState}
use pyjion.Interpreter.{
  Context, Machine, Fault, stack_underflow, stack_imbalance, undefined, Result, ok, fault, Action,
  ◌>>=◌,
}

-- The opcodes that restore the stack of the start of a block.
abbrev pub restores : Opcode → Bool
restores Opcode.pop_block = true
restores Opcode.pop_except = true
restores _ = false

-- All states have `n` locals, the queued indices have a start state, and so have the starts of the
-- blocks that the code leaves.
pub record AreConsistent (ctx : Context) (n : ℕ) (locals : List LocalInfo)
    (starts : ℕ → Option InterpreterState) (queue : List ℕ) : Type 0 where
  pub local_count : length locals ≡ n
  pub start_counts : (i : ℕ) (s : InterpreterState) → starts i ≡ some s → length s.locals ≡ n
  pub queued : All (λ i. starts i ≢ none) queue
  pub blocks : (i : ℕ) → restores (ctx.code.opcode_at i) ≡ true → starts (ctx.block_starts i) ≢ none

abbrev pub IsValid : Context → ℕ → Machine → Type 0
IsValid ctx n m = AreConsistent ctx n m.state.locals m.start_states m.queue

abbrev pub IsStarted : Machine → ℕ → Type 0
IsStarted m i = m.start_states i ≢ none

-- The action ends with a state that is valid, keeps the start states that there are, and has taken
-- `n` values from the stack and put `k` there; or the stack has fewer than `n` values; or it meets
-- a read that the source leaves undefined. It meets no imbalance.
abbrev pub Meets : (ctx : Context) (size n k : ℕ) {A : Type 0} → Machine → Result A → Type 0
Meets ctx size n k m (ok a m') =
    (n ≤ length m.state.stack)
    × (length m'.state.stack + n ≡ length m.state.stack + k)
    × IsValid ctx size m'
    × ((i : ℕ) → IsStarted m i → IsStarted m' i)
Meets ctx size n k m (fault stack_underflow) = length m.state.stack < n
Meets ctx size n k m (fault stack_imbalance) = ⊥
Meets ctx size n k m (fault undefined) = Unit

pub record HasEffect (ctx : Context) (size n k : ℕ) (A : Type 0) (f : Action A) : Type 0 where
  pub run : (m : Machine) → IsValid ctx size m → Meets ctx size n k m (f m)

pub cast_Meets :
    {A : Type 0} (ctx : Context) (size n k n' k' : ℕ) (m : Machine) (r : Result A)
    → n ≡ n'
    → k ≡ k'
    → Meets ctx size n k m r
    → Meets ctx size n' k' m r
cast_Meets ctx size n k n' k' m r e e' p =
    subst (λ v. Meets ctx size v k' m r) e (subst (λ v. Meets ctx size n v m r) e' p)

module _ (ctx : Context) (size : ℕ) where
  pub then_Meets :
      {B : Type 0} (n k n' k' : ℕ) (m m' : Machine) (r : Result B)
      → n ≤ length m.state.stack
      → length m'.state.stack + n ≡ length m.state.stack + k
      → ((i : ℕ) → IsStarted m i → IsStarted m' i)
      → Meets ctx size n' k' m' r
      → Meets ctx size (n + (n' - k)) (k' + (k - n')) m r
  then_Meets n k n' k' m m' (ok b m2) h e s (h', e', v, s') =
      (omega (arith, h, e, h'), omega (arith, h, e, h', e'), v, λ i p. s' i (s i p))
  then_Meets n k n' k' m m' (fault stack_underflow) h e s l = omega (arith, l)
  then_Meets n k n' k' m m' (fault stack_imbalance) h e s l = l
  then_Meets n k n' k' m m' (fault undefined) h e s l = tt

  bind_Meets :
      {A B : Type 0} (n k n' k' : ℕ) (m : Machine) (r : Result A) (g : A → Action B)
      → Meets ctx size n k m r
      → ((a : A) → HasEffect ctx size n' k' B (g a))
      → Meets ctx size
          (n + (n' - k))
          (k' + (k - n'))
          m
          (elim r [ ok a m' ↦ g a m' | fault e ↦ fault e ])
  bind_Meets n k n' k' m (ok a m') g (h, e, v, s) next =
      then_Meets n k n' k' m m' (g a m') h e s ((next a).run m' v)
  bind_Meets n k n' k' m (fault stack_underflow) g l next = omega (arith, l)
  bind_Meets n k n' k' m (fault stack_imbalance) g l next = l
  bind_Meets n k n' k' m (fault undefined) g l next = tt

module _ {ctx : Context} {size : ℕ} where
  pub bind-HasEffect :
      {A B : Type 0} {n k n' k' : ℕ} {f : Action A} {g : A → Action B}
      → HasEffect ctx size n k A f
      → ((a : A) → HasEffect ctx size n' k' B (g a))
      → HasEffect ctx size (n + (n' - k)) (k' + (k - n')) B (f >>= g)
  unfolding ◌>>=◌
  bind-HasEffect {n = n} {k = k} {n' = n'} {k' = k'} {f = f} {g = g} p q = record {
    run = λ m v. bind_Meets ctx size n k n' k' m (f m) g (p.run m v) q;
  }

  pub cast-HasEffect :
      {A : Type 0} {n k n' k' : ℕ} {f : Action A}
      → n ≡ n'
      → k ≡ k'
      → HasEffect ctx size n k A f
      → HasEffect ctx size n' k' A f
  cast-HasEffect {A = A} {n = n} {k' = k'} {f = f} e e' p =
      subst (λ v. HasEffect ctx size v k' A f) e (subst (λ v. HasEffect ctx size n v A f) e' p)

  pub if-HasEffect :
      {A : Type 0} {n k : ℕ} (b : Bool) {f g : Action A}
      → HasEffect ctx size n k A f
      → HasEffect ctx size n k A g
      → HasEffect ctx size n k A (if b then f else g)
  if-HasEffect true p q = p
  if-HasEffect false p q = q

-- The action looks at the stack, and changes no more than the values in it: it meets an underflow
-- only where the stack is empty.
abbrev pub Keeps : (ctx : Context) (size : ℕ) {A : Type 0} → Machine → Result A → Type 0
Keeps ctx size m (ok a m') = Meets ctx size 0 0 m (ok a m')
Keeps ctx size m (fault stack_underflow) = length m.state.stack < 1
Keeps ctx size m (fault stack_imbalance) = ⊥
Keeps ctx size m (fault undefined) = Unit

pub record Peeks (ctx : Context) (size : ℕ) (A : Type 0) (f : Action A) : Type 0 where
  pub run : (m : Machine) → IsValid ctx size m → Keeps ctx size m (f m)

module _ (ctx : Context) (size : ℕ) where
  peek_Meets :
      {A B : Type 0} (n k : ℕ) (m : Machine) (r : Result A) (g : A → Action B)
      → 1 ≤ n
      → Keeps ctx size m r
      → ((a : A) → HasEffect ctx size n k B (g a))
      → Meets ctx size n k m (elim r [ ok a m' ↦ g a m' | fault e ↦ fault e ])
  peek_Meets n k m (ok a m') g p kept next =
      cast_Meets ctx size (0 + (n - 0)) (k + (0 - n)) n k m (g a m') (omega arith) (omega arith)
        (bind_Meets ctx size 0 0 n k m (ok a m') g kept next)
  peek_Meets n k m (fault stack_underflow) g p l next = omega (arith, l, p)
  peek_Meets n k m (fault stack_imbalance) g p l next = l
  peek_Meets n k m (fault undefined) g p l next = tt

module _ {ctx : Context} {size : ℕ} where
  pub peek-HasEffect :
      {A B : Type 0} {n k : ℕ} {f : Action A} {g : A → Action B}
      → Peeks ctx size A f
      → ((a : A) → HasEffect ctx size n k B (g a))
      → 1 ≤ n
      → HasEffect ctx size n k B (f >>= g)
  unfolding ◌>>=◌
  peek-HasEffect {n = n} {k = k} {f = f} {g = g} p q h = record {
    run = λ m v. peek_Meets ctx size n k m (f m) g h (p.run m v) q;
  }

-- The contract of a chain, from those of its links.
infixr 5 ◌▹◌
pub ◌▹◌ :
    {ctx : Context} {size : ℕ} {A B : Type 0} {n k n' k' : ℕ} {f : Action A} {g : A → Action B}
    → HasEffect ctx size n k A f
    → ((a : A) → HasEffect ctx size n' k' B (g a))
    → HasEffect ctx size (n + (n' - k)) (k' + (k - n')) B (f >>= g)
p ▹ q = bind-HasEffect p q
