-- ===== src/Interpreter/Contracts/Peeking.antt =====
-- The profile's update of the stack (Profiled.antt) changes the values on it, and no more.
use pyjion.Prelude.{
  ◌≡◌, refl, arith, ap, ℕ, zero, suc, ◌+◌, ◌==◌, ltb, if◌then◌else◌, Bool, true, false, Option,
  none, some, length, length-set, inl, inr, Bool-cases, ==_iff,
}
use pyjion.State.{ValueWithSources}
use pyjion.Interpreter.{
  Context, Machine, Action, Result, ok, fault, ◌>>=◌, pure, stack_underflow, stack_imbalance,
  undefined,
}
use pyjion.Interpreter.Profiled.{
  profile_value, profile_stack, profile_position, profile_positions, update_stack, probe_if,
}
use pyjion.Interpreter.Contracts.{IsValid, IsStarted, Keeps, Peeks}
use pyjion.Interpreter.Contracts.Updates.{update-AreConsistent}

module _ (ctx : Context) (size : ℕ) where
  then_Keeps :
      {B : Type 0} (m m' : Machine) (r : Result B)
      → length m'.state.stack ≡ length m.state.stack
      → ((i : ℕ) → IsStarted m i → IsStarted m' i)
      → Keeps ctx size m' r
      → Keeps ctx size m r
  then_Keeps m m' (ok b m2) e s (h', e', v, s') =
      (omega arith, omega (arith, e, e'), v, λ i p. s' i (s i p))
  then_Keeps m m' (fault stack_underflow) e s l = omega (arith, e, l)
  then_Keeps m m' (fault stack_imbalance) e s l = l
  then_Keeps m m' (fault undefined) e s l = tt

  bind_Keeps :
      {A B : Type 0} (m : Machine) (r : Result A) (g : A → Action B)
      → Keeps ctx size m r
      → ((a : A) → Peeks ctx size B (g a))
      → Keeps ctx size m (elim r [ ok a m' ↦ g a m' | fault e ↦ fault e ])
  bind_Keeps m (ok a m') g (h, e, v, s) next =
      then_Keeps m m' (g a m') (omega (arith, e)) s ((next a).run m' v)
  bind_Keeps m (fault stack_underflow) g l next = l
  bind_Keeps m (fault stack_imbalance) g l next = l
  bind_Keeps m (fault undefined) g l next = tt

module _ {ctx : Context} {size : ℕ} where
  bind-Peeks :
      {A B : Type 0} {f : Action A} {g : A → Action B}
      → Peeks ctx size A f
      → ((a : A) → Peeks ctx size B (g a))
      → Peeks ctx size B (f >>= g)
  unfolding ◌>>=◌
  bind-Peeks {f = f} {g = g} p q = record {
    run = λ m v. bind_Keeps ctx size m (f m) g (p.run m v) q;
  }

  pure-Peeks : {A : Type 0} (a : A) → Peeks ctx size A (pure a)
  pure-Peeks a = record { run = λ m v. (omega arith, refl, v, λ i s. s) }

  profile_value-Keeps :
      (cur pos index : ℕ) (m : Machine)
      → IsValid ctx size m
      → (o : Option ValueWithSources) → Keeps ctx size m (profile_value ctx cur pos index o m)
  unfolding profile_value
  profile_value-Keeps cur pos index m v none = tt
  profile_value-Keeps cur pos index m v (some x) =
      (omega arith, ap (λ n. n + 0) (length-set m.state.stack index _), v, λ i s. s)

  profile_stack-Keeps :
      (cur pos : ℕ) (m : Machine)
      → IsValid ctx size m
      → Keeps ctx size m (profile_stack ctx cur pos m.state.stack m)
  unfolding profile_stack
  profile_stack-Keeps cur pos m v = elim (Bool-cases (length m.state.stack == 0)) [
    | inl e ↦ rw e (omega (arith, (==_iff (length m.state.stack) 0).0 e))
    | inr e ↦ elim (Bool-cases (ltb pos (length m.state.stack))) [
      | inl l ↦ rw (e, l) (profile_value-Keeps cur pos _ m v _)
      | inr l ↦ rw (e, l) tt
    ]
  ]

  profile_position-Peeks : (cur pos : ℕ) → Peeks ctx size Unit (profile_position ctx cur pos)
  unfolding profile_position ◌>>=◌
  profile_position-Peeks cur pos = record { run = λ m v. profile_stack-Keeps cur pos m v }

  profile_positions-Peeks :
      (cur pos count : ℕ) → Peeks ctx size Unit (profile_positions ctx cur pos count)
  unfolding profile_positions
  profile_positions-Peeks cur pos zero = pure-Peeks tt
  profile_positions-Peeks cur pos (suc count) =
      bind-Peeks (profile_position-Peeks cur pos) (λ u. profile_positions-Peeks cur (suc pos) count)

  update_stack-Peeks : (cur count : ℕ) → Peeks ctx size Unit (update_stack ctx cur count)
  unfolding update_stack
  update_stack-Peeks cur count = bind-Peeks (profile_positions-Peeks cur 0 count) (λ u. record {
    run = λ m v.
        let (c, k) = update-AreConsistent m cur m.state v.local_count v in
        (omega arith, refl, c, k);
  })

  if-Peeks :
      {A : Type 0} (b : Bool) {f g : Action A}
      → Peeks ctx size A f
      → Peeks ctx size A g
      → Peeks ctx size A (if b then f else g)
  if-Peeks true p q = p
  if-Peeks false p q = q

  pub probe_if-Peeks :
      (b : Bool) (cur probed count : ℕ) → Peeks ctx size Unit (probe_if b ctx cur probed count)
  unfolding probe_if
  probe_if-Peeks false cur probed count = pure-Peeks tt
  probe_if-Peeks true cur probed count =
      bind-Peeks (record { run = λ m v. (omega arith, refl, v, λ i s. s) })
        (λ u. if-Peeks ctx.compiled_with_probes (update_stack-Peeks cur count) (pure-Peeks tt))
