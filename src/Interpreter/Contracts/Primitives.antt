-- ===== src/Interpreter/Contracts/Primitives.antt =====
-- The effects of the actions that the handlers are made of (Actions.antt, Profiled.antt).
use pyjion.Prelude.{
  ◌≡◌, refl, ◌∙◌, ◌⊎◌, inl, inr, arith, ap, ℕ, zero, suc, ◌+◌, Option, none, some, List, [], ◌∷◌,
  length, length-append, length-set, set,
}
use pyjion.Source.{SourceClass}
use pyjion.Value.{AbstractValue}
use pyjion.State.{ValueWithSources, LocalInfo}
use pyjion.Interpreter.{Context, Machine, undefined, pure, raise, unsnoc}
use pyjion.Interpreter.Actions.{
  gets, modify, or_undefined, pop_from, pop, pop_value, pop_values, push, new_source,
  new_intermediate, push_fresh, push_many, combine_sources, set_opcode_sources, known_source,
  add_opcode_source, get_local, replace_local,
}
use pyjion.Interpreter.Contracts.{IsValid, Meets, HasEffect, ◌▹◌, cast-HasEffect}

length-unsnoc {ℓ} :
    {A : Type ℓ} (xs : List A)
    → ((length xs ≡ 0) × (unsnoc xs ≡ none))
      ⊎ ((r : List A × A) × (unsnoc xs ≡ some r) × (length xs ≡ suc (length r.0)))
unfolding unsnoc
length-unsnoc [] = inl (refl, refl)
length-unsnoc (x ∷ []) = inr (([], x), refl, refl)
length-unsnoc (x ∷ y ∷ ys) = elim (length-unsnoc (y ∷ ys)) [
  | inl (e, h) ↦ absurd (omega (arith, e))
  | inr ((rest, last), e, h) ↦ inr ((x ∷ rest, last), rw e refl, ap suc h)
]

module _ {ctx : Context} {size : ℕ} where
  pub pure-HasEffect : {A : Type 0} (a : A) → HasEffect ctx size 0 0 A (pure a)
  pure-HasEffect a = record { run = λ m v. (omega arith, refl, v, λ i s. s) }

  pub raise-HasEffect : {A : Type 0} (n k : ℕ) → HasEffect ctx size n k A (raise undefined)
  raise-HasEffect n k = record { run = λ m v. tt }

  pub gets-HasEffect : {A : Type 0} (f : Machine → A) → HasEffect ctx size 0 0 A (gets f)
  gets-HasEffect f = record { run = λ m v. (omega arith, refl, v, λ i s. s) }

  pub or_undefined-HasEffect :
      {A : Type 0} (o : Option A) → HasEffect ctx size 0 0 A (or_undefined o)
  or_undefined-HasEffect none = raise-HasEffect 0 0
  or_undefined-HasEffect (some a) = pure-HasEffect a

  -- A change of what the contracts do not speak of.
  pub modify-HasEffect :
      (f : Machine → Machine)
      → ((m : Machine) → (f m).state.stack ≡ m.state.stack)
      → ((m : Machine) → (f m).state.locals ≡ m.state.locals)
      → ((m : Machine) → (f m).start_states ≡ m.start_states)
      → ((m : Machine) → (f m).queue ≡ m.queue)
      → HasEffect ctx size 0 0 Unit (modify f)
  modify-HasEffect f stack locals starts queue = record {
    run = λ m v. (
      omega arith,
      ap (λ x. length x + 0) (stack m),
      rw (locals m, starts m, queue m) v,
      λ i s. rw (starts m) s,
    );
  }

  pop_from-Meets :
      (cur position : ℕ) (m : Machine)
      → IsValid ctx size m
      → Meets ctx size 1 0 m (pop_from cur position (unsnoc m.state.stack) m)
  unfolding pop_from
  pop_from-Meets cur position m v = elim (length-unsnoc m.state.stack) [
    | inl (e, h) ↦ rw h (omega (arith, e))
    | inr (r, h, e) ↦ rw h (omega (arith, e), omega (arith, e), v, λ i s. s)
  ]

  pub pop-HasEffect :
      (cur position : ℕ) → HasEffect ctx size 1 0 ValueWithSources (pop cur position)
  unfolding pop
  pop-HasEffect cur position = record { run = λ m v. pop_from-Meets cur position m v }

  pub pop_value-HasEffect : (cur : ℕ) → HasEffect ctx size 1 0 ValueWithSources (pop_value cur)
  unfolding pop_value
  pop_value-HasEffect cur = cast-HasEffect (omega arith) (omega arith) (
      gets-HasEffect (λ m. m.stack_position) ▹ λ position. pop-HasEffect cur position ▹ λ v.
      modify-HasEffect _ (λ m. refl) (λ m. refl) (λ m. refl) (λ m. refl) ▹ λ u. pure-HasEffect v)

  pub pop_values-HasEffect : (cur n : ℕ) → HasEffect ctx size n 0 Unit (pop_values cur n)
  unfolding pop_values
  pop_values-HasEffect cur zero = pure-HasEffect tt
  pop_values-HasEffect cur (suc n) =
      cast-HasEffect (omega arith) (omega arith)
        (pop_value-HasEffect cur ▹ λ v. pop_values-HasEffect cur n)

  pub push-HasEffect : (v : ValueWithSources) → HasEffect ctx size 0 1 Unit (push v)
  unfolding push
  push-HasEffect v = record {
    run = λ m c. (omega arith, omega (arith, length-append m.state.stack (v ∷ [])), c, λ i s. s);
  }

  pub new_source-HasEffect :
      (class : SourceClass) (producer : ℕ) → HasEffect ctx size 0 0 ℕ (new_source class producer)
  unfolding new_source
  new_source-HasEffect class producer = record { run = λ m v. (omega arith, refl, v, λ i s. s) }

  pub new_intermediate-HasEffect : (cur : ℕ) → HasEffect ctx size 0 0 ℕ (new_intermediate cur)
  unfolding new_intermediate
  new_intermediate-HasEffect cur = new_source-HasEffect _ cur

  pub push_fresh-HasEffect :
      (cur : ℕ) (v : AbstractValue) → HasEffect ctx size 0 1 Unit (push_fresh cur v)
  unfolding push_fresh
  push_fresh-HasEffect cur v =
      cast-HasEffect (omega arith) (omega arith)
        (new_intermediate-HasEffect cur ▹ λ s. push-HasEffect _)

  pub push_many-HasEffect :
      (cur : ℕ) (v : AbstractValue) (n : ℕ) → HasEffect ctx size 0 n Unit (push_many cur v n)
  unfolding push_many
  push_many-HasEffect cur v zero = pure-HasEffect tt
  push_many-HasEffect cur v (suc n) =
      cast-HasEffect (omega arith) (omega arith)
        (push_fresh-HasEffect cur v ▹ λ u. push_many-HasEffect cur v n)

  pub combine_sources-HasEffect :
      (a b : Option ℕ) → HasEffect ctx size 0 0 (Option ℕ) (combine_sources a b)
  unfolding combine_sources
  combine_sources-HasEffect a b = record { run = λ m v. (omega arith, refl, v, λ i s. s) }

  pub set_opcode_sources-HasEffect :
      (cur : ℕ) (s : Option ℕ) → HasEffect ctx size 0 0 Unit (set_opcode_sources cur s)
  unfolding set_opcode_sources
  set_opcode_sources-HasEffect cur s =
      modify-HasEffect _ (λ m. refl) (λ m. refl) (λ m. refl) (λ m. refl)

  known_source-HasEffect :
      (cur : ℕ) (class : SourceClass) (o : Option (Option ℕ))
      → HasEffect ctx size 0 0 (Option ℕ) (known_source cur class o)
  unfolding known_source
  known_source-HasEffect cur class none = cast-HasEffect (omega arith) (omega arith) (
      new_source-HasEffect class cur ▹ λ s.
      set_opcode_sources-HasEffect cur (some s) ▹ λ u. pure-HasEffect (some s))
  known_source-HasEffect cur class (some s) = pure-HasEffect s

  pub add_opcode_source-HasEffect :
      (cur : ℕ) (class : SourceClass)
      → HasEffect ctx size 0 0 (Option ℕ) (add_opcode_source cur class)
  unfolding add_opcode_source
  add_opcode_source-HasEffect cur class =
      cast-HasEffect (omega arith) (omega arith)
        (gets-HasEffect _ ▹ λ s. known_source-HasEffect cur class s)

  pub get_local-HasEffect : (index : ℕ) → HasEffect ctx size 0 0 LocalInfo (get_local index)
  unfolding get_local
  get_local-HasEffect index =
      cast-HasEffect (omega arith) (omega arith) (gets-HasEffect _ ▹ λ l. or_undefined-HasEffect l)

  set_local-HasEffect :
      (index : ℕ) (info : LocalInfo)
      → HasEffect ctx size 0 0 Unit (
          modify
            (λ m. record m { state = record m.state { locals = set m.state.locals index info } }))
  set_local-HasEffect index info = record {
    run = λ m v. (
      omega arith,
      refl,
      record {
        local_count = length-set m.state.locals index info ∙ v.local_count;
        start_counts = v.start_counts;
        queued = v.queued;
        blocks = v.blocks;
      },
      λ i s. s,
    );
  }

  pub replace_local-HasEffect :
      (index : ℕ) (info : LocalInfo) → HasEffect ctx size 0 0 Unit (replace_local index info)
  unfolding replace_local
  replace_local-HasEffect index info =
      cast-HasEffect (omega arith) (omega arith)
        (get_local-HasEffect index ▹ λ l. set_local-HasEffect index info)
