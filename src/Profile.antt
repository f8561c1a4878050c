-- ===== src/Profile.antt =====
-- The profile of a function: the types and kinds that the probes of the compiled code saw on the
-- stack (src/pyjion/pgc.cpp). Which types are generators or coroutines is a parameter.
use pyjion.Prelude.{
  ◌≡◌, refl, ap, ◌∙◌, ℕ, if◌then◌else◌, Bool, false, Option, none, some, List, [], ◌∷◌, ==_iff,
}
use pyjion.Kind.{AbstractValueKind}
use pyjion.Value.{Settings, PyTypeObject, get_abstract_type}
use pyjion.Links.{update}
use pyjion.Interpreter.{PyObject}

pub data PgcStatus : Type 0 where
  uncompiled compiled_with_probes optimized : PgcStatus

unfoldable pub next_pgc_status : PgcStatus → PgcStatus
next_pgc_status uncompiled = compiled_with_probes
next_pgc_status compiled_with_probes = optimized
next_pgc_status optimized = optimized

-- A missing type is the null pointer, and a missing kind the zero of the enumeration, `AVK_Any`.
pub record PyjionCodeProfile : Type 0 where
  pub stack_types : ℕ → ℕ → Option PyTypeObject
  pub stack_kinds : ℕ → ℕ → AbstractValueKind

-- The type that was seen first stays.
unfoldable pub first_type : Option PyTypeObject → PyTypeObject → Option PyTypeObject
first_type none t = some t
first_type (some old) t = some old

abbrev pub update_both : {A : Type 0} → (ℕ → ℕ → A) → ℕ → ℕ → A → ℕ → ℕ → A
update_both table i j a = update table i (update (table i) j a)

unfoldable pub record_value :
    Settings → (PyTypeObject → Bool) → ℕ → ℕ → PyObject → PyjionCodeProfile → PyjionCodeProfile
unfolding first_type get_abstract_type
record_value s is_generator i j value p = if is_generator value.type then p else record {
  stack_types = update_both p.stack_types i j (first_type (p.stack_types i j) value.type);
  stack_kinds = update_both p.stack_kinds i j (get_abstract_type s value.type (some value.digits));
}

-- `capturePgcStackValue`, for a profile that is there.
unfoldable pub capture_value :
    Settings
    → (PyTypeObject → Bool)
    → ℕ
    → ℕ
    → Option PyObject
    → PyjionCodeProfile
    → PyjionCodeProfile
unfolding record_value
capture_value s is_generator i j none p = p
capture_value s is_generator i j (some value) p = record_value s is_generator i j value p

-- The values that a probe sees, in their order.
abbrev pub capture_each :
    Settings → (PyTypeObject → Bool) → ℕ → ℕ → List PyObject → PyjionCodeProfile → PyjionCodeProfile
capture_each s is_generator i j [] p = p
capture_each s is_generator i j (x ∷ xs) p =
    capture_each s is_generator i j xs (capture_value s is_generator i j (some x) p)

-- The kind of the last value.
abbrev pub last_kind : Settings → AbstractValueKind → List PyObject → AbstractValueKind
last_kind s k [] = k
last_kind s k (x ∷ xs) = last_kind s (get_abstract_type s x.type (some x.digits)) xs

-- None of the values is a generator.
abbrev pub AllRecorded : (PyTypeObject → Bool) → List PyObject → Type 0
AllRecorded is_generator [] = Unit
AllRecorded is_generator (x ∷ xs) = (is_generator x.type ≡ false) × AllRecorded is_generator xs

update_both_self :
    {A : Type 0} (table : ℕ → ℕ → A) (i j : ℕ) (a : A) → update_both table i j a i j ≡ a
update_both_self table i j a = rw ((==_iff i i).1 refl, (==_iff j j).1 refl) refl

record_value_lem :
    (s : Settings) (is_generator : PyTypeObject → Bool) (i j : ℕ) (x : PyObject)
    (p : PyjionCodeProfile)
    → is_generator x.type ≡ false
    → ((capture_value s is_generator i j (some x) p).stack_types i j
        ≡ first_type (p.stack_types i j) x.type)
      × ((capture_value s is_generator i j (some x) p).stack_kinds i j
          ≡ get_abstract_type s x.type (some x.digits))
unfolding capture_value
record_value_lem s is_generator i j x p e =
    rw e (update_both_self p.stack_types i j _, update_both_self p.stack_kinds i j _)

captured_lem :
    (s : Settings) (is_generator : PyTypeObject → Bool) (i j : ℕ) (xs : List PyObject)
    (p : PyjionCodeProfile) (t : PyTypeObject)
    → AllRecorded is_generator xs
    → p.stack_types i j ≡ some t
    → ((capture_each s is_generator i j xs p).stack_types i j ≡ some t)
      × ((capture_each s is_generator i j xs p).stack_kinds i j
          ≡ last_kind s (p.stack_kinds i j) xs)
unfolding first_type
captured_lem s is_generator i j [] p t all e = (e, refl)
captured_lem s is_generator i j (x ∷ xs) p t all e =
    let (types, kinds) = record_value_lem s is_generator i j x p all.0 in
    let (types', kinds') =
      captured_lem s is_generator i j xs (capture_value s is_generator i j (some x) p) t all.1
        (types ∙ ap (λ o. first_type o x.type) e) in
    (types', kinds' ∙ ap (λ k. last_kind s k xs) kinds)

-- After a probe saw some values, none of them a generator or coroutine, where it had seen none
-- before, the profile answers the type of the first value and the kind of the last one.
pub capture_each-first_type :
    (s : Settings) (is_generator : PyTypeObject → Bool) (i j : ℕ) (x : PyObject)
    (xs : List PyObject) (p : PyjionCodeProfile)
    → p.stack_types i j ≡ none
    → AllRecorded is_generator (x ∷ xs)
    → ((capture_each s is_generator i j (x ∷ xs) p).stack_types i j ≡ some x.type)
      × ((capture_each s is_generator i j (x ∷ xs) p).stack_kinds i j
          ≡ last_kind s (get_abstract_type s x.type (some x.digits)) xs)
unfolding first_type
capture_each-first_type s is_generator i j x xs p e all =
    let (types, kinds) = record_value_lem s is_generator i j x p all.0 in
    let (types', kinds') =
      captured_lem s is_generator i j xs (capture_value s is_generator i j (some x) p) x.type all.1
        (types ∙ ap (λ o. first_type o x.type) e) in
    (types', kinds' ∙ ap (λ k. last_kind s k xs) kinds)
