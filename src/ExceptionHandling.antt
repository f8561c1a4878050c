-- ===== src/ExceptionHandling.antt =====
-- The exception handlers of the compiler (src/pyjion/exceptionhandling.h, exceptionhandling.cpp). A
-- handler is the number of its place in `m_exceptionHandlers`, and its flags are a number.
use pyjion.Prelude.{
  ◌≡◌, refl, sym, ap, ◌∙◌, arith, ◌⊎◌, inl, inr, ◌≤◌, ◌<◌, ℕ, zero, suc, Option, none, some, List,
  [], ◌∷◌, ◌++◌, length, length-append, get_elem?,
}
use mathlib.Core.Option.{some_inj}
use mathlib.Core.Path.{subst}
use pyjion.Kind.{StackEntryKind}
use pyjion.Links.{update}
use pyjion.Interpreter.Contracts.Updates.{some≢none, update_hit}

pub record ExceptionHandler : Type 0 where
  pub raise_and_free_id : ℕ
  pub error_target : ℕ
  pub entry_stack : List StackEntryKind
  pub flags : ℕ
  pub back_handler : Option ℕ

abbrev pub ehf_none : ℕ
ehf_none = 0

abbrev pub ehf_try_finally : ℕ
ehf_try_finally = 8

pub record ExceptionHandlerManager : Type 0 where
  pub exception_handlers : List ExceptionHandler
  pub handler_indexes : ℕ → Option ℕ

-- The answer is always the first handler.
unfoldable pub set_root_handler : ℕ → ExceptionHandlerManager → ℕ × ExceptionHandlerManager
set_root_handler label m = (
  0,
  record m {
    exception_handlers =
        m.exception_handlers
        ++ record {
          raise_and_free_id = 0;
          error_target = label;
          entry_stack = [];
          flags = ehf_none;
          back_handler = none;
        }
          ∷ [];
  },
)

unfoldable pub add_setup_finally_handler :
    ℕ → List StackEntryKind → ℕ → ℕ → ExceptionHandlerManager → ℕ × ExceptionHandlerManager
add_setup_finally_handler label stack current index m = (
  length m.exception_handlers,
  record {
    exception_handlers =
        m.exception_handlers
        ++ record {
          raise_and_free_id = length m.exception_handlers;
          error_target = label;
          entry_stack = stack;
          flags = ehf_try_finally;
          back_handler = some current;
        }
          ∷ [];
    handler_indexes = update m.handler_indexes index (some (length m.exception_handlers));
  },
)

-- `IsHandlerAtOffset` is whether there is one.
unfoldable pub handler_at_offset : ℕ → ExceptionHandlerManager → Option ℕ
handler_at_offset offset m = m.handler_indexes offset

unfoldable pub follow_back : Option ℕ → ℕ → (ℕ → Option ℕ) → Option ℕ
follow_back none handler rest = some handler
follow_back (some back) handler rest = rest back

unfoldable pub follow : Option ExceptionHandler → ℕ → (ℕ → Option ℕ) → Option ℕ
unfolding follow_back
follow none handler rest = none
follow (some h) handler rest = follow_back h.back_handler handler rest

-- `GetRootOf`, for at most `n` rounds of its loop.
unfoldable pub get_root_of : ℕ → List ExceptionHandler → ℕ → Option ℕ
unfolding follow
get_root_of zero handlers handler = none
get_root_of (suc n) handlers handler =
    follow (get_elem? handlers handler) handler (λ back. get_root_of n handlers back)

-- The first handler is the root, and every other one leads back to an earlier one.
pub record IsLinked (handlers : List ExceptionHandler) : Type 0 where
  pub root : (h : ExceptionHandler) → get_elem? handlers 0 ≡ some h → h.back_handler ≡ none
  pub back :
      (i : ℕ) (h : ExceptionHandler)
      → get_elem? handlers (suc i) ≡ some h
      → (b : ℕ) × (h.back_handler ≡ some b) × (b ≤ i)

get_elem?_lt :
    {A : Type 0} (xs : List A) (i : ℕ) → i < length xs → (x : A) × (get_elem? xs i ≡ some x)
get_elem?_lt [] i h = absurd (omega (arith, h))
get_elem?_lt (x ∷ xs) zero h = (x, refl)
get_elem?_lt (x ∷ xs) (suc i) h = get_elem?_lt xs i (omega (arith, h))

get_elem?-append :
    {A : Type 0} (xs : List A) (y : A) (i : ℕ) (x : A)
    → get_elem? (xs ++ y ∷ []) i ≡ some x
    → (get_elem? xs i ≡ some x) ⊎ ((i ≡ length xs) × (y ≡ x))
get_elem?-append [] y zero x e = inr (refl, some_inj.0 e)
get_elem?-append [] y (suc i) x e = absurd (some≢none (sym e))
get_elem?-append (z ∷ xs) y zero x e = inl e
get_elem?-append (z ∷ xs) y (suc i) x e = elim (get_elem?-append xs y i x e) [
  | inl h ↦ inl h
  | inr (h, k) ↦ inr (ap suc h, k)
]

get_root_of_lem :
    (n i : ℕ) (handlers : List ExceptionHandler) (h : ExceptionHandler) (back : Option ℕ)
    → get_elem? handlers i ≡ some h
    → h.back_handler ≡ back
    → get_root_of (suc n) handlers i ≡ follow_back back i (λ b. get_root_of n handlers b)
unfolding get_root_of
get_root_of_lem n i handlers h back e f =
    ap (λ o. follow o i (λ b. get_root_of n handlers b)) e
    ∙ ap (λ o. follow_back o i (λ b. get_root_of n handlers b)) f

get_root_of-IsLinked :
    (handlers : List ExceptionHandler)
    → IsLinked handlers
    → (n i : ℕ) → i < length handlers
    → i < n
    → get_root_of n handlers i ≡ some 0
unfolding get_root_of
get_root_of-IsLinked handlers l zero i h k = absurd (omega (arith, k))
get_root_of-IsLinked handlers l (suc n) zero h k =
    let (x, e) = get_elem?_lt handlers 0 h in get_root_of_lem n 0 handlers x none e (l.root x e)
get_root_of-IsLinked handlers l (suc n) (suc i) h k =
    let (x, e) = get_elem?_lt handlers (suc i) h in
    let (b, f, le) = l.back i x e in
    get_root_of_lem n (suc i) handlers x (some b) e f
    ∙ get_root_of-IsLinked handlers l n b (omega (arith, h, le)) (omega (arith, k, le))

appended-IsLinked :
    (handlers : List ExceptionHandler) (new : ExceptionHandler) (current : ℕ)
    → IsLinked handlers
    → current < length handlers
    → new.back_handler ≡ some current
    → IsLinked (handlers ++ new ∷ [])
appended-IsLinked handlers new current l c e = record {
  root = λ h x. elim (get_elem?-append handlers new 0 h x) [
    | inl y ↦ l.root h y
    | inr (y, z) ↦ absurd (omega (arith, c, y))
  ];
  back = λ i h x. elim (get_elem?-append handlers new (suc i) h x) [
    | inl y ↦ l.back i h y
    | inr (y, z) ↦ (
      current,
      subst (λ (w : ExceptionHandler). w.back_handler ≡ some current) z e,
      omega (arith, c, y),
    )
  ];
}

-- Where the handlers lead back to a root, adding one for a handler that is there keeps this so: the
-- new one is found at its offset, and the loop of `GetRootOf` comes from each handler to the first
-- one in at most as many rounds as there are handlers.
pub add_setup_finally_handler-IsLinked :
    (label : ℕ) (stack : List StackEntryKind) (current index : ℕ) (m : ExceptionHandlerManager)
    (i : ℕ)
    → IsLinked m.exception_handlers
    → current < length m.exception_handlers
    → i ≤ length m.exception_handlers
    → IsLinked (add_setup_finally_handler label stack current index m).1.exception_handlers
      × (handler_at_offset index (add_setup_finally_handler label stack current index m).1
          ≡ some (add_setup_finally_handler label stack current index m).0)
      × (get_root_of
            (suc (length m.exception_handlers))
            (add_setup_finally_handler label stack current index m).1.exception_handlers
            i
          ≡ some 0)
unfolding add_setup_finally_handler handler_at_offset
add_setup_finally_handler-IsLinked label stack current index m i l c h =
    let linked = appended-IsLinked m.exception_handlers _ current l c refl in
    (
      linked,
      update_hit m.handler_indexes index index _ refl,
      get_root_of-IsLinked _ linked _ i
          (omega (arith, h, length-append m.exception_handlers (_ ∷ []))) (omega (arith, h)),
    )
