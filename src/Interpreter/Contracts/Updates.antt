-- ===== src/Interpreter/Contracts/Updates.antt =====
-- What `updateStartState` does to the start states of a valid machine.
use pyjion.Prelude.{
  Pairwise-refl, ◌≡◌, ◌≢◌, refl, sym, ◌∙◌, ◌⊎◌, inl, inr, arith, ℕ, ◌==◌, Bool, true, Option, none,
  some, length, All-mono, Bool-cases, ==_iff,
}
use mathlib.Core.Path.{subst}
use mathlib.Core.Option.{some_inj}
use pyjion.Links.{update, SourceSets}
use pyjion.State.{InterpreterState, update_at, update_start_state}
use pyjion.State.Covering.{IsCovered, LocalIsCovered, StateIsCovered, merge_states-Covers}
use pyjion.Interpreter.{Context, Machine, Result, ok}
use pyjion.Interpreter.Actions.{updated, update_start}
use pyjion.Interpreter.Contracts.{AreConsistent, IsValid, IsStarted}

pub update_hit {ℓ} : {A : Type ℓ} (f : ℕ → A) (i j : ℕ) (a : A) → i ≡ j → update f i a j ≡ a
update_hit f i j a e = rw ((==_iff i j).1 e) refl

pub update_cases {ℓ} :
    {A : Type ℓ} (f : ℕ → A) (i : ℕ) (a : A) (j : ℕ) → (update f i a j ≡ a) ⊎ (update f i a j ≡ f j)
update_cases f i a j = elim (Bool-cases (i == j)) [
  | inl e ↦ inl (rw e refl)
  | inr e ↦ inr (rw e refl)
]

pub some≢none {ℓ} : {A : Type ℓ} {a : A} → some a ≢ none
some≢none e = ground arith

-- A start state is put where there may be one already.
pub update-AreConsistent :
    {ctx : Context} {n : ℕ} (m : Machine) (i : ℕ) (s : InterpreterState)
    → length s.locals ≡ n
    → IsValid ctx n m
    → AreConsistent ctx n m.state.locals (update m.start_states i (some s)) m.queue
      × ((j : ℕ) → IsStarted m j → update m.start_states i (some s) j ≢ none)
update-AreConsistent {n = n} m i s e v =
    let keeps : (j : ℕ) → IsStarted m j → update m.start_states i (some s) j ≢ none = λ j h.
      elim (update_cases m.start_states i (some s) j) [
        | inl u ↦ λ z. some≢none (sym u ∙ z)
        | inr u ↦ λ z. h (sym u ∙ z)
      ] in
    (
      record {
        local_count = v.local_count;
        start_counts = λ j t h. elim (update_cases m.start_states i (some s) j) [
          | inl u ↦ subst (λ x. length x.locals ≡ n) (some_inj.0 (sym u ∙ h)) e
          | inr u ↦ v.start_counts j t (sym u ∙ h)
        ];
        queued = All-mono _ _ m.queue keeps v.queued;
        blocks = λ j h. keeps _ (v.blocks j h);
      },
      keeps,
    )

-- What `updateStartState` leaves, where the state has as many locals as the others.
pub record Updated (ctx : Context) (n : ℕ) (m : Machine) (target : ℕ) (state : InterpreterState)
    (r : Result Bool) : Type 0 where
  pub changed : Bool
  pub starts : ℕ → Option InterpreterState
  pub sets : SourceSets
  pub equation : r ≡ ok changed (record m { start_states = starts; sets = sets })
  pub consistent : AreConsistent ctx n m.state.locals starts m.queue
  pub keeps : (j : ℕ) → IsStarted m j → starts j ≢ none
  pub started : starts target ≢ none
  pub left : InterpreterState
  pub held : starts target ≡ some left
  pub covered : StateIsCovered ctx.settings state left

updated_at :
    {ctx : Context} {n : ℕ} (m : Machine) (target : ℕ) (state : InterpreterState)
    → length state.locals ≡ n
    → IsValid ctx n m
    → (o : Option InterpreterState) → m.start_states target ≡ o
    → Updated ctx n m target state
        (updated (update_at ctx.settings m.start_states state target o m.sets) m)
unfolding updated update_at
updated_at {ctx = ctx} m target state e v none h =
    let (c, k) = update-AreConsistent m target state e v in
    record {
      changed = true;
      starts = update m.start_states target (some state);
      sets = m.sets;
      equation = refl;
      consistent = c;
      keeps = k;
      started =
          λ z. some≢none (sym (update_hit m.start_states target target (some state) refl) ∙ z);
      left = state;
      held = update_hit m.start_states target target (some state) refl;
      covered = (
        Pairwise-refl (LocalIsCovered ctx.settings) state.locals (λ l. (inr (inl refl), λ u. u)),
        Pairwise-refl (IsCovered ctx.settings) state.stack (λ x. inr (inl refl)),
      );
    }
updated_at {ctx = ctx} m target state e v (some initial) h =
    let (merged, is_merged, count, covers) =
      merge_states-Covers ctx.settings initial state m.sets
        (v.start_counts target initial h ∙ sym e) in
    let (c, k) =
      update-AreConsistent m target merged.result (count ∙ v.start_counts target initial h) v in
    record {
      changed = merged.changed;
      starts = update m.start_states target (some merged.result);
      sets = merged.sets;
      equation = rw is_merged refl;
      consistent = c;
      keeps = k;
      started = λ z.
          some≢none (sym (update_hit m.start_states target target (some merged.result) refl) ∙ z);
      left = merged.result;
      held = update_hit m.start_states target target (some merged.result) refl;
      covered = covers.1;
    }

pub update_start-Updated :
    (ctx : Context) (n : ℕ) (m : Machine) (target : ℕ) (state : InterpreterState)
    → length state.locals ≡ n
    → IsValid ctx n m
    → Updated ctx n m target state (update_start ctx state target m)
unfolding update_start update_start_state
update_start-Updated ctx n m target state e v =
    updated_at m target state e v (m.start_states target) refl
