-- ===== src/Graph/LocalScan.antt =====
-- What the scan of one local establishes (`fixLocals`, src/pyjion/instructions.cpp).
use pyjion.Prelude.{
  ◌≡◌, refl, arith, sym, if◌then◌else◌, ◌∙◌, ℕ, Bool, true, false, List, [], ◌∷◌, ◌⊎◌, inl, inr,
  All, Bool-cases,
}
use pyjion.Kind.{AbstractValueKind, avk_undefined, supports_escaping, kind_eq→≡}
use pyjion.Graph.{Instruction, Edge, get_edges, get_edges_from}
use pyjion.Graph.Locals.{
  LocalScan, clashes, note_kind, scan_load, scan_store, is_load_of, is_store_of, scan_instruction,
  scan_local,
}

-- No flag of the scan has been cleared.
abbrev pub IsTrusted : LocalScan → Type 0
IsTrusted s =
    (s.loads_can_be_escaped ≡ true)
    × (s.stores_can_be_escaped ≡ true)
    × (s.abstract_types_match ≡ true)

-- Exactly one edge, of the kind `k`, which can escape.
abbrev pub SoleEdge : AbstractValueKind → List Edge → Type 0
SoleEdge k es = (e : Edge) × (es ≡ e ∷ []) × (e.kind ≡ k) × (supports_escaping e.kind ≡ true)

-- A step of the scan from `s` to `t` keeps a kind once it is seen.
abbrev pub Keeps : LocalScan → LocalScan → Type 0
Keeps s t = IsTrusted s × ((s.local_avk ≡ avk_undefined) ⊎ (t.local_avk ≡ s.local_avk))

note_kind-Keeps :
    (k : AbstractValueKind) (s : LocalScan) → IsTrusted (note_kind k s) → Keeps s (note_kind k s)
unfolding note_kind clashes
note_kind-Keeps k s h = ground (arith, kind_eq→≡ s.local_avk avk_undefined, kind_eq→≡ s.local_avk k)

note_kind-local_avk : (k : AbstractValueKind) (s : LocalScan) → k ≡ (note_kind k s).local_avk
unfolding note_kind
note_kind-local_avk k s = refl

scan_load_sound :
    (es : List Edge) (s : LocalScan)
    → IsTrusted (scan_load es s)
    → Keeps s (scan_load es s) × SoleEdge (scan_load es s).local_avk es
unfolding scan_load
scan_load_sound [] s h = cc
scan_load_sound (e ∷ f ∷ es) s h = cc
scan_load_sound (e ∷ []) s h = elim (Bool-cases (supports_escaping e.kind)) [
  | inl can ↦
      let h' = rw can at h in
      rw can (
        note_kind-Keeps e.kind (record s { has_loads = true }) h',
        (e, refl, note_kind-local_avk e.kind (record s { has_loads = true }), can),
      )
  | inr cannot ↦ let h' = rw cannot at h in cc h'.0
]

scan_store_sound :
    (es : List Edge) (s : LocalScan)
    → IsTrusted (scan_store es s)
    → Keeps s (scan_store es s) × SoleEdge (scan_store es s).local_avk es
unfolding scan_store
scan_store_sound [] s h = cc
scan_store_sound (e ∷ f ∷ es) s h = cc
scan_store_sound (e ∷ []) s h = elim (Bool-cases (supports_escaping e.kind)) [
  | inl can ↦
      let h' = rw can at h in
      rw can (
        note_kind-Keeps e.kind (record s { has_stores = true }) h',
        (e, refl, note_kind-local_avk e.kind (record s { has_stores = true }), can),
      )
  | inr cannot ↦ let h' = rw cannot at h in cc h'.1
]

Keeps-trans : (s t u : LocalScan) → Keeps s t → Keeps t u → Keeps s u
Keeps-trans s t u (ok, inl e) k = (ok, inl e)
Keeps-trans s t u (ok, inr e) (ok', inl e') = (ok, inl (sym e ∙ e'))
Keeps-trans s t u (ok, inr e) (ok', inr e') = (ok, inr (e' ∙ e))

-- A kind that can escape is not the undefined one, so the scan keeps it.
SoleEdge-carry :
    (k k' : AbstractValueKind) (es : List Edge)
    → SoleEdge k es
    → (k ≡ avk_undefined) ⊎ (k' ≡ k)
    → SoleEdge k' es
unfolding supports_escaping
SoleEdge-carry k k' es (e, one, same, can) (inl none) =
    let bad : supports_escaping avk_undefined ≡ true = rw (same ∙ none) at can in cc bad
SoleEdge-carry k k' es (e, one, same, can) (inr eq) = (e, one, same ∙ sym eq, can)

-- Each use of the local `n` by the instruction has one edge, of the kind `k`.
abbrev pub UsesKind : ℕ → List Edge → AbstractValueKind → Instruction → Type 0
UsesKind n es k x =
    (is_load_of n x ≡ true → SoleEdge k (get_edges_from es x.index))
    × (is_store_of n x ≡ true → SoleEdge k (get_edges es x.index))

UsesKind-carry :
    (n : ℕ) (es : List Edge) (k k' : AbstractValueKind) (x : Instruction)
    → UsesKind n es k x
    → (k ≡ avk_undefined) ⊎ (k' ≡ k)
    → UsesKind n es k' x
UsesKind-carry n es k k' x (load, store) keep =
    (λ e. SoleEdge-carry k k' _ (load e) keep, λ e. SoleEdge-carry k k' _ (store e) keep)

load_step_sound :
    (es : List Edge) (s : LocalScan) (b : Bool)
    → IsTrusted (if b then scan_load es s else s)
    → Keeps s (if b then scan_load es s else s)
      × (b ≡ true → SoleEdge (if b then scan_load es s else s).local_avk es)
load_step_sound es s true h = let r = scan_load_sound es s h in (r.0, λ _. r.1)
load_step_sound es s false h = ((h, inr refl), λ e. cc)

store_step_sound :
    (es : List Edge) (s : LocalScan) (b : Bool)
    → IsTrusted (if b then scan_store es s else s)
    → Keeps s (if b then scan_store es s else s)
      × (b ≡ true → SoleEdge (if b then scan_store es s else s).local_avk es)
store_step_sound es s true h = let r = scan_store_sound es s h in (r.0, λ _. r.1)
store_step_sound es s false h = ((h, inr refl), λ e. cc)

scan_instruction_sound :
    (n : ℕ) (es : List Edge) (x : Instruction) (s : LocalScan)
    → IsTrusted (scan_instruction n es x s)
    → Keeps s (scan_instruction n es x s) × UsesKind n es (scan_instruction n es x s).local_avk x
unfolding scan_instruction
scan_instruction_sound n es x s h =
    let loaded = if is_load_of n x then scan_load (get_edges_from es x.index) s else s in
    let stored = store_step_sound (get_edges es x.index) loaded (is_store_of n x) h in
    let load = load_step_sound (get_edges_from es x.index) s (is_load_of n x) stored.0.0 in
    (
      Keeps-trans s loaded (scan_instruction n es x s) load.0 stored.0,
      (λ e. SoleEdge-carry _ _ (get_edges_from es x.index) (load.1 e) stored.0.1, stored.1),
    )

-- A scan that ends with its flags set has seen every load and store of the local with one
-- edge, of the kind that it reports.
pub scan_local_sound :
    (n : ℕ) (es : List Edge) (xs : List Instruction) (s : LocalScan)
    → IsTrusted (scan_local n es xs s)
    → Keeps s (scan_local n es xs s) × All (UsesKind n es (scan_local n es xs s).local_avk) xs
unfolding scan_local
scan_local_sound n es [] s h = ((h, inr refl), tt)
scan_local_sound n es (x ∷ xs) s h =
    let rest = scan_local_sound n es xs (scan_instruction n es x s) h in
    let first = scan_instruction_sound n es x s rest.0.0 in
    (
      Keeps-trans s (scan_instruction n es x s) (scan_local n es xs (scan_instruction n es x s))
          first.0 rest.0,
      (UsesKind-carry n es _ _ x first.1 rest.0.1, rest.1),
    )
