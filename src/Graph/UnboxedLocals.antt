-- ===== src/Graph/UnboxedLocals.antt =====
-- The locals that `fixLocals` marks as unboxed (src/pyjion/instructions.cpp).
use pyjion.Prelude.{
  ◌⊎◌, ◌≡◌, refl, arith, ℕ, zero, suc, ◌+◌, ◌-◌, true, false, List, [], ◌∷◌, All, All-mono, All-map,
  Bool-cases, inl, inr, map,
}
use pyjion.Kind.{AbstractValueKind}
use pyjion.Graph.{Instruction, Edge, InstructionGraph, get_edges, get_edges_from}
use pyjion.Graph.Locals.{
  LocalScan, first_scan, is_load_of, is_store_of, is_delete_of, scan_local, can_unbox_local,
  escape_local, fix_local, fix_locals_from, fix_locals,
}
use pyjion.Graph.LocalScan.{IsTrusted, SoleEdge, UsesKind, scan_local_sound}

-- An instruction treats the local `n` as unboxed: it is marked if it uses the local, and a load
-- or store has exactly one edge, of the kind `k`.
abbrev pub TreatsUnboxed : List Edge → ℕ → AbstractValueKind → Instruction → Type 0
TreatsUnboxed es n k x =
    (is_load_of n x ≡ true → SoleEdge k (get_edges_from es x.index) × (x.escape ≡ true))
    × (is_store_of n x ≡ true → SoleEdge k (get_edges es x.index) × (x.escape ≡ true))
    × (is_delete_of n x ≡ true → x.escape ≡ true)

abbrev pub IsUnboxedLocal : List Edge → List Instruction → ℕ × AbstractValueKind → Type 0
IsUnboxedLocal es xs (n, k) = All (TreatsUnboxed es n k) xs

-- Every local that the graph lists as unboxed is unboxed throughout.
abbrev pub LocalsAreUnboxed : InstructionGraph → Type 0
LocalsAreUnboxed g = All (IsUnboxedLocal g.edges g.instructions) g.unboxed_fast_locals

can_unbox_local-IsTrusted : (s : LocalScan) → can_unbox_local s ≡ true → IsTrusted s
unfolding can_unbox_local
can_unbox_local-IsTrusted s h = ground arith

abbrev IsMarked : ℕ → Instruction → Type 0
IsMarked n x = escape_local n x ≡ record x { escape = true }

abbrev IsLeft : ℕ → Instruction → Type 0
IsLeft n x =
    (escape_local n x ≡ x)
    × (is_load_of n x ≡ false)
    × (is_store_of n x ≡ false)
    × (is_delete_of n x ≡ false)

escape_local-cases : (n : ℕ) (x : Instruction) → IsMarked n x ⊎ IsLeft n x
unfolding escape_local
escape_local-cases n x = elim (Bool-cases (is_load_of n x)) [
  | inl l ↦ inl (rw l)
  | inr l ↦ elim (Bool-cases (is_store_of n x)) [
    | inl s ↦ inl (rw (l, s))
    | inr s ↦ elim (Bool-cases (is_delete_of n x)) [
      | inl d ↦ inl (rw (l, s, d))
      | inr d ↦ inr (rw (l, s, d), l, s, d)
    ]
  ]
]

module _ (es : List Edge) (n : ℕ) (k : AbstractValueKind) (x : Instruction) where
  escape_local-TreatsUnboxed : UsesKind n es k x → TreatsUnboxed es n k (escape_local n x)
  unfolding is_load_of is_store_of is_delete_of
  escape_local-TreatsUnboxed u = elim (escape_local-cases n x) [
    | inl e ↦ rw e ((λ h. (u.0 h, refl)), (λ h. (u.1 h, refl)), (λ h. refl))
    | inr (e, l, s, d) ↦ rw e ((λ h. cc), (λ h. cc), (λ h. cc))
  ]

  escape_local_mono : (m : ℕ) → TreatsUnboxed es m k x → TreatsUnboxed es m k (escape_local n x)
  unfolding is_load_of is_store_of is_delete_of
  escape_local_mono m u = elim (escape_local-cases n x) [
    | inl e ↦ rw e ((λ h. ((u.0 h).0, refl)), (λ h. ((u.1 h).0, refl)), (λ h. refl))
    | inr (e, l, s, d) ↦ rw e u
  ]

IsUnboxedLocal-mono :
    (es : List Edge) (xs : List Instruction) (n : ℕ) (entry : ℕ × AbstractValueKind)
    → IsUnboxedLocal es xs entry
    → IsUnboxedLocal es (map (escape_local n) xs) entry
IsUnboxedLocal-mono es xs n (m, k) =
    All-map (TreatsUnboxed es m k) (TreatsUnboxed es m k) (escape_local n) xs
      (λ x. escape_local_mono es n k x m)

-- Marking the uses of a local that the scan trusts, and listing it, keeps the invariant.
mark-LocalsAreUnboxed :
    (n : ℕ) (g : InstructionGraph)
    → IsTrusted (scan_local n g.edges g.instructions first_scan)
    → LocalsAreUnboxed g
    → All
        (IsUnboxedLocal g.edges (map (escape_local n) g.instructions))
        ((n, (scan_local n g.edges g.instructions first_scan).local_avk) ∷ g.unboxed_fast_locals)
mark-LocalsAreUnboxed n g ok h =
    let k = (scan_local n g.edges g.instructions first_scan).local_avk in
    (
      All-map (UsesKind n g.edges k) (TreatsUnboxed g.edges n k) (escape_local n) g.instructions
          (escape_local-TreatsUnboxed g.edges n k)
          (scan_local_sound n g.edges g.instructions first_scan ok).1,
      All-mono (IsUnboxedLocal g.edges g.instructions)
          (IsUnboxedLocal g.edges (map (escape_local n) g.instructions)) g.unboxed_fast_locals
          (IsUnboxedLocal-mono g.edges g.instructions n) h,
    )

fix_local-LocalsAreUnboxed :
    (n : ℕ) (g : InstructionGraph) → LocalsAreUnboxed g → LocalsAreUnboxed (fix_local n g)
unfolding fix_local
fix_local-LocalsAreUnboxed n g h =
    let s = scan_local n g.edges g.instructions first_scan in
    elim (Bool-cases (can_unbox_local s)) [
      | inl ok ↦ rw ok (mark-LocalsAreUnboxed n g (can_unbox_local-IsTrusted s ok) h)
      | inr out ↦ rw out h
    ]

fix_locals_from-LocalsAreUnboxed :
    (count start : ℕ) (g : InstructionGraph)
    → LocalsAreUnboxed g
    → LocalsAreUnboxed (fix_locals_from count start g)
unfolding fix_locals_from
fix_locals_from-LocalsAreUnboxed zero start g h = h
fix_locals_from-LocalsAreUnboxed (suc count) start g h =
    fix_locals_from-LocalsAreUnboxed count (suc start) (fix_local start g)
      (fix_local-LocalsAreUnboxed start g h)

-- From a graph that lists no unboxed local, `fixLocals` over any range of locals lists only
-- locals whose every load and store has exactly one edge, all of the listed kind, which can
-- escape, and whose loads, stores and deletions are all marked to run unboxed.
pub fix_locals-LocalsAreUnboxed :
    (start_idx end_idx : ℕ) (g : InstructionGraph)
    → g.unboxed_fast_locals ≡ []
    → LocalsAreUnboxed (fix_locals start_idx end_idx g)
unfolding fix_locals
fix_locals-LocalsAreUnboxed start_idx end_idx g h =
    fix_locals_from-LocalsAreUnboxed (end_idx + 1 - start_idx) start_idx g (rw h tt)
