-- ===== src/Interpreter/Safety/Branches.antt =====
-- What a jump leaves at its target.
use pyjion.Prelude.{◌≡◌, ℕ, Bool, if◌then◌else◌, some, [], ◌∷◌, ◌++◌}
use pyjion.State.{InterpreterState}
use pyjion.State.Covering.{StateIsCovered}
use pyjion.Interpreter.{Context, Machine, Result, ok}

-- The outcome of a branch to `target`.
abbrev pub Branches : Context → Machine → ℕ → Result Bool → Type 0
Branches ctx m target r =
    (changed : Bool) × (n : Machine) × (s : InterpreterState) × (r ≡ ok changed n)
    × (n.start_states target ≡ some s)
    × StateIsCovered ctx.settings m.state s
    × (n.queue ≡ (if changed then m.queue ++ target ∷ [] else m.queue))
