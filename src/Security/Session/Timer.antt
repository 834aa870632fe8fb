-- ===== src/Security/Session/Timer.antt =====
-- The browser's `setTimeout` and `clearTimeout`, as far as the session uses them: the timers that
-- are pending, with the time at which each is due.
use xv.Prelude.{ℕ, ◌+◌, Option, none, some, List, [], ◌∷◌, leb, ◌==◌, if◌then◌else◌}

pub record Timers : Type 0 where
  pub next_id : ℕ
  pub pending : List (ℕ × ℕ)

-- The first identifier is 1.
abbrev pub no_timers : Timers
no_timers = record { next_id = 1; pending = [] }

abbrev without : ℕ → List (ℕ × ℕ) → List (ℕ × ℕ)
without id [] = []
without id ((j, due) ∷ l) = let rest = without id l in if j == id then rest else (j, due) ∷ rest

unfoldable pub set_timeout : ℕ → ℕ → Timers → ℕ × Timers
set_timeout now delay t =
    (t.next_id, record { next_id = t.next_id + 1; pending = (t.next_id, now + delay) ∷ t.pending })

-- Clearing an identifier that is not pending does nothing.
unfoldable pub clear_timeout : ℕ → Timers → Timers
clear_timeout id t = record t { pending = without id t.pending }

abbrev due_at : ℕ → List (ℕ × ℕ) → Option ℕ
due_at id [] = none
due_at id ((j, due) ∷ l) = if j == id then some due else due_at id l

-- A timer that is due leaves the pending ones when it runs.
unfoldable pub expire : ℕ → ℕ → Timers → Option Timers
expire id now t = elim (due_at id t.pending) [
  | none ↦ none
  | some due ↦ if leb due now then some (record t { pending = without id t.pending }) else none
]
