-- ===== src/Regression/Waiting.antt =====
-- scripts/dmt_regression_run.py: `wait_for_run`, which polls a run until it ends or the time is up.
-- Times are in seconds; the loop runs on fuel, and one round for each second of the timeout is enough.
pub mod Ends
mod Tests
use data_migration_tool.Prelude.{
  ℕ, zero, suc, ◌+◌, ◌-◌, ◌*◌, min, String, Bool, true, false, not, ◌&&◌, Option, none, some, List,
  [], ◌∷◌, ltb, nat_beq, if◌then◌else◌, any,
}
use data_migration_tool.Prelude.Text.{Text, codes, text_eq}
use data_migration_tool.Regression.Rows.Counts.{sorted_items}

abbrev pub terminal_run_statuses : List String
terminal_run_statuses =
    "COMPLETED" ∷ "COMPLETED_ERRORS" ∷ "FAILED" ∷ "NO_ROWS_PROCESSED" ∷ "CANCELLED" ∷ []

abbrev pub terminal_queue_statuses : List String
terminal_queue_statuses = "DONE" ∷ "FAILED" ∷ "SKIPPED" ∷ "CANCELLED" ∷ []

-- text in words
unfoldable pub is_one_of : List String → Text → Bool
is_one_of ws t = any (λ w. text_eq t (codes w)) ws

-- WORK_STATUS and how many rows have it
abbrev pub Qmap : Type 0
Qmap = List (Text × ℕ)

-- `_poll_once`: it raises, or reads the status of the run and its queue
pub data Poll : Type 0 where
  raises : Text → Poll
  reads : Text → Qmap → Poll

-- the queue rows that are not at their end
unfoldable pub non_terminal_q : Qmap → ℕ
non_terminal_q [] = 0
non_terminal_q ((k, v) ∷ q) =
    let rest = non_terminal_q q in if is_one_of terminal_queue_statuses k then rest else v + rest

unfoldable pub has_ended : Text → Qmap → Bool
has_ended status q = is_one_of terminal_run_statuses status && nat_beq (non_terminal_q q) 0

unfoldable pub same_qmap : Qmap → Qmap → Bool
same_qmap [] [] = true
same_qmap ((k, v) ∷ p) ((l, w) ∷ q) = text_eq k l && (nat_beq v w && same_qmap p q)
same_qmap _ _ = false

abbrev pub Snapshot : Type 0
Snapshot = Option (Text × Qmap)

unfoldable pub is_snapshot : Snapshot → Text → Qmap → Bool
is_snapshot none status q = false
is_snapshot (some (s, p)) status q = text_eq s status && same_qmap p q

-- What round n meets: the poll, the time of the loop's test, the time behind the poll.
pub record World : Type 0 where
  pub start : ℕ
  pub poll : ℕ → Poll
  pub clock : ℕ → ℕ
  pub later : ℕ → ℕ

-- What the loop prints, with the seconds that it sleeps after a failed poll.
pub data Event : Type 0 where
  poll_failed : ℕ → ℕ → Event
  changed : Text → Qmap → Event
  stalled : Text → Event

pub record Waited : Type 0 where
  pub final : Option Text
  pub events : List Event

abbrev pub first_event : Event → Option Waited → Option Waited
first_event e none = none
first_event e (some w) = some (record w { events = e ∷ w.events })

module _ (w : World) (deadline stall_s : ℕ) where
  -- `none` is the fuel's end
  unfoldable pub poll_loop : ℕ → ℕ → ℕ → Snapshot → ℕ → Option Waited
  poll_loop zero n poll_errors last_snapshot last_change = none
  poll_loop (suc fuel) n poll_errors last_snapshot last_change =
      if not (ltb (w.clock n) deadline)
      then some (record { final = none; events = [] })
      else elim (w.poll n) [
        | raises e ↦
            first_event (poll_failed (poll_errors + 1) (min 45 (10 * (poll_errors + 1))))
              (poll_loop fuel (n + 1) (poll_errors + 1) last_snapshot last_change)
        | reads status q ↦
            let snapshot = sorted_items q in
            let quiet = poll_loop fuel (n + 1) 0 last_snapshot last_change in
            let noted = poll_loop fuel (n + 1) 0 (some (status, snapshot)) (w.later n) in
            let warned = poll_loop fuel (n + 1) 0 last_snapshot (w.later n) in
            let done = some (record { final = some status; events = [] }) in
            if not (is_snapshot last_snapshot status snapshot)
            then first_event (changed status snapshot) (if has_ended status q then done else noted)
            else if ltb stall_s (w.later n - last_change)
            then first_event (stalled status) (if has_ended status q then done else warned)
            else if has_ended status q
            then done
            else quiet
      ]

-- the empty text for a run that did not end in time is `none`
unfoldable pub wait_for_run : World → ℕ → ℕ → Option Waited
wait_for_run w timeout_min stall_min =
    poll_loop w (w.start + timeout_min * 60) (stall_min * 60) (timeout_min * 60 + 1) 0 0 none
      w.start
