-- ===== src/Regression/Waiting/Ends.antt =====
-- The wait for a run ends, and how.
use data_migration_tool.Prelude.{
  ℕ, zero, suc, ◌+◌, ◌-◌, ◌*◌, ◌≤◌, ◌<◌, ◌≡◌, refl, ◌⊎◌, inl, inr, true, Option, none, some, [],
  ◌∷◌, arith, ltb, if◌then◌else◌, Bool-cases,
}
use data_migration_tool.Prelude.Text.{Text}
use mathlib.Core.Path.{subst}
use data_migration_tool.Regression.Rows.Counts.{sorted_items}
use data_migration_tool.Regression.Waiting.{
  World, Poll, raises, reads, Qmap, Snapshot, has_ended, is_snapshot, Event, Waited, first_event,
  poll_loop, wait_for_run,
}

-- the wait begins at or after the start, and a round, with its sleep, takes a second or more
pub record Advances (w : World) : Type 0 where
  pub begins : w.start ≤ w.clock 0
  pub advances : (n : ℕ) → w.clock n + 1 ≤ w.clock (n + 1)

-- the poll of a round that says that the run is over
abbrev pub IsOver : Poll → Type 0
IsOver (raises e) = ⊥
IsOver (reads status q) = has_ended status q ≡ true

-- How the wait from round n on ends: the time is up, or a poll in time finds the run at a terminal
-- status with no open queue row, and no round before it did.
pub data Ends (w : World) (deadline : ℕ) : ℕ → Option Text → Type 0 where
  timed_out : {n : ℕ} → deadline ≤ w.clock n → Ends w deadline n none
  over :
      {n : ℕ} {status : Text} {q : Qmap}
      → w.clock n < deadline
      → w.poll n ≡ reads status q
      → has_ended status q ≡ true
      → Ends w deadline n (some status)
  again :
      {n : ℕ} {r : Option Text}
      → w.clock n < deadline
      → ¬ IsOver (w.poll n)
      → Ends w deadline (n + 1) r
      → Ends w deadline n r

Poll-cases :
    (p : Poll)
    → ((e : Text) × (p ≡ raises e)) ⊎ ((status : Text) × (q : Qmap) × (p ≡ reads status q))
Poll-cases (raises e) = inl (e, refl)
Poll-cases (reads status q) = inr (status, q, refl)

module _ (w : World) (deadline stall_s : ℕ) (adv : Advances w) where
  -- a result, and how it comes about
  abbrev Result : ℕ → Option Waited → Type 0
  Result n o = (r : Waited) × (o ≡ some r) × Ends w deadline n r.final

  with_event : (n : ℕ) (e : Event) (o : Option Waited) → Result n o → Result n (first_event e o)
  with_event n e o (r, q, x) = (record r { events = e ∷ r.events }, rw q refl, x)

  later_round :
      (n : ℕ) {o : Option Waited}
      → w.clock n < deadline
      → ¬ IsOver (w.poll n)
      → Result (n + 1) o
      → Result n o
  later_round n early open_run (r, k, x) = (r, k, again early open_run x)

  -- the end of a round whose poll could be read
  settle :
      (n : ℕ) (status : Text) (q : Qmap) (rest : Option Waited)
      → w.clock n < deadline
      → w.poll n ≡ reads status q
      → Result (n + 1) rest
      → Result n
          (if has_ended status q then some (record { final = some status; events = [] }) else rest)
  settle n status q rest early e (r, k, x) = elim (Bool-cases (has_ended status q)) [
    | inl h ↦ rw h (record { final = some status; events = [] }, refl, over early e h)
    | inr h ↦
        rw h (r, k, again early (λ o. let t : has_ended status q ≡ true = subst IsOver e o in cc) x)
  ]

  poll_loop-Ends :
      (fuel n errors : ℕ) (last : Snapshot) (change : ℕ)
      → deadline < w.clock n + fuel
      → 0 < fuel
      → Result n (poll_loop w deadline stall_s fuel n errors last change)
  unfolding poll_loop
  poll_loop-Ends zero n errors last change h f = absurd (omega arith)
  poll_loop-Ends (suc fuel) n errors last change h f =
      elim (Bool-cases (ltb (w.clock n) deadline)) [
        | inr late ↦
            simp (late, poll_loop)
              (record { final = none; events = [] }, refl, timed_out (ground arith))
        | inl early ↦
            let before : w.clock n < deadline = ground arith in
            let more : deadline < w.clock (n + 1) + fuel = omega (arith, adv.advances n) in
            let some_fuel : 0 < fuel = omega arith in
            elim (Poll-cases (w.poll n)) [
              | inl (e, k) ↦
                  let rest = poll_loop-Ends fuel (n + 1) (errors + 1) last change more some_fuel in
                  rw (early, k)
                    (with_event n _ _ (later_round n before (λ o. subst IsOver k o) rest))
              | inr (status, q, k) ↦
                  let settled : (last' : Snapshot) (change' : ℕ)
                      → Result n (
                          if has_ended status q
                          then some (record { final = some status; events = [] })
                          else poll_loop w deadline stall_s fuel (n + 1) 0 last' change') =
                    λ last' change'.
                      settle n status q _ before k
                        (poll_loop-Ends fuel (n + 1) 0 last' change' more some_fuel) in
                  elim (Bool-cases (is_snapshot last status (sorted_items q))) [
                    | inr new ↦ rw (early, k, new) (with_event n _ _ (settled _ _))
                    | inl old ↦ elim (Bool-cases (ltb stall_s (w.later n - change))) [
                      | inl long ↦ rw (early, k, old, long) (with_event n _ _ (settled _ _))
                      | inr short ↦ rw (early, k, old, short) (settled _ _)
                    ]
                  ]
            ]
      ]

-- While every round takes a second or more, the wait ends by itself: with the terminal status that a
-- poll before the deadline reads while no queue row is open, the first such poll, or with none once the
-- deadline has passed.
pub wait_for_run-Ends :
    (w : World) (timeout_min stall_min : ℕ)
    → Advances w
    → (r : Waited) × (wait_for_run w timeout_min stall_min ≡ some r)
      × Ends w (w.start + timeout_min * 60) 0 r.final
unfolding wait_for_run
wait_for_run-Ends w timeout_min stall_min adv =
    poll_loop-Ends w (w.start + timeout_min * 60) (stall_min * 60) adv (timeout_min * 60 + 1) 0 0
      none w.start (omega (arith, adv.begins)) (omega arith)
