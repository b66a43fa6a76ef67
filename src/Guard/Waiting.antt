-- ===== src/Guard/Waiting.antt =====
-- The wait loop of the guard: what its answer means, and that it answers.
use data_migration_tool.Prelude.{
  ℕ, zero, suc, ◌+◌, ◌*◌, ◌/◌, ◌≤◌, ◌<◌, String, ◌≡◌, refl, ◌⊎◌, none, inl, inr, Bool, true, false,
  Option, some, List, [], ◌∷◌, arith, leb, leb→le, Bool-cases, add-one,
}
use native.Mathlib.Decide.{dec_lt}
use data_migration_tool.Guard.{
  Result, ok, err, Blocker, Outcome, World, elapsed, blockers, round, wait_loop,
  wait_until_no_dmt_jobs, default_poll_s, default_timeout_s, or_default,
}

-- The rule, with no fuel and no log: what the rounds from the n-th on decide.
pub data Decides (w : World) (timeout_s : ℕ) : ℕ → Bool → Type 0 where
  idle : {n : ℕ} → blockers (w.check n) ≡ ok [] → Decides w timeout_s n true
  unproven : {n : ℕ} (e : String) → blockers (w.check n) ≡ err e → Decides w timeout_s n false
  timed_out :
      {n : ℕ} (b : Blocker) (bs : List Blocker)
      → blockers (w.check n) ≡ ok (b ∷ bs)
      → timeout_s ≤ elapsed w n
      → Decides w timeout_s n false
  later :
      {n : ℕ} {d : Bool} (b : Blocker) (bs : List Blocker)
      → blockers (w.check n) ≡ ok (b ∷ bs)
      → elapsed w n < timeout_s
      → Decides w timeout_s (n + 1) d
      → Decides w timeout_s n d

-- `time.sleep(poll_s)` between two readings of a monotonic clock.
pub record Sleeps (w : World) (poll_s : ℕ) : Type 0 where
  pub positive : 0 < poll_s
  pub begins : w.start ≤ w.clock 0
  pub advances : (n : ℕ) → w.clock n + poll_s ≤ w.clock (n + 1)

abbrev Answer : World → ℕ → ℕ → Option Outcome → Type 0
Answer w t n r = (o : Outcome) × (r ≡ some o) × Decides w t n o.proceed

round-Answer :
    (w : World) (t n : ℕ) (first : Bool) (rest : Option Outcome) (r : Result (List Blocker))
    → blockers (w.check n) ≡ r
    → (elapsed w n < t → Answer w t (n + 1) rest)
    → Answer w t n (round w t n first rest r)
unfolding round
round-Answer w t n first rest (err e) h k = (_, refl, unproven e h)
round-Answer w t n first rest (ok []) h k = (_, refl, idle h)
round-Answer w t n first rest (ok (b ∷ bs)) h k = elim (Bool-cases (leb t (elapsed w n))) [
  | inl late ↦ rw late (_, refl, timed_out b bs h (leb→le t _ late))
  | inr early ↦
      let before : elapsed w n < t = ground arith in
      let (o, e, d) = k before in rw (early, e) (_, refl, later b bs h before d)
]

module _ (w : World) (t p : ℕ) (s : Sleeps w p) where
  clock-ge : (n : ℕ) → w.start + n * p ≤ w.clock n
  clock-ge zero = omega (arith, s.begins)
  clock-ge (suc n) =
      let step : w.clock n + p ≤ w.clock (suc n) = rw add-one at (s.advances n) in
      omega (arith, clock-ge n)

  loop-Answer :
      (fuel n : ℕ) (first : Bool)
      → t + p ≤ (fuel + n) * p
      → 0 < fuel
      → Answer w t n (wait_loop w t fuel n first)
  unfolding wait_loop
  loop-Answer zero n first h f = absurd (omega arith)
  loop-Answer (suc zero) n first h f =
      round-Answer w t n first (wait_loop w t zero (n + 1) false) (blockers (w.check n)) refl
        (λ early. absurd (omega (arith, clock-ge n)))
  loop-Answer (suc (suc fuel)) n first h f =
      round-Answer w t n first (wait_loop w t (suc fuel) (n + 1) false) (blockers (w.check n)) refl
        (λ early. loop-Answer (suc fuel) (n + 1) false (omega arith) (omega arith))

-- enough rounds for the timeout
enough_rounds : (t p : ℕ) → 0 < p → t + p ≤ (t / p + 2 + 0) * p
enough_rounds t p h = grind arith

-- Where sleeping advances the clock by the poll interval, the wait ends, and its answer is the one
-- that the rule decides: go ahead at the first idle check, refuse at a failed check or at a busy
-- one once the timeout has passed.
pub wait-Decides :
    (w : World) (timeout_s poll_s : ℕ)
    → Sleeps w poll_s
    → (o : Outcome) × (wait_until_no_dmt_jobs w (some timeout_s) (some poll_s) ≡ some o)
      × Decides w timeout_s 0 o.proceed
unfolding wait_until_no_dmt_jobs
wait-Decides w t p s =
    loop-Answer w t p s (t / p + 2) 0 true (enough_rounds t p s.positive) (omega arith)

-- The check that lets a deploy go ahead: each one before it was answered, and found something running.
pub record FirstIdle (w : World) (timeout_s n k : ℕ) : Type 0 where
  pub after : n ≤ k
  pub idle_now : blockers (w.check k) ≡ ok []
  pub busy_before :
      (j : ℕ)
      → n ≤ j
      → j < k
      → (b : Blocker) × (bs : List Blocker) × (blockers (w.check j) ≡ ok (b ∷ bs))
        × (elapsed w j < timeout_s)

Decides-FirstIdle :
    {w : World} {t n : ℕ} {d : Bool} → Decides w t n d → d ≡ true → (k : ℕ) × FirstIdle w t n k
Decides-FirstIdle {n} (idle e) h =
    (n, record { after = omega arith; idle_now = e; busy_before = λ j lo hi. absurd (omega arith) })
Decides-FirstIdle (unproven e x) h = cc
Decides-FirstIdle (timed_out b bs x y) h = cc
Decides-FirstIdle {w} {t} {n} (later b bs x y rest) h =
    let (k, f) = Decides-FirstIdle rest h in
    (
      k,
      record {
        after = omega (arith, f.after);
        idle_now = f.idle_now;
        busy_before = λ j lo hi. elim (dec_lt n j) [
          | yes p ↦ f.busy_before j (omega arith) hi
          | no p ↦ let e : j ≡ n = omega arith in rw e (b, bs, x, y)
        ];
      },
    )

-- Where sleeping advances the clock by the poll interval, a deploy goes ahead only at a check that finds
-- the database idle, after checks that were all answered and found it busy within the timeout.
pub proceed-FirstIdle :
    (w : World) (timeout_s poll_s : ℕ) (o : Outcome)
    → Sleeps w poll_s
    → wait_until_no_dmt_jobs w (some timeout_s) (some poll_s) ≡ some o
    → o.proceed ≡ true
    → (k : ℕ) × FirstIdle w timeout_s 0 k
proceed-FirstIdle w t p o s e h =
    let (o', e', d) = wait-Decides w t p s in
    let same : o' ≡ o = cc in Decides-FirstIdle d (rw same h)

-- The wait as the deploy tools call it, with the guard's poll interval: it ends; it refuses where the rule
-- says so, and otherwise the deploy goes ahead at the first idle check.
pub wait-cases :
    (w : World) (timeout : Option ℕ)
    → Sleeps w default_poll_s
    → let t = or_default timeout default_timeout_s in
      (o : Outcome) × (wait_until_no_dmt_jobs w timeout none ≡ some o)
      × (((o.proceed ≡ false) × Decides w t 0 false)
          ⊎ ((o.proceed ≡ true) × (k : ℕ) × FirstIdle w t 0 k))
unfolding wait_until_no_dmt_jobs
wait-cases w timeout s =
    let t = or_default timeout default_timeout_s in
    let (o, e, d) =
      loop-Answer w t default_poll_s s (t / default_poll_s + 2) 0 true
        (enough_rounds t default_poll_s s.positive) (omega arith) in
    (
      o,
      e,
      elim (Bool-cases o.proceed) [
        | inr p ↦ inl (p, rw p at d)
        | inl p ↦ let (k, f) = Decides-FirstIdle d p in inr (p, k, f)
      ],
    )
