-- ===== src/Prefix/Forward.antt =====
-- What a call of `sync_prefix_for` does to the sequence, whatever happens.
use data_migration_tool.Prelude.{
  ℕ, ◌+◌, ◌-◌, ◌≤◌, max, ◌≡◌, refl, sym, ap, ◌∙◌, inl, inr, true, false, some, Option, List, arith,
  ltb, Bool-cases,
}
use data_migration_tool.Prelude.Int.{pos, ◌≤ℤ◌}
use data_migration_tool.Prefix.{
  SeqState, Sequence, Result, Exec, ok, exit, no_connection, statement_failed, lock_not_granted,
  max_used_prefix, How, prefix_max, Reading, unreachable, unreadable, runs, World, next_prefix,
  read_prefix, read_next, Db, move_forward, with_session, with_lock, sync_to, sync_prefix_for,
  ◌>>=◌,
}
use data_migration_tool.Prefix.Laws.{IsSequence}
use data_migration_tool.Prefix.Sync.{at}
use data_migration_tool.Prefix.Moves.{Ends, stays, move-Ends, with_session-Ends, move_to_max}

-- how many sessions a sync leaves open, and why
pub data Leak (w : World) : ℕ → Type 0 where
  no_leak : Leak w 0
  lock_leak : w.lock_merged ≡ false → Leak w 1
  local_leak : w.on_local ≡ unreadable → Leak w 1
  atp_leak : w.on_atp ≡ unreadable → Leak w 1

-- A sync that ends, ok or not, with its sessions closed but for a leak, and the rest as above.
pub record SyncEnds {A : Type 0} (db : Sequence) (w : World) (s : Db db.S) (r : Result A × Db db.S)
    : Type 0 where
  pub leaked : ℕ
  pub why : Leak w leaked
  pub seq : db.S
  pub released : r.1 ≡ record s { seq = seq; sessions = s.sessions + leaked }
  pub forward :
      (st : SeqState)
      → db.row s.seq ≡ some st
      → (st' : SeqState) × (db.row seq ≡ some st') × (st.last ≤ℤ st'.last)
  pub usable : (l : ℕ) → db.row s.seq ≡ some (at l) → (m : ℕ) × (db.row seq ≡ some (at m)) × (l ≤ m)

module _ (db : Sequence) (laws : IsSequence db) where
  open db use {S, row}

  equal_to :
      {A : Type 0} (w : World) (s : Db S) (r t : Result A × Db S)
      → r ≡ t
      → SyncEnds db w s t
      → SyncEnds db w s r
  equal_to w s r t e x = rw e x

  -- without a leak
  all_closed :
      {A : Type 0} (w : World) (s : Db S) (r : Result A × Db S) → Ends db s r → SyncEnds db w s r
  all_closed w s r e =
      let same : s.sessions ≡ s.sessions + 0 = omega arith in
      record {
        leaked = 0;
        why = no_leak;
        seq = e.seq;
        released = e.released ∙ (λ j. record s { seq = e.seq; sessions = same j });
        forward = e.forward;
        usable = e.usable;
      }

  -- a session is left open, and nothing else is changed
  left_open :
      {A : Type 0} (w : World) (s : Db S) (x : Result A)
      → Leak w 1
      → SyncEnds db w s (x, record s { sessions = s.sessions + 1 })
  left_open w s x l = record {
    leaked = 1;
    why = l;
    seq = s.seq;
    released = refl;
    forward = λ st e. (st, e, omega arith);
    usable = λ l e. (l, e, omega arith);
  }

  sync_to-Ends : (w : World) (n : ℕ) (s : Db S) → Ends db s (sync_to db w n s)
  unfolding sync_to
  sync_to-Ends w n s = elim (Bool-cases (ltb prefix_max n)) [
    | inl h ↦ rw h (stays db laws s _)
    | inr h ↦ rw h (
        with_session-Ends db laws w.sync_session (move_forward db n) s
          (move-Ends db laws n (record s { sessions = s.sessions + 1 })))
  ]

  body-SyncEnds :
      (w : World) (s : Db S) (a b : Reading)
      → w.on_local ≡ a
      → w.on_atp ≡ b
      → SyncEnds db w s ((do n ← read_next w; sync_to db w n) s)
  unfolding read_next read_prefix
  body-SyncEnds w s unreachable b p q =
      equal_to w s _ (exit no_connection, s) (simp (p) refl) (all_closed w s _ (stays db laws s _))
  body-SyncEnds w s unreadable b p q =
      equal_to w s _ (exit statement_failed, record s { sessions = s.sessions + 1 }) (simp (p) refl)
        (left_open w s _ (local_leak p))
  body-SyncEnds w s (runs x) unreachable p q =
      equal_to w s _ (exit no_connection, s) (simp (p, q) refl)
        (all_closed w s _ (stays db laws s _))
  body-SyncEnds w s (runs x) unreadable p q =
      equal_to w s _ (exit statement_failed, record s { sessions = s.sessions + 1 })
        (simp (p, q) refl) (left_open w s _ (atp_leak q))
  body-SyncEnds w s (runs x) (runs y) p q =
      let n = max (max_used_prefix x) (max_used_prefix y) + 1 in
      equal_to w s _ (sync_to db w n s) (simp (p, q) refl) (all_closed w s _ (sync_to-Ends w n s))

  with_lock-SyncEnds :
      {A : Type 0} (w : World) (m : Exec S A) (s : Db S)
      → s.locked ≡ false
      → SyncEnds db w
          (record s { sessions = s.sessions + 1; locked = true })
          (m (record s { sessions = s.sessions + 1; locked = true }))
      → SyncEnds db w s (with_lock w m s)
  unfolding with_lock
  with_lock-SyncEnds w m s f e = elim (Bool-cases w.lock_session) [
    | inr a ↦
        equal_to w s _ (exit no_connection, s) (simp (a) refl)
          (all_closed w s _ (stays db laws s _))
    | inl a ↦ elim (Bool-cases w.lock_merged) [
      | inr b ↦
          equal_to w s _ (exit statement_failed, record s { sessions = s.sessions + 1 })
            (simp (a, b) refl) (left_open w s _ (lock_leak b))
      | inl b ↦ elim (Bool-cases w.lock_granted) [
        | inr c ↦
            equal_to w s _ (exit lock_not_granted, s) (simp (a, b, c) refl)
              (all_closed w s _ (stays db laws s _))
        | inl c ↦
            let back : s.sessions + 1 + e.leaked - 1 ≡ s.sessions + e.leaked = omega arith in
            let inner = m (record s { sessions = s.sessions + 1; locked = true }) in
            equal_to w s _
              (inner.0, record (inner.1) { sessions = inner.1.sessions - 1; locked = false })
              (simp (a, b, c) refl)
              (record {
                leaked = e.leaked;
                why = e.why;
                seq = e.seq;
                released =
                    ap (λ (x : Db S). record x { sessions = x.sessions - 1; locked = false })
                      e.released
                    ∙ (λ j. record s { seq = e.seq; sessions = back j; locked = sym f j });
                forward = e.forward;
                usable = e.usable;
              })
      ]
    ]
  ]

  -- However a call of the sync ends (a refusal, a session that does not open, a MERGE or a query that
  -- fails, a lock that is not granted), it leaves the lock free and the sequence's next value is never lower
  -- than before. It leaves its sessions closed, but for one where the MERGE of the lock's row or a query for
  -- the highest prefix fails. The statements on the sequence do not fail here, but for RESTART.
  pub sync_prefix_for-Ends :
      (w : World) (s : Db S) → s.locked ≡ false → SyncEnds db w s (sync_prefix_for db w s)
  unfolding sync_prefix_for
  sync_prefix_for-Ends w s f =
      with_lock-SyncEnds w (do n ← read_next w; sync_to db w n) s f
        (body-SyncEnds w (record s { sessions = s.sessions + 1; locked = true }) w.on_local w.on_atp
          refl refl)

  -- Where the sessions open, the MERGE and the queries go through, the lock is granted, the next prefix is
  -- at most the maximum, and the sequence has no cache and increment 1, the call returns the larger of the
  -- prefix after the highest one used on either instance and the value that the sequence would have
  -- issued anyway, and that value is what the sequence issues next.
  pub sync_prefix_for_lem :
      (w : World) (local_runs atp_runs : List (Option ℕ)) (l : ℕ) (s : Db S)
      → w.lock_session ≡ true
      → w.lock_merged ≡ true
      → w.lock_granted ≡ true
      → w.on_local ≡ runs local_runs
      → w.on_atp ≡ runs atp_runs
      → w.sync_session ≡ true
      → next_prefix local_runs atp_runs ≤ prefix_max
      → row s.seq ≡ some (at l)
      → (how : How) × ((sync_prefix_for db w s).0
          ≡ ok (pos (max (next_prefix local_runs atp_runs) l), how))
        × (row (sync_prefix_for db w s).1.seq ≡ some (at (max (next_prefix local_runs atp_runs) l)))
  unfolding sync_prefix_for read_next read_prefix sync_to with_lock with_session next_prefix
  sync_prefix_for_lem w local_runs atp_runs l s a m b p q c le e =
      let n = next_prefix local_runs atp_runs in
      let inner : Db S = record s { sessions = s.sessions + 1 + 1; locked = true } in
      let (how, q', r, after) = move_to_max db laws n l inner e in
      let small : ltb prefix_max n ≡ false = ground arith in
      (how, simp (a, m, b, p, q, small, c, r), simp (a, m, b, p, q, small, c, r) after)
