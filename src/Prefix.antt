-- ===== src/Prefix.antt =====
-- scripts/ci_promote.py: the prefix sync. The Oracle sequence is an argument, with what the code and
-- its comments rely on as laws in `Prefix/Laws.antt`; what the script keeps open (its sessions and the
-- row lock) is part of the state.
pub mod Laws
pub mod Sync
pub mod Moves
pub mod Forward
pub mod Fresh
pub mod Issued
pub mod Instances
mod Tests
use data_migration_tool.Prelude.{
  ℕ, ◌+◌, ◌-◌, max, Bool, true, false, not, ◌||◌, Option, none, some, List, [], ◌∷◌, ltb, nat_beq,
  if◌then◌else◌,
}
use data_migration_tool.Prelude.Int.{ℤ, pos, negsuc, ◌+ℤ◌, ◌-ℤ◌, leb_ℤ, eq_ℤ}

-- (LAST_NUMBER, CACHE_SIZE, INCREMENT_BY) of the sequence's row in USER_SEQUENCES
pub record SeqState : Type 0 where
  pub last : ℤ
  pub cache : ℕ
  pub inc : ℤ

-- The database's sequence: its row (none: not found) and the statements that the script sends.
-- `restart` answers none where the database rejects ALTER SEQUENCE ... RESTART START WITH.
pub record Sequence : Type 1 where
  pub S : Type 0
  pub row : S → Option SeqState
  pub restart : ℕ → S → Option S
  pub increment_by : ℤ → S → S
  pub nextval : S → ℤ × S

pub data Exit : Type 0 where
  no_connection statement_failed lock_not_granted not_found trick_cached : Exit
  above_maxvalue : ℕ → Exit
  cached : ℕ → Exit
  wrong_increment : ℤ → Exit
  landed_elsewhere : ℤ → Exit
  not_set : ℤ → ℤ → Exit

pub data Result {ℓ} (A : Type ℓ) : Type ℓ where
  ok : A → Result A
  exit : Exit → Result A

pub data How : Type 0 where
  already_set untouched restarted increment_reset increment_used : How

-- PREFIX_MAX
abbrev pub prefix_max : ℕ
prefix_max = 99999

-- the query of max_used_prefix: `none` is a PREFIX that is no number
unfoldable pub max_used_prefix : List (Option ℕ) → ℕ
max_used_prefix [] = 0
max_used_prefix (none ∷ rows) = max_used_prefix rows
max_used_prefix (some p ∷ rows) = max p (max_used_prefix rows)

-- the next prefix, for the runs of the two instances
unfoldable pub next_prefix : List (Option ℕ) → List (Option ℕ) → ℕ
next_prefix local_runs atp_runs = max (max_used_prefix local_runs) (max_used_prefix atp_runs) + 1

-- What max_used_prefix meets on an instance: no session, a query that fails, or the runs.
pub data Reading : Type 0 where
  unreachable unreadable : Reading
  runs : List (Option ℕ) → Reading

-- What the script meets: whether the sessions open, the MERGE of the lock's row and its commit go
-- through and the lock is granted in time, and the two instances as they are once the lock is held.
pub record World : Type 0 where
  pub lock_session : Bool
  pub lock_merged : Bool
  pub lock_granted : Bool
  pub sync_session : Bool
  pub on_local : Reading
  pub on_atp : Reading

-- The sequence, and what the script holds while it runs.
pub record Db (S : Type 0) : Type 0 where
  pub seq : S
  pub sessions : ℕ
  pub locked : Bool

abbrev pub Exec : Type 0 → Type 0 → Type 0
Exec S A = Db S → Result A × Db S

abbrev pub follow : {S A B : Type 0} → Result A → (A → Exec S B) → Exec S B
follow (ok a) f s = f a s
follow (exit e) f s = (exit e, s)

infixl 10 ◌>>=◌ ◌>>◌
abbrev pub ◌>>=◌ : {S A B : Type 0} → Exec S A → (A → Exec S B) → Exec S B
◌>>=◌ m f s = follow (m s).0 f (m s).1

abbrev pub ◌>>◌ : {S A B : Type 0} → Exec S A → Exec S B → Exec S B
m >> k = m >>= λ _. k

abbrev pub pure : {S A : Type 0} → A → Exec S A
pure a s = (ok a, s)

abbrev pub raise : {S A : Type 0} → Exit → Exec S A
raise e s = (exit e, s)

-- max_used_prefix with its session, which it closes behind the query only
unfoldable pub read_prefix : {S : Type 0} → Reading → Exec S ℕ
read_prefix unreachable s = (exit no_connection, s)
read_prefix unreadable s = (exit statement_failed, record s { sessions = s.sessions + 1 })
read_prefix (runs rows) s = (ok (max_used_prefix rows), s)

-- n
unfoldable pub read_next : {S : Type 0} → World → Exec S ℕ
unfolding read_prefix
read_next w = do a ← read_prefix w.on_local; b ← read_prefix w.on_atp; pure (max a b + 1)

module _ (db : Sequence) where
  open db use {S, row, restart, increment_by, nextval}

  unfoldable pub seq_state : Exec S SeqState
  seq_state s = elim (row s.seq) [ none ↦ (exit not_found, s) | some st ↦ (ok st, s) ]

  unfoldable pub alter_increment : ℤ → Exec S (Unit {0})
  alter_increment k s = (ok tt, record s { seq = increment_by k s.seq })

  unfoldable pub draw : Exec S ℤ
  draw s = let (v, q) = nextval s.seq in (ok v, record s { seq = q })

  -- the fallback of `_set_next`
  unfoldable pub increment_trick : ℕ → Exec S How
  increment_trick n = do
    st ← seq_state
    let step = (pos n -ℤ pos 1) -ℤ (st.last -ℤ st.inc)
    if not (nat_beq st.cache 0)
        then raise trick_cached
        else if eq_ℤ step (pos 0)
        then (do alter_increment (pos 1); pure increment_reset)
        else do
          alter_increment step
          landed ← draw
          alter_increment (pos 1)
          if not (eq_ℤ landed (pos n -ℤ pos 1))
              then raise (landed_elsewhere landed)
              else pure increment_used

  unfoldable pub set_next : ℕ → Exec S How
  set_next n s = elim (restart n s.seq) [
    | some q ↦ (ok restarted, record s { seq = q })
    | none ↦ increment_trick n s
  ]

  -- the check after `_set_next`
  unfoldable pub confirm : ℕ → How → SeqState → Exec S (ℤ × How)
  confirm n how st =
      if not (eq_ℤ st.last (pos n)) || not (eq_ℤ st.inc (pos 1))
      then raise (not_set st.last st.inc)
      else pure (pos n, how)

  -- read, compare and restart
  unfoldable pub move_forward : ℕ → Exec S (ℤ × How)
  move_forward n = do
    st ← seq_state
    if not (nat_beq st.cache 0)
        then raise (cached st.cache)
        else if not (eq_ℤ st.inc (pos 1))
        then raise (wrong_increment st.inc)
        else if leb_ℤ (pos n) st.last
        then pure (st.last, (if eq_ℤ st.last (pos n) then already_set else untouched))
        else do how ← set_next n; after ← seq_state; confirm n how after

-- con = _oracle(target); try: ... finally: con.close()
unfoldable pub with_session : {S A : Type 0} → Bool → Exec S A → Exec S A
with_session opens m s =
    if not opens
    then (exit no_connection, s)
    else let (r, s') = m (record s { sessions = s.sessions + 1 }) in
      (r, record s' { sessions = s'.sessions - 1 })

-- _acquire_prefix_lock; try: ... finally: _release_prefix_lock. A MERGE that fails leaves the session open.
unfoldable pub with_lock : {S A : Type 0} → World → Exec S A → Exec S A
with_lock w m s =
    if not w.lock_session
    then (exit no_connection, s)
    else if not w.lock_merged
    then (exit statement_failed, record s { sessions = s.sessions + 1 })
    else if not w.lock_granted
    then (exit lock_not_granted, s)
    else let (r, s') = m (record s { sessions = s.sessions + 1; locked = true }) in
      (r, record s' { sessions = s'.sessions - 1; locked = false })

module _ (db : Sequence) where
  open db use {S}

  -- compare with the maximum and move the sequence
  unfoldable pub sync_to : World → ℕ → Exec S (ℤ × How)
  sync_to w n =
      if ltb prefix_max n
      then raise (above_maxvalue n)
      else with_session w.sync_session (move_forward db n)

  unfoldable pub sync_prefix_for : World → Exec S (ℤ × How)
  unfolding with_lock read_next sync_to
  sync_prefix_for w = with_lock w (do n ← read_next w; sync_to w n)
