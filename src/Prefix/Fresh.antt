-- ===== src/Prefix/Fresh.antt =====
-- What a sync that returns says of the prefix that is issued next.
use data_migration_tool.Prelude.{
  ℕ, ◌≤◌, max, ◌≡◌, refl, inl, inr, true, Option, some, List, arith, ltb, Bool-cases,
}
use data_migration_tool.Prelude.Int.{ℤ, pos}
use data_migration_tool.Prefix.{
  Sequence, ok, exit, no_connection, statement_failed, lock_not_granted, above_maxvalue, How,
  prefix_max, Reading, unreachable, unreadable, runs, World, next_prefix, read_prefix, read_next,
  Db, with_session, with_lock, sync_to, sync_prefix_for,
}
use data_migration_tool.Prefix.Laws.{IsSequence}
use data_migration_tool.Prefix.Sync.{at}
use data_migration_tool.Prefix.Forward.{sync_prefix_for_lem}

-- the runs that a sync has read, and that nothing failed
pub record Read (w : World) : Type 0 where
  pub on_local : List (Option ℕ)
  pub on_atp : List (Option ℕ)
  pub lock_session : w.lock_session ≡ true
  pub lock_merged : w.lock_merged ≡ true
  pub lock_granted : w.lock_granted ≡ true
  pub sync_session : w.sync_session ≡ true
  pub local_read : w.on_local ≡ runs on_local
  pub atp_read : w.on_atp ≡ runs on_atp
  pub below_max : next_prefix on_local on_atp ≤ prefix_max

module _ (db : Sequence) (w : World) (s : Db db.S) where
  abbrev Returns : ℤ × How → Type 0
  Returns r = (sync_prefix_for db w s).0 ≡ ok r

  lock_held :
      (r : ℤ × How)
      → Returns r
      → (w.lock_session ≡ true) × (w.lock_merged ≡ true) × (w.lock_granted ≡ true)
  unfolding sync_prefix_for with_lock
  lock_held r h = elim (Bool-cases w.lock_session) [
    | inr a ↦ absurd (let z : (sync_prefix_for db w s).0 ≡ exit no_connection = simp (a) refl in cc)
    | inl a ↦ elim (Bool-cases w.lock_merged) [
      | inr b ↦
          absurd
            (let z : (sync_prefix_for db w s).0 ≡ exit statement_failed = simp (a, b) refl in cc)
      | inl b ↦ elim (Bool-cases w.lock_granted) [
        | inr c ↦
            absurd (
              let z : (sync_prefix_for db w s).0 ≡ exit lock_not_granted = simp (a, b, c) refl in
              cc)
        | inl c ↦ (a, b, c)
      ]
    ]
  ]

  both_read : (r : ℤ × How) (x y : Reading) → w.on_local ≡ x → w.on_atp ≡ y → Returns r → Read w
  unfolding sync_prefix_for with_lock read_next read_prefix sync_to with_session next_prefix
  both_read r unreachable y p q h =
      let (a, b, c) = lock_held r h in
      absurd
        (let z : (sync_prefix_for db w s).0 ≡ exit no_connection = simp (a, b, c, p) refl in cc)
  both_read r unreadable y p q h =
      let (a, b, c) = lock_held r h in
      absurd
        (let z : (sync_prefix_for db w s).0 ≡ exit statement_failed = simp (a, b, c, p) refl in cc)
  both_read r (runs u) unreachable p q h =
      let (a, b, c) = lock_held r h in
      absurd
        (let z : (sync_prefix_for db w s).0 ≡ exit no_connection = simp (a, b, c, p, q) refl in cc)
  both_read r (runs u) unreadable p q h =
      let (a, b, c) = lock_held r h in
      absurd (
        let z : (sync_prefix_for db w s).0 ≡ exit statement_failed = simp (a, b, c, p, q) refl in
        cc)
  both_read r (runs u) (runs v) p q h =
      let (a, b, c) = lock_held r h in
      elim (Bool-cases (ltb prefix_max (next_prefix u v))) [
        | inl l ↦ absurd (
            let z : (sync_prefix_for db w s).0 ≡ exit (above_maxvalue (next_prefix u v)) =
              simp (a, b, c, p, q, l) refl in
            cc)
        | inr l ↦ elim (Bool-cases w.sync_session) [
          | inr d ↦ absurd (
              let z : (sync_prefix_for db w s).0 ≡ exit no_connection =
                simp (a, b, c, p, q, l, d) refl in
              cc)
          | inl d ↦ record {
            on_local = u;
            on_atp = v;
            lock_session = a;
            lock_merged = b;
            lock_granted = c;
            sync_session = d;
            local_read = p;
            atp_read = q;
            below_max = ground arith;
          }
        ]
      ]

  -- a sync that returns has read the runs of both instances, and aims above them
  pub sync_prefix_for-Read : (r : ℤ × How) → Returns r → Read w
  sync_prefix_for-Read r h = both_read r w.on_local w.on_atp refl refl h

  -- From a usable sequence, what a sync returns is what the sequence issues next, and it is not below the
  -- prefix after the highest one used on either instance.
  pub next_issued :
      IsSequence db
      → (l : ℕ) → db.row s.seq ≡ some (at l)
      → (v : ℤ) (how : How) (h : Returns (v, how))
      → (m : ℕ) × (v ≡ pos m)
        × (db.row (sync_prefix_for db w s).1.seq ≡ some (at m))
        × (let r = sync_prefix_for-Read (v, how) h in next_prefix r.on_local r.on_atp ≤ m)
  next_issued laws l e v how h =
      let r = sync_prefix_for-Read (v, how) h in
      let (how', x, y) =
        sync_prefix_for_lem db laws w r.on_local r.on_atp l s r.lock_session r.lock_merged
          r.lock_granted r.local_read r.atp_read r.sync_session r.below_max e in
      (max (next_prefix r.on_local r.on_atp) l, cc, y, omega arith)
