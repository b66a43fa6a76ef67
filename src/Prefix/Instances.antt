-- ===== src/Prefix/Instances.antt =====
-- Prefixes over the life of the two instances: runs draw from a sequence, their rows are committed
-- later, and calls of `sync_prefix_for` come in between, in any order.
use data_migration_tool.Prelude.{
  ℕ, ◌+◌, ◌≤◌, ◌<◌, ◌≡◌, refl, ◌∙◌, true, false, Option, none, some, List, [], ◌∷◌, arith, any,
}
use data_migration_tool.Prelude.Int.{ℤ, pos, ◌+ℤ◌, eq_ℤ, int_laws}
use data_migration_tool.Prefix.{
  Sequence, ok, How, Reading, unreachable, unreadable, runs, World, Db, sync_prefix_for,
}
use data_migration_tool.Prefix.Laws.{IsSequence}
use data_migration_tool.Prefix.Sync.{at}
use data_migration_tool.Prefix.Forward.{sync_prefix_for-Ends}
use data_migration_tool.Prefix.Fresh.{sync_prefix_for-Read, next_issued}
use data_migration_tool.Prefix.Issued.{Target, local, atp, Below, Below-weaken, next_prefix-fresh}

-- what a query of the runs on an instance meets
pub data Sees (rows : List (Option ℕ)) : Reading → Type 0 where
  no_session : Sees rows unreachable
  no_answer : Sees rows unreadable
  reads : Sees rows (runs rows)

-- the drawn values, latest first, fall strictly from below the next value
abbrev pub Falls : ℕ → List ℤ → Type 0
Falls n [] = Unit {0}
Falls n (d ∷ ds) = (m : ℕ) × (d ≡ pos m) × (m < n) × Falls m ds

Falls-weaken : (m n : ℕ) (ds : List ℤ) → m ≤ n → Falls m ds → Falls n ds
Falls-weaken m n [] h f = tt
Falls-weaken m n (d ∷ ds) h (k, e, l, f) = (k, e, omega arith, f)

module _ (db : Sequence) where
  open db use {S, row, nextval}

  -- an instance: its sequence with what syncs hold, the drawn values, and the committed run rows
  pub record Site : Type 0 where
    pub held : Db S
    pub drawn : List ℤ
    pub rows : List (Option ℕ)

  pub record Pod : Type 0 where
    pub on_local : Site
    pub on_atp : Site

  abbrev pub site : Target → Pod → Site
  site local p = p.on_local
  site atp p = p.on_atp

  abbrev pub set_site : Target → Site → Pod → Pod
  set_site local s p = record p { on_local = s }
  set_site atp s p = record p { on_atp = s }

  abbrev pub drawn_site : Site → Site
  drawn_site s = record s {
    held = record (s.held) { seq = (nextval (s.held.seq)).1 };
    drawn = (nextval (s.held.seq)).0 ∷ s.drawn;
  }

  abbrev pub synced_site : World → Site → Site
  synced_site w s = record s { held = (sync_prefix_for db w s.held).1 }

  -- What can happen next: a NEXTVAL of a run submission, the commit of a run row with a drawn prefix, a
  -- run row without a numeric prefix, and a call of `sync_prefix_for` on one instance, which reads the runs of
  -- both as they are and may fail anywhere. A call of the sync is one step.
  pub data Step (p : Pod) : Pod → Type 0 where
    draw : (t : Target) → Step p (set_site t (drawn_site (site t p)) p)
    commit :
        (t : Target) (q : ℕ)
        → any (λ d. eq_ℤ d (pos q)) (site t p).drawn ≡ true
        → Step p (set_site t (record (site t p) { rows = some q ∷ (site t p).rows }) p)
    no_prefix :
        (t : Target) → Step p (set_site t (record (site t p) { rows = none ∷ (site t p).rows }) p)
    sync :
        (t : Target) (w : World)
        → Sees p.on_local.rows w.on_local
        → Sees p.on_atp.rows w.on_atp
        → Step p (set_site t (synced_site w (site t p)) p)

  pub data Reach (p : Pod) : Pod → Type 0 where
    here : Reach p p
    then_step : {q r : Pod} → Reach p q → Step q r → Reach p r

  -- a sequence without a cache and with increment 1, above all that it has issued, and a free lock
  pub record Issued (s : Site) : Type 0 where
    pub next : ℕ
    pub issues : row (s.held.seq) ≡ some (at next)
    pub falls : Falls next s.drawn
    pub unlocked : s.held.locked ≡ false

  abbrev pub IssuedOnce : Pod → Type 0
  IssuedOnce p = Issued p.on_local × Issued p.on_atp

  module _ (laws : IsSequence db) where
    drawn-Issued : (s : Site) → Issued s → Issued (drawn_site s)
    drawn-Issued s i =
        let (v, r) = laws.nextval_row (s.held.seq) (at i.next) i.issues refl in
        let up : pos i.next +ℤ pos 1 ≡ pos (i.next + 1) = omega int_laws in
        record {
          next = i.next + 1;
          issues = r ∙ rw up refl;
          falls = (i.next, v, omega arith, i.falls);
          unlocked = i.unlocked;
        }

    synced-Issued : (w : World) (s : Site) → Issued s → Issued (synced_site w s)
    synced-Issued w s i =
        let e = sync_prefix_for-Ends db laws w s.held i.unlocked in
        let (m, r, le) = e.usable i.next i.issues in
        record {
          next = m;
          issues = rw e.released r;
          falls = Falls-weaken i.next m s.drawn le i.falls;
          unlocked = rw e.released i.unlocked;
        }

    committed-Issued :
        (s : Site) (o : Option ℕ) → Issued s → Issued (record s { rows = o ∷ s.rows })
    committed-Issued s o i = record {
      next = i.next;
      issues = i.issues;
      falls = i.falls;
      unlocked = i.unlocked;
    }

    set_site-IssuedOnce :
        (t : Target) (p : Pod) (s : Site)
        → (Issued (site t p) → Issued s)
        → IssuedOnce p
        → IssuedOnce (set_site t s p)
    set_site-IssuedOnce local p s f i = (f i.0, i.1)
    set_site-IssuedOnce atp p s f i = (i.0, f i.1)

    Step-IssuedOnce : {p q : Pod} → Step p q → IssuedOnce p → IssuedOnce q
    Step-IssuedOnce {p} (draw t) i = set_site-IssuedOnce t p _ (drawn-Issued (site t p)) i
    Step-IssuedOnce {p} (commit t q h) i =
        set_site-IssuedOnce t p _ (committed-Issued (site t p) (some q)) i
    Step-IssuedOnce {p} (no_prefix t) i =
        set_site-IssuedOnce t p _ (committed-Issued (site t p) none) i
    Step-IssuedOnce {p} (sync t w a b) i = set_site-IssuedOnce t p _ (synced-Issued w (site t p)) i

    -- a sync has read the rows that it saw
    runs_seen : (rows u : List (Option ℕ)) (x : Reading) → Sees rows x → x ≡ runs u → rows ≡ u
    runs_seen rows u _ no_session e = absurd (cc)
    runs_seen rows u _ no_answer e = absurd (cc)
    runs_seen rows u _ reads e = cc

    Below-read : (m n : ℕ) (rows u : List (Option ℕ)) → rows ≡ u → n ≤ m → Below n u → Below m rows
    Below-read m n rows u e le b = rw e (Below-weaken n m u le b)

    -- What a sync that returns gives from here: the prefix that its instance issues next, above all that
    -- the runs of both instances have.
    abbrev pub SyncsFresh : Pod → Type 0
    SyncsFresh p =
        (t : Target) (w : World) (v : ℤ) (how : How)
        → Sees p.on_local.rows w.on_local
        → Sees p.on_atp.rows w.on_atp
        → (sync_prefix_for db w (site t p).held).0 ≡ ok (v, how)
        → (m : ℕ) × (v ≡ pos m)
          × (row ((synced_site w (site t p)).held.seq) ≡ some (at m))
          × Below m p.on_local.rows
          × Below m p.on_atp.rows

    site-Issued : (t : Target) (p : Pod) → IssuedOnce p → Issued (site t p)
    site-Issued local p i = i.0
    site-Issued atp p i = i.1

    IssuedOnce-SyncsFresh : (p : Pod) → IssuedOnce p → SyncsFresh p
    IssuedOnce-SyncsFresh p i t w v how a b h =
        let d = (site t p).held in
        let f = site-Issued t p i in
        let r = sync_prefix_for-Read db w d (v, how) h in
        let (m, x, y, le) = next_issued db w d laws f.next f.issues v how h in
        let (bl, ba, used) = next_prefix-fresh r.on_local r.on_atp in
        (
          m,
          x,
          y,
          Below-read m _ p.on_local.rows r.on_local (runs_seen _ _ w.on_local a r.local_read) le bl,
          Below-read m _ p.on_atp.rows r.on_atp (runs_seen _ _ w.on_atp b r.atp_read) le ba,
        )

    Reach-kept : {p q : Pod} → IssuedOnce p → Reach p q → IssuedOnce q
    Reach-kept i here = i
    Reach-kept i (then_step r s) = Step-IssuedOnce s (Reach-kept i r)

    -- Whatever the order of draws, commits and syncs, also of syncs that fail and of syncs between a draw and
    -- the commit of its run, no instance issues a prefix twice: each one is larger than all that it issued
    -- before. And a sync that returns then gives the prefix that its instance issues next, which is above
    -- every prefix that a run of either instance has. The sequences start without a cache and with
    -- increment 1, and nothing draws during a sync.
    pub Reach-IssuedOnce : {p q : Pod} → IssuedOnce p → Reach p q → IssuedOnce q × SyncsFresh q
    Reach-IssuedOnce {q = q} i r = let k = Reach-kept i r in (k, IssuedOnce-SyncsFresh q k)
