-- ===== src/Prefix/Laws.antt =====
-- What the script relies on about an Oracle sequence without a cache: LAST_NUMBER is the value
-- that NEXTVAL returns next, RESTART START WITH sets it, and a new increment keeps the last value
-- issued. `counter` is such a sequence.
use data_migration_tool.Prelude.{ℕ, ◌≡◌, sym, ap, ◌∙◌, Bool, true, false, none, some, if◌then◌else◌}
use data_migration_tool.Prelude.Int.{ℤ, pos, ◌+ℤ◌, ◌-ℤ◌}
use data_migration_tool.Prefix.{SeqState, Sequence}

pub record IsSequence (db : Sequence) : Type 0 where
  pub restart_row :
      (n : ℕ) (q q' : db.S) (st : SeqState)
      → db.row q ≡ some st
      → db.restart n q ≡ some q'
      → db.row q' ≡ some (record st { last = pos n })
  pub alter_row :
      (k : ℤ) (q : db.S) (st : SeqState)
      → db.row q ≡ some st
      → st.cache ≡ 0
      → db.row (db.increment_by k q)
        ≡ some (record { last = (st.last -ℤ st.inc) +ℤ k; cache = st.cache; inc = k })
  pub nextval_row :
      (q : db.S) (st : SeqState)
      → db.row q ≡ some st
      → st.cache ≡ 0
      → ((db.nextval q).0 ≡ st.last)
        × (db.row (db.nextval q).1 ≡ some (record st { last = st.last +ℤ st.inc }))

-- A sequence that keeps its row; `restarts` says whether it accepts RESTART.
abbrev pub counter : Bool → Sequence
counter restarts = record {
  S = SeqState;
  row = λ q. some q;
  restart = λ n q. if restarts then some (record q { last = pos n }) else none;
  increment_by = λ k q. record { last = (q.last -ℤ q.inc) +ℤ k; cache = q.cache; inc = k };
  nextval = λ q. (q.last, record q { last = q.last +ℤ q.inc });
}

counter_restart :
    (r : Bool) (n : ℕ) (q q' st : SeqState)
    → some q ≡ some st
    → (if r then some (record q { last = pos n }) else none) ≡ some q'
    → some q' ≡ some (record st { last = pos n })
counter_restart true n q q' st h k =
    let e : q ≡ st = cc in sym k ∙ ap (λ (x : SeqState). some (record x { last = pos n })) e
counter_restart false n q q' st h k = cc

pub counter-IsSequence : (r : Bool) → IsSequence (counter r)
counter-IsSequence r = record {
  restart_row = counter_restart r;
  alter_row = λ k q st h c.
      let e : q ≡ st = cc in
      ap
        (λ (x : SeqState).
          some (record { last = (x.last -ℤ x.inc) +ℤ k; cache = x.cache; inc = k }))
        e;
  nextval_row = λ q st h c.
      let e : q ≡ st = cc in
      (
        ap (λ (x : SeqState). x.last) e,
        ap (λ (x : SeqState). some (record x { last = x.last +ℤ x.inc })) e,
      );
}
