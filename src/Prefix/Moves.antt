-- ===== src/Prefix/Moves.antt =====
-- What the read, compare and restart of `sync_prefix_for` does to the sequence, whatever happens.
use data_migration_tool.Prelude.{
  ℕ, ◌+◌, ◌-◌, ◌≤◌, max, ◌≡◌, refl, ap, ◌∙◌, inl, inr, Bool, true, false, none, some, arith,
  nat_beq, Bool-cases, Option-cases,
}
use data_migration_tool.Prelude.Int.{ℤ, pos, ◌≤ℤ◌, leb_ℤ, eq_ℤ, eq_ℤ_sound}
use data_migration_tool.Prefix.{
  SeqState, Sequence, Result, Exec, ok, exit, not_found, cached, wrong_increment, How, Db,
  seq_state, move_forward, with_session,
}
use data_migration_tool.Prefix.Laws.{IsSequence}
use data_migration_tool.Prefix.Sync.{at, seq_state_lem, move-behind, move-ahead}

-- An operation that ends, ok or not, with what it held, and with a sequence that has not moved backwards
-- and that stays usable: without a cache, with increment 1 and a positive next value.
pub record Ends {A : Type 0} (db : Sequence) (s : Db db.S) (r : Result A × Db db.S) : Type 0 where
  pub seq : db.S
  pub released : r.1 ≡ record s { seq = seq }
  pub forward :
      (st : SeqState)
      → db.row s.seq ≡ some st
      → (st' : SeqState) × (db.row seq ≡ some st') × (st.last ≤ℤ st'.last)
  pub usable : (l : ℕ) → db.row s.seq ≡ some (at l) → (m : ℕ) × (db.row seq ≡ some (at m)) × (l ≤ m)

behind :
    (n : ℕ) (l : ℤ) (st : SeqState)
    → record { last = l; cache = 0; inc = pos 1 } ≡ st
    → leb_ℤ (pos n) l ≡ false
    → st.last ≤ℤ pos n
behind n l st e h = let k : l ≡ st.last = ap (λ (x : SeqState). x.last) e in rw (← k) (ground arith)

module _ (db : Sequence) (laws : IsSequence db) where
  open db use {S, row}

  pub stays : {A : Type 0} (s : Db S) (r : Result A) → Ends db s (r, s)
  stays s r = record {
    seq = s.seq;
    released = refl;
    forward = λ st e. (st, e, omega arith);
    usable = λ l e. (l, e, omega arith);
  }

  -- the sequence is usable
  move_usable :
      (n : ℕ) (s : Db S) (l : ℤ)
      → row s.seq ≡ some (record { last = l; cache = 0; inc = pos 1 })
      → Ends db s (move_forward db n s)
  move_usable n s l e = elim (Bool-cases (leb_ℤ (pos n) l)) [
    | inl h ↦ let (how, r) = move-ahead db laws n s l e h in rw r (stays s _)
    | inr h ↦
        let (how, q, r, a) = move-behind db laws n s l e h in
        rw r (record {
          seq = q;
          released = refl;
          forward = λ st f. (at n, a, behind n l st (cc) h);
          usable = λ k f. let b = behind n l (at k) (cc) h in (n, a, ground (arith, b));
        })
  ]

  move_no_row : (n : ℕ) (s : Db S) → row s.seq ≡ none → move_forward db n s ≡ (exit not_found, s)
  unfolding move_forward seq_state
  move_no_row n s e = rw (e, seq_state)

  move_cached :
      (n : ℕ) (s : Db S) (st : SeqState)
      → row s.seq ≡ some st
      → nat_beq st.cache 0 ≡ false
      → move_forward db n s ≡ (exit (cached st.cache), s)
  unfolding move_forward
  move_cached n s st e h = rw (seq_state_lem db laws s st e, h)

  move_increment :
      (n : ℕ) (s : Db S) (st : SeqState)
      → row s.seq ≡ some st
      → nat_beq st.cache 0 ≡ true
      → eq_ℤ st.inc (pos 1) ≡ false
      → move_forward db n s ≡ (exit (wrong_increment st.inc), s)
  unfolding move_forward
  move_increment n s st e h k = rw (seq_state_lem db laws s st e, h, k)

  pub move-Ends : (n : ℕ) (s : Db S) → Ends db s (move_forward db n s)
  move-Ends n s = elim (Option-cases (row s.seq)) [
    | inl e ↦ rw (move_no_row n s e) (stays s _)
    | inr (st, e) ↦ elim (Bool-cases (nat_beq st.cache 0)) [
      | inr h ↦ rw (move_cached n s st e h) (stays s _)
      | inl h ↦ elim (Bool-cases (eq_ℤ st.inc (pos 1))) [
        | inr k ↦ rw (move_increment n s st e h k) (stays s _)
        | inl k ↦
            let c : st.cache ≡ 0 = ground arith in
            let i = eq_ℤ_sound st.inc (pos 1) k in
            move_usable n s st.last
              (e ∙ (λ j. some (record { last = st.last; cache = c j; inc = i j })))
      ]
    ]
  ]

  pub with_session-Ends :
      {A : Type 0} (b : Bool) (m : Exec S A) (s : Db S)
      → Ends db
          (record s { sessions = s.sessions + 1 })
          (m (record s { sessions = s.sessions + 1 }))
      → Ends db s (with_session b m s)
  unfolding with_session
  with_session-Ends false m s e = stays s _
  with_session-Ends true m s e =
      let back : s.sessions + 1 - 1 ≡ s.sessions = omega arith in
      record {
        seq = e.seq;
        released =
            ap (λ (x : Db S). record x { sessions = x.sessions - 1 }) e.released
            ∙ (λ j. record s { seq = e.seq; sessions = back j });
        forward = e.forward;
        usable = e.usable;
      }

  pub move_to_max :
      (n l : ℕ) (s : Db S)
      → row s.seq ≡ some (at l)
      → (how : How) × (q : S) × (move_forward db n s
          ≡ (ok (pos (max n l), how), record s { seq = q }))
        × (row q ≡ some (at (max n l)))
  move_to_max n l s e = elim (Bool-cases (leb_ℤ (pos n) (pos l))) [
    | inl h ↦
        let m : max n l ≡ l = ground arith in
        let (how, r) = move-ahead db laws n s (pos l) e h in (how, s.seq, rw (r, m), rw m e)
    | inr h ↦
        let m : max n l ≡ n = ground arith in
        let (how, q, r, a) = move-behind db laws n s (pos l) e h in (how, q, rw (r, m), rw m a)
  ]
