-- ===== src/Prefix/Sync.antt =====
-- The sync moves a sequence forward, to the prefix after the highest one used, and never back.
use data_migration_tool.Prelude.{
  ℕ, ◌≡◌, refl, ap, ◌∙◌, inl, inr, true, false, some, if◌then◌else◌, Bool-cases, Option-cases,
}
use data_migration_tool.Prelude.Int.{
  ℤ, pos, ◌+ℤ◌, ◌-ℤ◌, leb_ℤ, eq_ℤ, eq_ℤ_sound, eq_ℤ_refl, int_laws, pos_part, neg_part,
}
use data_migration_tool.Prefix.{
  SeqState, Sequence, Result, ok, How, already_set, untouched, restarted, increment_reset,
  increment_used, Db, seq_state, alter_increment, draw, increment_trick, set_next, confirm,
  move_forward,
}
use data_migration_tool.Prefix.Laws.{IsSequence}

abbrev pub at : ℕ → SeqState
at n = record { last = pos n; cache = 0; inc = pos 1 }

-- the step of the INCREMENT BY trick, for a last issued value `l`
abbrev step_to : ℕ → ℤ → ℤ
step_to n l = (pos n -ℤ pos 1) -ℤ l

reset_value : (n : ℕ) (l : ℤ) → eq_ℤ (step_to n l) (pos 0) ≡ true → l +ℤ pos 1 ≡ pos n
reset_value n l h =
    let e = eq_ℤ_sound (step_to n l) (pos 0) h in omega (int_laws, ap pos_part e, ap neg_part e)

landed_value : (n : ℕ) (l : ℤ) → l +ℤ step_to n l ≡ pos n -ℤ pos 1
landed_value n l = omega int_laws

after_value : (n : ℕ) (l : ℤ) → (((pos n -ℤ pos 1) +ℤ step_to n l) -ℤ step_to n l) +ℤ pos 1 ≡ pos n
after_value n l = omega int_laws

module _ (db : Sequence) (laws : IsSequence db) where
  open db use {S, row, restart, increment_by, nextval}

  pub seq_state_lem : (s : Db S) (st : SeqState) → row s.seq ≡ some st → seq_state db s ≡ (ok st, s)
  unfolding seq_state
  seq_state_lem s st e = rw (e, seq_state)

  -- An operation that ends with the sequence at `n`, and holds what it held.
  pub record Sets {A : Type 0} (n : ℕ) (s : Db S) (r : Result A × Db S) : Type 0 where
    pub value : A
    pub seq : S
    pub returns : r ≡ (ok value, record s { seq = seq })
    pub row_after : row seq ≡ some (at n)

  module _ (n : ℕ) (s : Db S) (st : SeqState) (found : row s.seq ≡ some st)
      (nocache : st.cache ≡ 0) where
    abbrev step : ℤ
    step = step_to n (st.last -ℤ st.inc)

    abbrev stepped : S
    stepped = increment_by step s.seq

    abbrev issued : S
    issued = (nextval stepped).1

    reset_row : eq_ℤ step (pos 0) ≡ true → row (increment_by (pos 1) s.seq) ≡ some (at n)
    reset_row h =
        laws.alter_row (pos 1) s.seq st found nocache
        ∙ rw (reset_value n (st.last -ℤ st.inc) h, nocache)

    stepped_row : row stepped ≡ some (record { last = pos n -ℤ pos 1; cache = 0; inc = step })
    stepped_row =
        laws.alter_row step s.seq st found nocache
        ∙ rw (landed_value n (st.last -ℤ st.inc), nocache)

    landed : (nextval stepped).0 ≡ pos n -ℤ pos 1
    landed = (laws.nextval_row stepped _ stepped_row refl).0

    trick_row : row (increment_by (pos 1) issued) ≡ some (at n)
    trick_row =
        laws.alter_row (pos 1) issued _ (laws.nextval_row stepped _ stepped_row refl).1 refl
        ∙ rw (after_value n (st.last -ℤ st.inc))

    trick-Sets : Sets n s (increment_trick db n s)
    unfolding increment_trick alter_increment draw
    trick-Sets = elim (Bool-cases (eq_ℤ step (pos 0))) [
      | inl h ↦ record {
        value = increment_reset;
        seq = increment_by (pos 1) s.seq;
        returns = rw (seq_state_lem s st found, nocache, h);
        row_after = reset_row h;
      }
      | inr h ↦ record {
        value = increment_used;
        seq = increment_by (pos 1) issued;
        returns = rw (seq_state_lem s st found, nocache, h, landed, eq_ℤ_refl);
        row_after = trick_row;
      }
    ]

  module _ (n : ℕ) (s : Db S) (l : ℤ)
      (found : row s.seq ≡ some (record { last = l; cache = 0; inc = pos 1 })) where
    set_next-Sets : Sets n s (set_next db n s)
    unfolding set_next
    set_next-Sets = elim (Option-cases (restart n s.seq)) [
      | inl h ↦
          let t = trick-Sets n s _ found refl in
          record {
            value = t.value;
            seq = t.seq;
            returns = rw (h, set_next) t.returns;
            row_after = t.row_after;
          }
      | inr (q, h) ↦ record {
        value = restarted;
        seq = q;
        returns = rw (h, set_next);
        row_after = laws.restart_row n s.seq q _ found h;
      }
    ]

    -- the sequence is behind: it is set to `n`, and the check afterwards passes
    pub move-behind :
        leb_ℤ (pos n) l ≡ false
        → (how : How) × (q : S) × (move_forward db n s ≡ (ok (pos n, how), record s { seq = q }))
          × (row q ≡ some (at n))
    unfolding move_forward confirm
    move-behind h =
        let t = set_next-Sets in
        (
          t.value,
          t.seq,
          rw (
            seq_state_lem s _ found,
            h,
            t.returns,
            seq_state_lem (record s { seq = t.seq }) (at n) t.row_after,
            eq_ℤ_refl,
          ),
          t.row_after,
        )

    -- the sequence is there or ahead: it is left alone
    pub move-ahead : leb_ℤ (pos n) l ≡ true → (how : How) × (move_forward db n s ≡ (ok (l, how), s))
    unfolding move_forward
    move-ahead h =
        (if eq_ℤ l (pos n) then already_set else untouched, rw (seq_state_lem s _ found, h))
