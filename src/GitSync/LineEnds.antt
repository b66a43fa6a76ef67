-- ===== src/GitSync/LineEnds.antt =====
-- Reading a file changes its line ends and keeps its lines.
use data_migration_tool.Prelude.{
  ℕ, ◌≡◌, refl, inl, inr, true, false, List, [], ◌∷◌, arith, nat_beq, if◌then◌else◌, Bool-cases,
}
use data_migration_tool.Prelude.Text.{Text}
use data_migration_tool.Deploy.Split.{pieces, splitlines, is_line_break, onto_line}
use data_migration_tool.GitSync.{ObjectType}
use data_migration_tool.GitSync.Normalize.{normalize, read_text}

abbrev at_break : ℕ → List Text → List Text
at_break c rest = if is_line_break c then [] ∷ rest else onto_line c rest

-- every character but a carriage return
pieces-other : (c : ℕ) (t : Text) → nat_beq c 13 ≡ false → pieces (c ∷ t) ≡ at_break c (pieces t)
unfolding pieces
pieces-other c t h = rw h

pieces-return :
    (c d : ℕ) (t : Text)
    → nat_beq c 13 ≡ true
    → pieces (c ∷ (d ∷ t)) ≡ (if nat_beq d 10 then pieces (d ∷ t) else [] ∷ pieces (d ∷ t))
unfolding pieces
pieces-return c d t h = let e : c ≡ 13 = ground arith in rw e

read_text-pair :
    (c d : ℕ) (t : Text)
    → read_text (c ∷ (d ∷ t)) ≡ (
        if nat_beq c 13
        then (if nat_beq d 10 then read_text (d ∷ t) else 10 ∷ read_text (d ∷ t))
        else c ∷ read_text (d ∷ t))
unfolding read_text
read_text-pair c d t = refl

one_break : pieces (10 ∷ []) ≡ pieces (13 ∷ [])
unfolding pieces
one_break = refl

-- the line ends of a file do not change its lines
pub pieces-read_text : (t : Text) → pieces (read_text t) ≡ pieces t
unfolding read_text
pieces-read_text [] = refl
pieces-read_text (c ∷ []) = elim (Bool-cases (nat_beq c 13)) [
  | inl h ↦ let e : c ≡ 13 = ground arith in rw e one_break
  | inr h ↦ rw h
]
pieces-read_text (c ∷ (d ∷ t)) =
    let ih : pieces (read_text (d ∷ t)) ≡ pieces (d ∷ t) = pieces-read_text (d ∷ t) in
    elim (Bool-cases (nat_beq c 13)) [
      | inl h ↦ elim (Bool-cases (nat_beq d 10)) [
        | inl k ↦ rw (read_text-pair c d t, pieces-return c d t h, h, k, ih)
        | inr k ↦ rw (
          read_text-pair c d t,
          pieces-return c d t h,
          h,
          k,
          pieces-other 10 (read_text (d ∷ t)) refl,
          ih,
        )
      ]
      | inr h ↦ rw (
        read_text-pair c d t,
        h,
        pieces-other c (read_text (d ∷ t)) h,
        pieces-other c (d ∷ t) h,
        ih,
      )
    ]

pub normalize-read_text :
    (otype : ObjectType) (t : Text) → normalize otype (read_text t) ≡ normalize otype t
unfolding normalize splitlines
normalize-read_text otype t = rw (pieces-read_text t)
