-- ===== src/GitSync/Pulled.antt =====
-- scripts/dmt_db_git_sync.py: what --check says, and that it says nothing behind a --pull.
use data_migration_tool.Prelude.{
  ◌≡◌, refl, ◌∙◌, ◌↔◌, inl, inr, Bool, true, false, not, ◌&&◌, none, some, List, [], ◌∷◌, ◌++◌,
  arith, Bool-cases, Option-cases, is_empty, any, all,
}
use data_migration_tool.Prelude.{is_empty-append}
use data_migration_tool.Prelude.Text.{Text, text_eq, text_eq_refl}
use data_migration_tool.GitSync.LineEnds.{normalize-read_text}
use data_migration_tool.GitSync.{Tracked}
use data_migration_tool.GitSync.Normalize.{normalize}
use data_migration_tool.GitSync.Sync.{
  Schema, Files, Report, Mode, check, pull, deployed_text, same_source, settle, visit, visit_all,
  exit_code, main, write,
}

-- pairwise different paths
unfoldable pub apart : List Tracked → Bool
apart [] = true
apart (o ∷ os) = not (any (λ u. text_eq u.path o.path) os) && apart os

module _ (s : Schema) where
  -- an object that the schema has stands in its file
  unfoldable pub stands : Files → Tracked → Bool
  unfolding same_source
  stands files o = elim (deployed_text s o) [
    | none ↦ true
    | some t ↦ same_source o.object_type (files o.path) t
  ]

  -- the cases of one object
  visit-none :
      (mode : Mode) (o : Tracked) (r : Report)
      → deployed_text s o ≡ none
      → visit mode s o r ≡ record r { missing = r.missing ++ o.name ∷ [] }
  unfolding visit
  visit-none mode o r h = rw (h, visit)

  visit-some :
      (mode : Mode) (o : Tracked) (r : Report) (t : Text)
      → deployed_text s o ≡ some t
      → visit mode s o r ≡ settle mode o t r
  unfolding visit
  visit-some mode o r t h = rw (h, visit)

  settle-kept :
      (o : Tracked) (t : Text) (r : Report)
      → (Report.files (settle check o t r) ≡ r.files)
        × (is_empty (Report.drift (settle check o t r))
            ≡ (is_empty r.drift && same_source o.object_type (r.files o.path) t))
  unfolding settle
  settle-kept o t r = elim (Bool-cases (same_source o.object_type (r.files o.path) t)) [
    | inl h ↦ rw h (refl, ground arith)
    | inr h ↦ rw h (refl, rw (is_empty-append r.drift (o.path ∷ [])) (ground arith))
  ]

  visit-kept :
      (o : Tracked) (r : Report)
      → (Report.files (visit check s o r) ≡ r.files)
        × (is_empty (Report.drift (visit check s o r)) ≡ (is_empty r.drift && stands r.files o))
  unfolding stands
  visit-kept o r = elim (Option-cases (deployed_text s o)) [
    | inl h ↦ rw (visit-none check o r h, stands, h) (refl, ground arith)
    | inr (t, h) ↦ rw (visit-some check o r t h, stands, h) (settle-kept o t r)
  ]

  visit_all-drift :
      (os : List Tracked) (r : Report)
      → is_empty (Report.drift (visit_all check s os r))
        ≡ (is_empty r.drift && all (stands r.files) os)
  unfolding visit_all
  visit_all-drift [] r = ground arith
  visit_all-drift (o ∷ os) r =
      let (same, d) = visit-kept o r in
      rw (visit_all-drift os (visit check s o r), same, d) (ground arith)

  -- --check ends with exit code 0 exactly if every object that the schema has stands in its file, with
  -- the text of the database after the normalization.
  pub main-stands :
      (os : List Tracked) (files : Files)
      → (main check s os files).1 ≡ 0 ↔ all (stands files) os ≡ true
  unfolding main exit_code
  main-stands os files =
      rw (visit_all-drift os (record { missing = []; drift = []; files = files }))
        (λ h. ground arith, λ h. rw h)

  write-other : (p q t : Text) (files : Files) → text_eq p q ≡ false → write p t files q ≡ files q
  unfolding write
  write-other p q t files h = rw h

  not_written :
      (o : Tracked) (r : Report) (p : Text)
      → text_eq o.path p ≡ false
      → Report.files (visit pull s o r) p ≡ r.files p
  unfolding settle
  not_written o r p h = elim (Option-cases (deployed_text s o)) [
    | inl k ↦ rw (visit-none pull o r k)
    | inr (t, k) ↦ rw (visit-some pull o r t k, write-other o.path p t r.files h)
  ]

  visit_all-other :
      (os : List Tracked) (r : Report) (p : Text)
      → any (λ o. text_eq o.path p) os ≡ false
      → Report.files (visit_all pull s os r) p ≡ r.files p
  unfolding visit_all
  visit_all-other [] r p h = refl
  visit_all-other (o ∷ os) r p h =
      visit_all-other os (visit pull s o r) p (ground arith) ∙ not_written o r p (ground arith)

  settle-pull :
      (o : Tracked) (t : Text) (r : Report)
      → same_source o.object_type (Report.files (settle pull o t r) o.path) t ≡ true
  unfolding settle write same_source
  settle-pull o t r = rw (
    text_eq_refl o.path,
    normalize-read_text o.object_type t,
    text_eq_refl (normalize o.object_type t),
  )

  stands-one :
      (o : Tracked) (t : Text) (files : Files)
      → deployed_text s o ≡ some t
      → stands files o ≡ same_source o.object_type (files o.path) t
  unfolding stands
  stands-one o t files h = rw (h, stands)

  -- the file that an object was pulled to, while other paths are written
  stands-pulled :
      (o : Tracked) (r : Report) (files : Files)
      → files o.path ≡ Report.files (visit pull s o r) o.path
      → stands files o ≡ true
  unfolding stands
  stands-pulled o r files e = elim (Option-cases (deployed_text s o)) [
    | inl k ↦ rw (stands, k)
    | inr (t, k) ↦
        let f : files o.path ≡ Report.files (settle pull o t r) o.path =
          rw (visit-some pull o r t k) at e in
        rw (stands-one o t files k, f) (settle-pull o t r)
  ]

  visit_all-stands :
      (os : List Tracked) (r : Report)
      → apart os ≡ true
      → all (stands (Report.files (visit_all pull s os r))) os ≡ true
  unfolding visit_all apart
  visit_all-stands [] r h = refl
  visit_all-stands (o ∷ os) r h =
      let first =
        stands-pulled o r (Report.files (visit_all pull s os (visit pull s o r)))
          (visit_all-other os (visit pull s o r) o.path (ground arith)) in
      let rest = visit_all-stands os (visit pull s o r) (ground arith) in
      ground (arith, first, rest)

  -- Behind a --pull of objects with pairwise different paths, --check ends with exit code 0, whatever
  -- line ends the texts of the database have.
  pub main-pulled :
      (os : List Tracked) (files : Files)
      → apart os ≡ true
      → (main check s os ((main pull s os files).0).files).1 ≡ 0
  unfolding main
  main-pulled os files h =
      (main-stands os (Report.files ((main pull s os files).0))).1
        (visit_all-stands os (record { missing = []; drift = []; files = files }) h)
