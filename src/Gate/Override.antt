-- ===== src/Gate/Override.antt =====
-- scripts/promotion_gate.py: `authorize_owner_override` and `enforce`. The terminal answers whether
-- stdin is a TTY (none: the call raised) and what was typed (none: end of file).
pub mod Narrow
pub mod Blocking
use data_migration_tool.Prelude.{
  ℕ, String, Bool, true, false, not, ◌||◌, Option, none, some, List, [], ◌∷◌, map, ltb,
  if◌then◌else◌, length, is_empty, keep,
}
use data_migration_tool.Prelude.Text.{Text, codes, has_prefix, lower, strip}
use data_migration_tool.Gate.Evidence.{Value, get, step_of}
use data_migration_tool.Gate.Paths.{Identity}
use data_migration_tool.Gate.Report.{
  Group, general, deploy, regression, clickthrough, How, Reason, Note, same_code_note, Line, passed,
  refused, Report,
}
use data_migration_tool.Gate.SameCode.{Revisions}
use data_migration_tool.Gate.Check.{check_gate_detail}
use data_migration_tool.Gate.Log.{
  Why, not_a_terminal, empty_reason, still_blocking, nothing_to_override, wrong_sha, accepted,
  Event, gate_decision, owner_override, Store, log_event, usable,
}

pub record Terminal : Type 0 where
  pub is_tty : Option Bool
  pub typed : Option Text

-- g in WAIVABLE
abbrev pub is_waivable : Group → Bool
is_waivable general = false
is_waivable deploy = false
is_waivable regression = true
is_waivable clickthrough = true

abbrev pub Failure : Type 0
Failure = Group × Reason

unfoldable pub bypassed : List Failure → List Failure
bypassed failures = keep (λ f. is_waivable f.0) failures

unfoldable pub blocking : List Failure → List Failure
blocking failures = keep (λ f. not (is_waivable f.0)) failures

abbrev pub messages : List Failure → List Reason
messages failures = map (λ f. f.1) failures

unfoldable pub is_terminal : Terminal → Bool
is_terminal t = elim t.is_tty [ none ↦ false | some b ↦ b ]

-- (typed or "").strip().lower()
unfoldable pub confirmation : Terminal → Text
confirmation t = elim t.typed [ none ↦ [] | some s ↦ lower (strip s) ]

unfoldable pub confirms : Identity → Text → Bool
confirms ident typed =
    not (ltb (length typed) 7 || not (has_prefix typed (lower (codes ident.commit))))

unfoldable pub decide_override : Text → Identity → List Failure → Terminal → Bool × Why
decide_override reason ident failures t =
    if not (is_terminal t)
    then (false, not_a_terminal)
    else if is_empty (strip reason)
    then (false, empty_reason)
    else if not (is_empty (blocking failures))
    then (false, still_blocking (messages (blocking failures)))
    else if is_empty (bypassed failures)
    then (false, nothing_to_override)
    else if not (confirms ident (confirmation t))
    then (false, wrong_sha (confirmation t))
    else (true, accepted)

-- every return goes through `done`, which logs the attempt
unfoldable pub authorize_owner_override :
    Text → Identity → List Failure → Terminal → String → Store → Bool × Store
unfolding decide_override log_event
authorize_owner_override reason ident failures t who s =
    let (ok, why) = decide_override reason ident failures t in
    (
      ok,
      log_event
          (owner_override ok why (strip reason) ident who
            (if ok then messages (bypassed failures) else []) (messages failures))
          s,
    )

-- the bases of the evidence matches, out of the lines that begin with `ok`
unfoldable pub match_basis : List Line → List How
match_basis [] = []
match_basis (passed (same_code_note how) ∷ ls) = how ∷ match_basis ls
match_basis (l ∷ ls) = match_basis ls

unfoldable pub refusals : List Line → List Reason
refusals [] = []
refusals (refused why ∷ ls) = why ∷ refusals ls
refusals (l ∷ ls) = refusals ls

-- the recorded fields of the regression that the log line repeats
unfoldable pub reg_fields : Store → List Value
reg_fields s =
    let reg = step_of (usable s.file).steps "regression" in
    map (λ k. get reg k)
      ("verdict" ∷ "known_failures" ∷ "new_failures" ∷ "known_review" ∷ "new_review"
        ∷ "known_issues_file_sha256" ∷ [])

unfoldable pub enforce :
    Revisions → Identity → ℕ → String → Option Text → Terminal → String → Store → Bool × Store
unfolding authorize_owner_override log_event
enforce revs ident now stage override t who s =
    let r = check_gate_detail revs ident now s.file in
    let s' =
      log_event
        (gate_decision stage r.ok ident (match_basis r.lines) (reg_fields s) (refusals r.lines))
        s in
    if r.ok then (true, s') else elim override [
      | none ↦ (false, s')
      | some reason ↦ authorize_owner_override reason ident r.failures t who s'
    ]
