-- ===== src/Gate/SameCode.antt =====
-- scripts/promotion_gate.py: `_evidence_code_tree` and `_same_code`, the comparison of evidence with
-- the code being promoted.
use data_migration_tool.Prelude.{
  String, Bool, true, false, not, ◌&&◌, Option, none, some, ◌==◌, if◌then◌else◌,
}
use data_migration_tool.Gate.Evidence.{Value, null, text, Entry, get, truthy, is_text}
use data_migration_tool.Gate.Paths.{Identity}
use data_migration_tool.Gate.Report.{
  Group, How, commit_matches, tree_matches, code_tree_matches, differs, other_code, same_code_note,
  Report, fail, good,
}

-- what git computes as the code tree of a commit; `none` where it has not the commit
abbrev pub Revisions : Type 0
Revisions = Value → Option String

abbrev pub as_value : Option String → Value
as_value none = null
as_value (some s) = text s

abbrev pub is_present : Option String → Bool
is_present none = false
is_present (some s) = not (s == "")

unfoldable pub evidence_code_tree : Revisions → Entry → Value
evidence_code_tree revs entry =
    if truthy (get entry "code_tree")
    then get entry "code_tree"
    else if truthy (get entry "commit")
    then as_value (revs (get entry "commit"))
    else null

abbrev pub same_tree : Value → Option String → Bool
same_tree v none = false
same_tree v (some s) = not (s == "") && is_text v s

unfoldable pub same_code : Revisions → Entry → Identity → Bool × How
same_code revs entry ident =
    let theirs = if is_present ident.code_tree then evidence_code_tree revs entry else null in
    if is_text (get entry "commit") ident.commit
    then (true, commit_matches)
    else if truthy (get entry "tree") && is_text (get entry "tree") ident.tree
    then (true, tree_matches (get entry "commit"))
    else if same_tree theirs ident.code_tree
    then (
      true,
      code_tree_matches (get entry "commit") (elim ident.code_tree [ none ↦ "" | some s ↦ s ]),
    )
    else (false, differs (get entry "commit") theirs ident.commit ident.code_tree)

-- (good if same else fail)(how)
unfoldable pub judge : Group → Bool × How → Report → Report
judge g (same, how) r = if same then good (same_code_note how) r else fail g (other_code how) r
