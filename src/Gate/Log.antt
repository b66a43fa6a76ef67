-- ===== src/Gate/Log.antt =====
-- scripts/promotion_gate.py: the durable state of the gate, the evidence file and the append-only
-- promotion log, with `load_evidence`, `log_event` and `record`.
pub mod Record
use data_migration_tool.Prelude.{
  ◌+◌, ◌-◌, ◌*◌, ◌/◌, String, Bool, false, ◌||◌, Option, none, some, List, [], ◌∷◌, ◌++◌, map, ◌==◌,
  if◌then◌else◌,
}
use data_migration_tool.Prelude.Text.{Text}
use data_migration_tool.Gate.Evidence.{
  Value, null, flag, text, stamp, texts, Entry, get, put, Evidence, Loaded, absent, unreadable,
  loaded, set_step,
}
use data_migration_tool.Gate.Paths.{Identity}
use data_migration_tool.Gate.Report.{Group, Reason, How}

-- Why an owner override was accepted or refused.
pub data Why : Type 0 where
  not_a_terminal : Why
  empty_reason : Why
  still_blocking : List Reason → Why
  nothing_to_override : Why
  wrong_sha : Text → Why
  accepted : Why

-- One line of promotion_log.jsonl. A gate decision keeps the identity, the bases of the matches,
-- the regression's recorded fields and the reasons; an override its outcome and the checks.
pub data Event : Type 0 where
  recorded : String → Entry → Event
  gate_decision : String → Bool → Identity → List How → List Value → List Reason → Event
  owner_override : Bool → Why → Text → Identity → String → List Reason → List Reason → Event

pub record Store : Type 0 where
  pub file : Loaded
  pub log : List Event

unfoldable pub log_event : Event → Store → Store
log_event e s = record s { log = s.log ++ e ∷ [] }

-- key in entry
unfoldable pub has_key : Entry → String → Bool
has_key [] k = false
has_key ((j, v) ∷ e) k = j == k || has_key e k

abbrev pub code_identity_basis : String
code_identity_basis =
    "code tree = every tracked path except docs/, .github/, .claude/ and *.md files (owner decision 2026-10-10, #770)"

abbrev pub hash_value : Option String → Value
hash_value none = null
hash_value (some h) = text h

-- entry.setdefault("at", now)
unfoldable pub with_time : Value → Entry → Entry
unfolding has_key
with_time now e = if has_key e "at" then e else put "at" now e

-- the entry that `record` writes: the data, the identity over it, and a time if it has none. The
-- texts of the dirty files are rendered by `show_path`.
unfoldable pub stamped : (Text → String) → Entry → Identity → Value → Entry
stamped show_path entry ident now =
    let e1 = put "commit" (text ident.commit) entry in
    let e2 = put "tree" (text ident.tree) e1 in
    let e3 = put "code_tree" (hash_value ident.code_tree) e2 in
    let e4 = put "code_identity_basis" (text code_identity_basis) e3 in
    let e5 = put "dirty" (flag ident.dirty) e4 in
    let e6 = put "dirty_files" (texts (map show_path ident.dirty_files)) e5 in with_time now e6

-- `load_evidence() or {}`, and an empty dict in place of an unreadable file
unfoldable pub usable : Loaded → Evidence
usable absent = record { schema = none; steps = [] }
usable (unreadable e) = record { schema = none; steps = [] }
usable (loaded ev) = ev

unfoldable pub record_step : (Text → String) → String → Entry → Identity → Value → Store → Store
unfolding stamped usable log_event
record_step show_path step entry ident now s =
    let e = stamped show_path entry ident now in
    let ev = usable s.file in
    log_event (recorded step e)
      (record s { file = loaded (record { schema = some 1; steps = set_step step e ev.steps }) })
