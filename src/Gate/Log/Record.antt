-- ===== src/Gate/Log/Record.antt =====
-- What `record` leaves in the evidence file, and that the log only grows.
use data_migration_tool.Prelude.{
  String, ◌≡◌, refl, ◌≢◌, inl, inr, false, some, List, [], ◌∷◌, ◌++◌, arith, ◌==◌, eq_iff, eq_refl,
  if◌then◌else◌, Bool-cases,
}
use data_migration_tool.Prelude.Text.{Text}
use data_migration_tool.Gate.Evidence.{
  Value, flag, text, Entry, get, put, Evidence, loaded, set_step, step_of,
}
use data_migration_tool.Gate.Paths.{Identity}
use data_migration_tool.Gate.Log.{
  recorded, Store, stamped, hash_value, usable, record_step, has_key, with_time,
}

get-put :
    (k j : String) (v : Value) (e : Entry) → get (put k v e) j ≡ (if k == j then v else get e j)
unfolding get put
get-put k j v [] = refl
get-put k j v ((i, w) ∷ e) = ground (arith, eq_iff k j, eq_iff i k, eq_iff i j, get-put k j v e)

step_of-set_step :
    (k j : String) (e : Entry) (l : List (String × Entry))
    → step_of (set_step k e l) j ≡ (if k == j then e else step_of l j)
unfolding step_of set_step
step_of-set_step k j e [] = refl
step_of-set_step k j e ((i, f) ∷ l) =
    ground (arith, eq_iff k j, eq_iff i k, eq_iff i j, step_of-set_step k j e l)

get-with_time :
    (now : Value) (j : String) (e : Entry) → ("at" == j) ≡ false → get (with_time now e) j ≡ get e j
unfolding with_time
get-with_time now j e h = elim (Bool-cases (has_key e "at")) [
  | inl a ↦ rw a
  | inr a ↦ rw (a, get-put, h)
]

stamped-identity :
    (show_path : Text → String) (entry : Entry) (i : Identity) (now : Value)
    → (get (stamped show_path entry i now) "commit" ≡ text i.commit)
      × (get (stamped show_path entry i now) "tree" ≡ text i.tree)
      × (get (stamped show_path entry i now) "code_tree" ≡ hash_value i.code_tree)
      × (get (stamped show_path entry i now) "dirty" ≡ flag i.dirty)
unfolding stamped
stamped-identity show_path entry i now = (
  rw (get-with_time now "commit" _ refl) (simp get-put),
  rw (get-with_time now "tree" _ refl) (simp get-put),
  rw (get-with_time now "code_tree" _ refl) (simp get-put),
  rw (get-with_time now "dirty" _ refl) (simp get-put),
)

-- What `record` leaves behind, from any file and log.
pub record Recorded (step : String) (i : Identity) (before after : Store) : Type 0 where
  pub evidence : Evidence
  pub written : after.file ≡ loaded evidence
  pub schema : evidence.schema ≡ some 1
  pub commit : get (step_of evidence.steps step) "commit" ≡ text i.commit
  pub tree : get (step_of evidence.steps step) "tree" ≡ text i.tree
  pub code_tree : get (step_of evidence.steps step) "code_tree" ≡ hash_value i.code_tree
  pub dirty : get (step_of evidence.steps step) "dirty" ≡ flag i.dirty
  pub others :
      (j : String) → step ≢ j → step_of evidence.steps j ≡ step_of (usable before.file).steps j
  pub logged : after.log ≡ before.log ++ recorded step (step_of evidence.steps step) ∷ []

-- Recording a step writes an entry that carries the identity of the code, whatever its data says of
-- it, keeps the entries of the other steps (none, if the file was absent or unreadable) and
-- appends one line with that entry to the log.
pub record_step-Recorded :
    (show_path : Text → String) (step : String) (entry : Entry) (i : Identity) (now : Value)
    (s : Store)
    → Recorded step i s (record_step show_path step entry i now s)
unfolding record_step
record_step-Recorded show_path step entry i now s =
    let e = stamped show_path entry i now in
    let kept : step_of (set_step step e (usable s.file).steps) step ≡ e =
      rw (step_of-set_step, eq_refl) in
    let (c, t, h, d) = stamped-identity show_path entry i now in
    record {
      evidence = record { schema = some 1; steps = set_step step e (usable s.file).steps };
      written = refl;
      schema = refl;
      commit = rw kept c;
      tree = rw kept t;
      code_tree = rw kept h;
      dirty = rw kept d;
      others = λ j n. rw step_of-set_step (ground (arith, eq_iff step j));
      logged = rw kept;
    }
