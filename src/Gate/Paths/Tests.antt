-- ===== src/Gate/Paths/Tests.antt =====
-- The code split and the identity on small outputs of git.
use data_migration_tool.Prelude.{
  String, ◌≡◌, refl, true, false, some, [], ◌∷◌, ◌++◌, if◌then◌else◌, is_empty, any,
}
use data_migration_tool.Prelude.Text.{
  Text, codes, z_output, All-Lacks-of_test, has_prefix, has_suffix, lower, replace_code, split_on,
  is_space, join_with,
}
use data_migration_tool.Gate.Paths.{
  is_code_path, normalize, code_tree, code_identity, Git, Identity, lstrip_slash, split_tab,
}
use data_migration_tool.Gate.Paths.Code.{docs, code_tree_ignores_non_code}
use data_migration_tool.Gate.Paths.Status.{Change, moved, records, touched, code_identity-dirty}

abbrev doc_record : Text
doc_record = codes "100644 blob a1" ++ 9 ∷ codes "docs/x.sql"

abbrev code_record : Text
code_record = codes "100644 blob b2" ++ 9 ∷ codes "db/y.sql"

scripts_are_code : is_code_path (codes "/scripts\\run.py") ≡ true
unfolding is_code_path has_prefix has_suffix lower normalize lstrip_slash replace_code
scripts_are_code = refl

upper_case_md : is_code_path (codes "db/README.MD") ≡ false
unfolding is_code_path has_prefix has_suffix lower normalize lstrip_slash replace_code
upper_case_md = refl

abbrev rename : Change
rename = moved b'R' b' ' (codes "docs/a.sql") (codes "db/a.sql")

abbrev hash_of_lines : Text → String
hash_of_lines t = if is_empty t then "none" else "some"

abbrev state : Git
state = record {
  commit = "c0ffee0";
  tree = "7ree";
  ls_tree = z_output (code_record ∷ []);
  status = z_output (records (rename ∷ []));
}

abbrev identity : Identity
identity = record {
  commit = "c0ffee0";
  tree = "7ree";
  code_tree = some "some";
  dirty = true;
  dirty_files = codes "R  db/a.sql" ∷ [];
}

identity_found : code_identity hash_of_lines state ≡ some identity
unfolding code_identity code_tree split_on is_space join_with is_code_path has_prefix has_suffix
    lower normalize lstrip_slash replace_code
identity_found = refl

code_identity-dirty_example : identity.dirty ≡ any (λ c. is_code_path c.1) (touched (rename ∷ []))
code_identity-dirty_example =
    code_identity-dirty hash_of_lines state identity (rename ∷ []) ((refl, refl), tt)
      (All-Lacks-of_test 0 (records (rename ∷ [])) refl) refl identity_found

code_tree_ignores_non_code_example :
    code_tree hash_of_lines (z_output (code_record ∷ doc_record ∷ []))
    ≡ code_tree hash_of_lines (z_output (code_record ∷ []))
unfolding normalize lstrip_slash replace_code split_tab
code_tree_ignores_non_code_example =
    code_tree_ignores_non_code hash_of_lines (code_record ∷ []) doc_record []
      (All-Lacks-of_test 0 (code_record ∷ doc_record ∷ []) refl)
      (record {
        meta = codes "100644 blob a1";
        path = codes "docs/x.sql";
        split = refl;
        non_code = docs (codes "x.sql") refl;
      })
