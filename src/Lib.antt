-- ===== src/Lib.antt =====
-- DataMigrationTool: how a change reaches the two Oracle instances, as the Python scripts under
-- scripts/ decide it. A promotion deploys the working tree to the local instance, runs the full
-- regression there, clicks through its result in the console, records each step as evidence, has the
-- pull request reviewed and merged, and deploys the merged commit to ATP only through the gate, with a
-- regression and a click-through on ATP behind it. Both instances send data to one Fusion pod, so a
-- run's prefix must be new on both.
--
-- The parts, and the files that model them:
--
-- - Prelude: the names that all files share, lists over the native numbers, Python's `str` on code
--   points (Prelude/Text) and signed integers (Prelude/Int).
-- - Guard: scripts/dmt_deploy_guard.py. `running_dmt_jobs`, `active_runs` and the invalid objects are
--   filters over the rows that a check finds, `wait_until_no_dmt_jobs` is a loop over a world that says
--   what each check finds and when.
-- - Gate: scripts/promotion_gate.py. Evidence and Log are its durable state (the evidence file and the
--   append-only log) with `load_evidence`, `record` and `log_event`; Paths is the code tree and the
--   identity of the code out of git's output; Report, SameCode and Check are `check_gate_detail` in the
--   order of the source; Override is `authorize_owner_override` and `enforce`.
-- - Prefix: the prefix sync of scripts/ci_promote.py (`max_used_prefix` to `sync_prefix_for`). The
--   Oracle sequence is an interface; Prefix/Laws states what the script's comments rely on and gives a
--   sequence that satisfies it. Prefix/Instances has both instances over time, as a step relation
--   whose syncs are calls of `sync_prefix_for`.
-- - Promote: the stages and `main` of scripts/ci_promote.py. A stage passes on the gate's store and the
--   history of what was done; what the script calls answers by that history. It uses the guard, the
--   gate and, for the instances, the prefix sync. Promote/Seeds is `seed_order`.
-- - Regression: scripts/dmt_regression_run.py. Rows classifies and tallies the records, Expect reads
--   the expected outcomes and checks a FAILED-mode run, Baseline compares with an earlier run, Sweep
--   and Rest are the other steps, Messages their texts, Evaluate puts them together; Issue and Known
--   are the known issues, the verdict and the exit code, Waiting is the wait for the run, and Harness is
--   `main`, which submits a run or takes a given one, waits and judges it.
-- - Deploy: scripts/dmt_deploy.py. Words has the regular expressions and the comments of its script
--   splitter, Split is `split_script` line by line, Objects reads what a file creates, Code is
--   `deploy_code`, Table is `deploy_table`, Deploy itself is `run_guarded`, and Codes is the code track of
--   `main`, with the deploy under the guard.
-- - Apex: scripts/apex_deploy.py, the import under the guard's rule, and the block that re-points the
--   stable alias (Apex/Alias).
-- - Scenario: scripts/deploy_scenario.py. Registry is the state file with its pure functions, Mint the
--   checks against the database and `main`, Steps an induction principle over a run, Lifecycle the state
--   file's changes as a step relation.
-- - GitSync: scripts/dmt_db_git_sync.py. Normalize is the form in which texts are compared, Sync the dump
--   of an object and `main`.
-- - Ratchet: scripts/standards_known_violations.py, the list of known violations and the exit code.
-- - RunAssert: scripts/dmt_run_assert.py, the checks of the console's counts against the records.
-- - Golden: test/golden/compare_fbdi.py. Csv and Dat read and write the members, Tokens and Diff are the
--   declared normalization and the report, Compare is `main`. Golden/Tokens/Truncated has `PREFIXED` of
--   db/packages/dmt_util_pkg.pkb.sql, whose cut the tokens undo.
-- - Connect: scripts/dmt_db_connect.py, the retries; one attempt is an answer.
--
-- Bounds. The wait loops run on fuel. The guard's has a round for each poll interval of the timeout and
-- two more, the run's a round for each second of its timeout and one more, the review's a round for
-- each 30 seconds and two more. That is enough where sleeping advances the clock, and it is proved, not
-- assumed. Decimal digits, chunks of a query and loops over a text run on a bound that is the number,
-- the list or the text itself.
--
-- Numbers are natural numbers, except the sequence's values, which are signed. Times are in seconds.
-- Python's `str.lower`, `str.upper`, `str.isdigit`, `\w` and `\d` are those of ASCII. A JSON value is null,
-- a flag, a number, a text, a time text or a list of texts.
--
-- Not modelled: the database drivers and their connections, SQLcl, git, gh, the browser tests, the codec
-- of UTF-8 and the hash functions, which are arguments that answer; what is printed; the list of SQL
-- files that `deploy_db` runs, but for the order of the seeds; `recompile_invalid`, a call of the
-- database whose answer nothing reads. The scans of the PL/SQL sources (scripts/check_*.py) search SQL
-- text with regular expressions. The PL/SQL packages, the APEX export, the loaders of test data and the
-- gold regression harness are other programs or nearly all input and output.
pub mod Apex
pub mod Connect
pub mod Deploy
pub mod Gate
pub mod GitSync
pub mod Golden
pub mod Guard
pub mod Prefix
pub mod Prelude
pub mod Promote
pub mod Ratchet
pub mod Regression
pub mod RunAssert
pub mod Scenario
