-- ===== src/Connect/Tests.antt =====
-- A connect that fails twice.
use data_migration_tool.Prelude.{ℕ, ◌≡◌, refl, [], ◌∷◌, ltb, if◌then◌else◌}
use data_migration_tool.Connect.{Answer, gives, db_error, returned, attempt_from, retry_db}
use data_migration_tool.Connect.Attempts.{Tried, retry_db-Tried}

abbrev flaky : ℕ → Answer ℕ
flaky n = if ltb n 3 then db_error "DPY-6005" else gives 7

third_time : retry_db flaky 5 4 ≡ (returned 7, 5 ∷ 10 ∷ [])
unfolding retry_db attempt_from
third_time = refl

retry_db-Tried_example : Tried flaky 5 4 1 (retry_db flaky 5 4)
retry_db-Tried_example = retry_db-Tried flaky 5 3
