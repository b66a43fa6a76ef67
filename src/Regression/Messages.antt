-- ===== src/Regression/Messages.antt =====
-- scripts/dmt_regression_run.py: the texts that `evaluate` appends to its failures for the records.
use data_migration_tool.Prelude.{
  ℕ, ◌-◌, Option, none, some, List, [], ◌∷◌, ◌++◌, map, ltb, if◌then◌else◌, length, take,
}
use data_migration_tool.Prelude.Text.{Text, codes}
use data_migration_tool.Gate.Evidence.{decimal}
use data_migration_tool.Regression.Rows.{
  Status, loaded, failed, other, expect_loaded, expect_failed, expect_doc, Problem, wanted,
  no_marker,
}
use data_migration_tool.Regression.Rows.Counts.{
  Key, Failure, not_in_run, outcome_not_met, good_rows_failed, bad_rows_loaded, empty_error_text,
  no_fusion_id, not_terminal,
}
use data_migration_tool.Regression.Baseline.{
  Delta, good_loaded_fell, good_failed_rose, bad_loaded_rose,
}
use data_migration_tool.Regression.Expect.{SelectionFailure, no_scenario, picked, skipped, slash}

abbrev pub show_key : Key → Text
show_key none = codes "None"
show_key (some t) = t

-- '; '.join(...)
unfoldable pub join : Text → List Text → Text
join sep [] = []
join sep (t ∷ []) = t
join sep (t ∷ (u ∷ ts)) = t ++ (sep ++ join sep (u ∷ ts))

-- sample(d): the first three keys, and how many are left
unfoldable pub sample : {A : Type 0} → (A → Text) → List (Key × A) → Text
sample show d =
    join (codes "; ") (map (λ e. show_key e.0 ++ (codes " x" ++ show e.1)) (take 3 d))
    ++ (if ltb 3 (length d)
        then codes " (+" ++ (decimal (length d - 3) ++ codes " more keys)")
        else [])

unfoldable pub show_counted : ℕ × Text → Text
show_counted (n, err) = decimal n ++ (codes " — " ++ err)

unfoldable pub show_status : Status → Text
show_status loaded = codes "LOADED"
show_status failed = codes "FAILED"
show_status (other t) = t

unfoldable pub show_problem : Problem → Text
unfolding show_status
show_problem (wanted expect_loaded s) = codes "expected LOADED, got " ++ show_status s
show_problem (wanted expect_failed s) =
    codes "expected FAILED (own Fusion error), got " ++ show_status s
show_problem (wanted expect_doc s) =
    codes "expected FAILED with its document, got " ++ show_status s
show_problem no_marker = codes "expected 'Rejected with document:' in ERROR_TEXT, not found"

unfoldable pub message : Failure → Text
unfolding join sample show_problem show_counted
message (not_in_run m) = codes "expected row not in run: " ++ m
message (outcome_not_met sub ps) =
    codes "EXPECTED OUTCOME not met: "
    ++ (sub
        ++ (codes ": "
            ++ join (codes "; ") (map (λ p. p.0 ++ (codes ": " ++ show_problem p.1)) ps)))
message (good_rows_failed sub n d) =
    codes "GOOD rows FAILED: "
    ++ (sub
        ++ (codes " ("
            ++ (decimal n
                ++ (codes " rows, "
                    ++ (decimal (length d) ++ (codes " keys): " ++ sample show_counted d))))))
message (bad_rows_loaded sub d) =
    codes "BAD rows LOADED (validation gap): " ++ (sub ++ (codes ": " ++ sample decimal d))
message (empty_error_text sub d) =
    codes "FAILED rows with EMPTY error text: " ++ (sub ++ (codes ": " ++ sample decimal d))
message (no_fusion_id sub d) =
    codes "GOOD rows LOADED without their own Fusion id: "
    ++ (sub ++ (codes ": " ++ sample decimal d))
message (not_terminal sub k status) =
    codes "row in non-terminal status " ++ (status ++ (codes ": " ++ slash sub (show_key k)))

unfoldable pub show_delta : Delta → Text
show_delta (good_loaded_fell a b) = codes "good LOADED " ++ (decimal a ++ (codes "->" ++ decimal b))
show_delta (good_failed_rose a b) = codes "good FAILED " ++ (decimal a ++ (codes "->" ++ decimal b))
show_delta (bad_loaded_rose a b) = codes "bad LOADED " ++ (decimal a ++ (codes "->" ++ decimal b))

-- "<sub>: <deltas>"
unfoldable pub regression_text : Text × List Delta → Text
unfolding join show_delta
regression_text (sub, ds) = sub ++ (codes ": " ++ join (codes ", ") (map show_delta ds))

-- str(src_of.get(seq, seq))
unfoldable pub show_picked : ℕ → Option (Option Text) → Text
show_picked q none = decimal q
show_picked q (some none) = codes "None"
show_picked q (some (some t)) = t

unfoldable pub selection_message : Text → SelectionFailure → Text
unfolding show_picked
selection_message scenario no_scenario =
    codes "FAILED-mode check: scenario " ++ (scenario ++ codes " not found")
selection_message scenario (picked sub q s) =
    codes "FAILED mode picked a row whose latest earlier attempt did not fail: "
    ++ slash sub (show_picked q s)
selection_message scenario (skipped sub q s) =
    codes "FAILED mode skipped a row whose latest earlier attempt failed: "
    ++ slash sub (show_picked q s)
