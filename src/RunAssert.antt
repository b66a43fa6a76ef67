-- ===== src/RunAssert.antt =====
-- scripts/dmt_run_assert.py: the checks of what the console shows of a run against its records. The queries
-- are answers.
pub mod Holds
mod Tests
use data_migration_tool.Prelude.{
  collect, ℕ, ◌+◌, Bool, true, false, not, ◌&&◌, ◌||◌, Option, none, some, List, [], ◌∷◌, ◌++◌, map,
  nat_beq, if◌then◌else◌, is_empty, any, keep,
}
use data_migration_tool.Prelude.Text.{Text, codes, text_eq}
use data_migration_tool.Scenario.Dict.{Dict, look, has, put}

-- LOADED, FAILED and TOTAL
pub record Counts : Type 0 where
  pub loaded : ℕ
  pub failed : ℕ
  pub total : ℕ

-- a tile of page 52: its counts, or the count query's error
pub data Tile : Type 0 where
  errored : Tile
  counted : Counts → Tile

pub record View : Type 0 where
  pub catalog : Dict (List Text)  -- by code, the display names in order
  pub queue_codes : List Text
  pub work_status : Text → Text
  pub tile_count : Text → Text → Option Counts
  pub prevalidation_failed : Text → Text → ℕ
  pub record_count : Text → Dict ℕ  -- by status, for a sub-object
  pub known_subs : List Text
  pub detail_duplicates : List (Text × Text × ℕ)
  pub catalog_issues : List (Text × Text)

pub data Fail : Type 0 where
  unresolved : Text → Fail
  count_error : Text → Text → Fail
  label_drift counts_differ : Text → Text → Counts → Counts → Fail
  done_without_records : Text → Fail
  nothing_loaded : Text → ℕ → Fail
  fan_out : Text × Text × ℕ → Fail
  catalog_issue : Text × Text → Fail

unfoldable pub same_counts : Counts → Counts → Bool
same_counts a b = nat_beq a.loaded b.loaded && nat_beq a.failed b.failed && nat_beq a.total b.total

module _ (v : View) where
  unfoldable pub tile_of : Text → Text → Tile
  tile_of code disp = elim (v.tile_count code disp) [
    | none ↦ errored
    | some c ↦
        let n = v.prevalidation_failed code disp in
        counted (record c { failed = c.failed + n; total = c.total + n })
  ]

  unfoldable pub displays : Text → List Text
  unfolding look
  displays code = elim (look v.catalog code) [ none ↦ [] | some ds ↦ ds ]

  -- a display name that stands twice keeps its place and takes the later count
  unfoldable pub tiles_onto : Text → Dict Tile → List Text → Dict Tile
  unfolding tile_of put
  tiles_onto code out [] = out
  tiles_onto code out (d ∷ ds) = tiles_onto code (put d (tile_of code d) out) ds

  unfoldable pub page52 : Text → Dict Tile
  unfolding displays tiles_onto
  page52 code = tiles_onto code [] (displays code)

  -- each call of page52 reports the counts that raised
  unfoldable pub page52_fails : Text → List Fail
  unfolding displays
  page52_fails code =
      map (λ d. count_error code d)
        (keep (λ d. elim (v.tile_count code d) [ none ↦ true | some c ↦ false ]) (displays code))

  abbrev total_of : Dict ℕ → ℕ
  total_of [] = 0
  total_of ((k, n) ∷ d) = n + total_of d

  abbrev or_zero : Option ℕ → ℕ
  or_zero none = 0
  or_zero (some n) = n

  unfoldable pub page57 : Text → Counts
  unfolding look
  page57 sub = record {
    loaded = or_zero (look (v.record_count sub) (codes "LOADED"));
    failed = or_zero (look (v.record_count sub) (codes "FAILED"));
    total = total_of (v.record_count sub);
  }

  -- A
  unfoldable pub resolve_fails : List Fail
  unfolding has
  resolve_fails = map unresolved (keep (λ c. not (has v.catalog c)) v.queue_codes)

  -- B, for one tile
  unfoldable pub drill_fail : Text → Text × Tile → List Fail
  unfolding page57 same_counts
  drill_fail code (disp, errored) = []
  drill_fail code (disp, counted b) =
      if nat_beq b.total 0 || same_counts b (page57 disp)
      then []
      else if any (λ s. text_eq s disp) v.known_subs
      then counts_differ code disp b (page57 disp) ∷ []
      else label_drift code disp b (page57 disp) ∷ []

  unfoldable pub drill_fails : Text → List Fail
  unfolding has page52 page52_fails drill_fail
  drill_fails code =
      if has v.catalog code
      then page52_fails code ++ collect (drill_fail code) (page52 code)
      else []

  -- C: the sums over the tiles that were counted
  unfoldable pub sums : Dict Tile → Counts
  sums [] = record { loaded = 0; failed = 0; total = 0 }
  sums ((d, errored) ∷ ts) = sums ts
  sums ((d, counted c) ∷ ts) =
      let s = sums ts in
      record {
        loaded = c.loaded + s.loaded;
        failed = c.failed + s.failed;
        total = c.total + s.total;
      }

  unfoldable pub load_fail : Text → Counts → List Fail
  unfolding text_eq
  load_fail code s =
      if text_eq (v.work_status code) (codes "DONE") && nat_beq s.total 0
      then done_without_records code ∷ []
      else if not (nat_beq s.total 0) && nat_beq s.loaded 0
      then nothing_loaded code s.total ∷ []
      else []

  unfoldable pub load_fails : Text → List Fail
  unfolding has page52 page52_fails sums load_fail
  load_fails code =
      if has v.catalog code then page52_fails code ++ load_fail code (sums (page52 code)) else []

  unfoldable pub fails : List Fail
  unfolding resolve_fails drill_fails load_fails
  fails =
      resolve_fails
      ++ collect drill_fails v.queue_codes
      ++ collect load_fails v.queue_codes
      ++ map fan_out v.detail_duplicates
      ++ map catalog_issue v.catalog_issues

  unfoldable pub exit_code : ℕ
  unfolding fails
  exit_code = if is_empty fails then 0 else 1
