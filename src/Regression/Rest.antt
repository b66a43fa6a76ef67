-- ===== src/Regression/Rest.antt =====
-- scripts/dmt_regression_run.py: `rest_spot_check`, the live read-back of one record per object. The
-- call of the database and the JSON parser answer with a document or an error.
use data_migration_tool.Prelude.{
  ℕ, String, Bool, true, false, not, ◌&&◌, ◌||◌, Option, none, some, List, [], ◌∷◌, ◌++◌, nat_beq,
  if◌then◌else◌, take, is_empty,
}
use data_migration_tool.Prelude.Text.{Text, codes, text_eq, lower}
use data_migration_tool.Regression.Rows.{contains}

-- what QUERY_FUSION_RECORD answers: an exception, or a document (an unreadable one has no field)
pub data Answer : Type 0 where
  raises : Text → Answer
  document : Option Text → ℕ → Option Text → Text → Answer

pub data RestStatus : Type 0 where
  found not_applicable no_data not_configured not_found error : RestStatus

unfoldable pub is_status : Option Text → String → Bool
is_status none w = false
is_status (some t) w = text_eq t (codes w)

-- str(doc.get('message') or doc_str or '')
unfoldable pub answer_message : Option Text → Text → Text
answer_message none raw = raw
answer_message (some m) raw = if is_empty m then raw else m

unfoldable pub status_of_message : Text → RestStatus
status_of_message msg =
    let low = lower msg in
    if contains (codes "no rest lookup") low
    then not_configured
    else if contains (codes "404") low
        || (contains (codes "not found") low
            || (contains (codes "no rows") low || contains (codes "no record") low))
    then not_found
    else error

-- the status, the number of fields in doc['rows'], the message and the raw text of a document
unfoldable pub rest_status : Answer → RestStatus
unfolding status_of_message answer_message
rest_status (raises e) = error
rest_status (document status rows message raw) =
    if is_status status "ok" && not (nat_beq rows 0)
    then found
    else if is_status status "not_applicable"
    then not_applicable
    else if is_status status "ok"
    then no_data
    else status_of_message (answer_message message raw)

-- the text in brackets behind the status
unfoldable pub rest_detail : Answer → Text
unfolding answer_message
rest_detail (raises e) = take 180 e
rest_detail (document status rows message raw) =
    if is_status status "ok"
    then codes "Fusion returned no matching record"
    else take 180 (answer_message message raw)

abbrev pub show_rest : RestStatus → String
show_rest found = "FOUND"
show_rest not_applicable = "NOT_APPLICABLE"
show_rest no_data = "NO_DATA"
show_rest not_configured = "NOT_CONFIGURED"
show_rest not_found = "NOT_FOUND"
show_rest error = "ERROR"

-- a row of the catalog with a LOADED record, and what the call for it answers
pub record Target : Type 0 where
  pub cemli : Text
  pub sub : Text
  pub answer : Answer

abbrev pub is_proof : RestStatus → Bool
is_proof found = true
is_proof not_applicable = true
is_proof _ = false

unfoldable pub rest_review : List Target → List Text
unfolding rest_status
rest_review [] = []
rest_review (t ∷ ts) =
    let rest = rest_review ts in
    if is_proof (rest_status t.answer)
    then rest
    else (codes "REST verify "
        ++ (t.cemli
            ++ (codes "/"
                ++ (t.sub
                    ++ (codes ": "
                        ++ (codes (show_rest (rest_status t.answer))
                            ++ (if is_empty (rest_detail t.answer)
                                then []
                                else codes " (" ++ (rest_detail t.answer ++ codes ")"))))))))
      ∷ rest

-- objs.setdefault(cemli, False), and True once a sub-object reads back
unfoldable pub verify_object : Text → Bool → List (Text × Bool) → List (Text × Bool)
verify_object c b [] = (c, b) ∷ []
verify_object c b ((d, a) ∷ objs) =
    if text_eq d c then (d, a || b) ∷ objs else (d, a) ∷ verify_object c b objs

unfoldable pub rest_objects : List Target → List (Text × Bool) → List (Text × Bool)
unfolding rest_status
rest_objects [] objs = objs
rest_objects (t ∷ ts) objs = elim (rest_status t.answer) [
  | not_applicable ↦ rest_objects ts objs
  | found ↦ rest_objects ts (verify_object t.cemli true objs)
  | no_data ↦ rest_objects ts (verify_object t.cemli false objs)
  | not_configured ↦ rest_objects ts (verify_object t.cemli false objs)
  | not_found ↦ rest_objects ts (verify_object t.cemli false objs)
  | error ↦ rest_objects ts (verify_object t.cemli false objs)
]
