-- ===== src/Deploy/Objects.antt =====
-- scripts/dmt_deploy.py: what a code file creates, `CODE_RE`, the table DDL that is refused and
-- `created_object`. The expressions ignore case; a text is put in upper case first.
use data_migration_tool.Prelude.{
  String, Bool, true, false, not, ◌&&◌, ◌||◌, Option, none, some, List, [], ◌∷◌, nat_beq,
  if◌then◌else◌, is_empty, any,
}
use data_migration_tool.Prelude.Text.{Text, codes, lstrip, strip, upper}
use data_migration_tool.Regression.Rows.{is_word}
use data_migration_tool.Regression.Issue.{after, span}
use data_migration_tool.Deploy.Words.{
  is_keyword, skip_word, or_text, skip_or_replace, skip_editionable, strip_leading_comments,
}

abbrev pub code_types : List String
code_types = "PACKAGE" ∷ "VIEW" ∷ "PROCEDURE" ∷ "FUNCTION" ∷ "TRIGGER" ∷ "TYPE" ∷ []

-- CODE_RE at one place
unfoldable pub is_code_start : Text → Bool
unfolding skip_word skip_editionable is_keyword
is_code_start t = elim (skip_word "CREATE" (lstrip t)) [
  | none ↦ false
  | some s ↦ elim (skip_word "OR" s) [
    | none ↦ false
    | some u ↦ elim (skip_word "REPLACE" u) [
      | none ↦ false
      | some v ↦ is_keyword code_types (skip_editionable v)
    ]
  ]
]

-- the start of the text, or behind a line feed; the flag says that a line starts here
unfoldable pub code_line : Bool → Text → Bool
unfolding is_code_start
code_line at_start [] = false
code_line at_start (c ∷ t) = (at_start && is_code_start (c ∷ t)) || code_line (nat_beq c 10) t

-- CODE_RE.search
unfoldable pub is_code : Text → Bool
unfolding code_line
is_code raw = code_line true (upper raw)

-- the first word, spaces, TABLE and a boundary
unfoldable pub is_table_ddl : String → Text → Bool
unfolding skip_word is_keyword
is_table_ddl verb t = elim (skip_word verb t) [
  | none ↦ false
  | some s ↦ is_keyword ("TABLE" ∷ []) s
]

-- a search behind \b: the flag says that a word character stands in front
unfoldable pub search_word : (Text → Bool) → Bool → Text → Bool
unfolding is_word
search_word p in_word [] = false
search_word p in_word (c ∷ t) = (not in_word && p (c ∷ t)) || search_word p (is_word c) t

unfoldable pub has_table_ddl : Text → Bool
unfolding search_word is_table_ddl
has_table_ddl raw =
    search_word (λ t. any (λ v. is_table_ddl v t) ("ALTER" ∷ "CREATE" ∷ "DROP" ∷ [])) false
      (upper raw)

unfoldable pub skip_quote : Text → Text
skip_quote [] = []
skip_quote (c ∷ t) = if nat_beq c b'"' then t else c ∷ t

-- "?(\w+)"?, with what stands behind
unfoldable pub identifier : Text → Option (Text × Text)
unfolding skip_quote span is_word
identifier t =
    let (name, rest) = span is_word (skip_quote t) in
    if is_empty name then none else some (name, skip_quote rest)

-- (?:"?\w+"?\.)?
unfoldable pub skip_owner : Text → Option Text
unfolding identifier after
skip_owner t = elim (identifier t) [ none ↦ none | some (o, rest) ↦ after (codes ".") rest ]

unfoldable pub object_name : Text → Option Text
unfolding skip_owner identifier
object_name t =
    let plain : Option Text = elim (identifier t) [ none ↦ none | some (n, rest) ↦ some n ] in
    elim (skip_owner t) [
      | none ↦ plain
      | some u ↦ elim (identifier u) [ none ↦ plain | some (n, rest) ↦ some n ]
    ]

-- the types in the order of the expression, as one or two words
abbrev pub object_types : List (List String)
object_types =
    ("PACKAGE" ∷ "BODY" ∷ [])
    ∷ ("PACKAGE" ∷ [])
    ∷ ("VIEW" ∷ [])
    ∷ ("PROCEDURE" ∷ [])
    ∷ ("FUNCTION" ∷ [])
    ∷ ("TRIGGER" ∷ [])
    ∷ ("TYPE" ∷ "BODY" ∷ [])
    ∷ ("TYPE" ∷ [])
    ∷ []

unfoldable pub skip_words : List String → Text → Option Text
unfolding skip_word
skip_words [] t = some t
skip_words (w ∷ ws) t = elim (skip_word w t) [ none ↦ none | some s ↦ skip_words ws s ]

-- the first type that a name follows
unfoldable pub typed_object : List (List String) → Text → Option (List String × Text)
unfolding skip_words object_name
typed_object [] t = none
typed_object (ws ∷ more) t =
    let rest = typed_object more t in
    elim (skip_words ws t) [
      | none ↦ rest
      | some s ↦ elim (object_name s) [ none ↦ rest | some n ↦ some (ws, n) ]
    ]

unfoldable pub created_object : Text → Option (List String × Text)
unfolding strip_leading_comments skip_word skip_or_replace skip_editionable typed_object
created_object stmt = elim (skip_word "CREATE" (upper (strip (strip_leading_comments stmt)))) [
  | none ↦ none
  | some s ↦
      let t = skip_editionable (skip_or_replace s) in
      typed_object object_types (or_text (skip_word "FORCE" t) t)
]
