-- ===== src/Companion/Staging.antt =====
-- filedge/companion/staging.py. `cleaned` is the substitution of unsafe characters and the strip of
-- dashes; `dumps` is `json.dumps`; `compressed` is what a gzip file of a text holds, and `plain`
-- what a text file does.
use filedge.Base.{String, ◌<>◌, ◌==◌, Bool, Option, none, some, List, [], ◌∷◌, if◌then◌else◌}

unfoldable pub or_none : String → String
or_none s = if s == "" then "none" else s

unfoldable pub slug : (String → String) → Option String → String
unfolding or_none
slug cleaned none = "none"
slug cleaned (some value) = if value == "" then "none" else or_none (cleaned value)

unfoldable pub staged_filename :
    (String → String) → String → Option String → Option String → String → Bool → String
unfolding slug
staged_filename cleaned source_name from_cursor to_cursor timestamp gzip_enabled =
    let name =
      slug cleaned (some source_name)
      <> "-"
      <> slug cleaned from_cursor
      <> "-"
      <> slug cleaned to_cursor
      <> "-"
      <> slug cleaned (some timestamp)
      <> ".ndjson" in
    if gzip_enabled then name <> ".gz" else name

module _ {Record Content : Type 0} (dumps : Record → String)
    (plain compressed : String → Content) where
  unfoldable pub ndjson : List Record → String
  ndjson [] = ""
  ndjson (record_ ∷ records) = dumps record_ <> "\n" <> ndjson records

  -- What the staged file holds.
  unfoldable pub staged_content : List Record → Bool → Content
  unfolding ndjson
  staged_content records gzip_enabled =
      if gzip_enabled then compressed (ndjson records) else plain (ndjson records)
