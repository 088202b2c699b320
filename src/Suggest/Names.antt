-- ===== src/Suggest/Names.antt =====
-- `validate_container_name` of src/mailmind/suggest/model.py.
use ronny_email_worker.Prelude.{
  ℕ, ◌-◌, Bool, not, ◌&&◌, ◌||◌, Option, none, some, [], ◌∷◌, ◌++◌, map, ◌==◌, ltb, leb,
  if◌then◌else◌, any, length, is_empty,
}
use ronny_email_worker.Text.{Text, codes, text_eq, strip, starts_with, ends_with, contains}
use ronny_email_worker.Suggest.Refusal.{
  Result, ok, refused, space_at_an_end, no_name, characters_that_do_not_render, inbox_exists,
  name_too_long, empty_end_level, empty_level,
}

-- MAX_CONTAINER_NAME
abbrev pub max_container_name : ℕ
max_container_name = 255

-- `str.upper` of one code point, exact for what it is used for here: of all code points only the
-- ASCII letters and the dotless i (U+0131) have a letter of "INBOX" as their upper case.
abbrev pub upper : ℕ → ℕ
upper c = if leb b'a' c && leb c b'z' then c - 32 else if c == 305 then b'I' else c

-- `name.upper() == "INBOX"`
abbrev pub is_inbox_name : Text → Bool
is_inbox_name name = text_eq (map upper name) (codes "INBOX")

-- `ch < " " or ch == "\x7f"`
abbrev pub does_not_render : ℕ → Bool
does_not_render c = ltb c 32 || c == 127

-- The tests under `if delimiter:`, for a delimiter that is not empty.
unfoldable pub validate_levels : Text → Text → Result Text
validate_levels name delimiter =
    if starts_with name delimiter || ends_with name delimiter
    then refused (empty_end_level delimiter)
    else if contains name (delimiter ++ delimiter)
    then refused (empty_level delimiter)
    else ok name

-- An empty delimiter is as good as none.
unfoldable pub validate_delimited : Text → Option Text → Result Text
validate_delimited name none = ok name
validate_delimited name (some []) = ok name
validate_delimited name (some (c ∷ delimiter)) = validate_levels name (c ∷ delimiter)

unfoldable pub validate_container_name : Text → Option Text → Result Text
validate_container_name name delimiter =
    if not (text_eq name (strip name))
    then refused space_at_an_end
    else if is_empty name
    then refused no_name
    else if ltb max_container_name (length name)
    then refused (name_too_long (length name))
    else if any does_not_render name
    then refused characters_that_do_not_render
    else if is_inbox_name name
    then refused inbox_exists
    else validate_delimited name delimiter
