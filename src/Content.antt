-- ===== src/Content.antt =====
-- src/mailmind/content: what is read out of a message. `Reader` is what this stands on: the parser,
-- which calls Python's email and html, what the findings call of Python (`Lexer`), SHA-256 and
-- `isoformat`.
pub mod Findings
use ronny_email_worker.Prelude.{ℕ, Bool, Option, none, some, List, [], ◌∷◌, ◌++◌, take}
use ronny_email_worker.Text.{Text, words, unwords}
use ronny_email_worker.Models.{ParsedMessage}

-- What the findings stand on. `addresses_in` is `_ADDRESS_RE.findall`, `is_host_like` the match of a
-- whole text with labels and dots, `hostname` that of `urlsplit`, which is missing where it raises,
-- `lower` is `str.lower`, `describe` the code and the name of a character,
-- `decimal` is `str` of a number.
pub record Lexer : Type 0 where
  pub addresses_in : Text → List Text
  pub is_host_like : Text → Bool
  pub hostname : Text → Option Text
  pub lower : Text → Text
  pub describe : ℕ → Text
  pub decimal : ℕ → Text

pub record Reader : Type 0 where
  pub parse_message : (raw : Text) → (headers_only : Bool) → ParsedMessage
  pub lexer : Lexer
  pub digest : Text → Text
  pub isoformat : ℕ → Text

-- PREVIEW_CHARS
abbrev pub preview_chars : ℕ
preview_chars = 400

-- `x or ""`
abbrev pub text_or_empty : Option Text → Text
text_or_empty none = []
text_or_empty (some t) = t

-- `x or None` of a text, and `x or y` of texts that may be missing.
abbrev pub text_or_none : Text → Option Text
text_or_none [] = none
text_or_none (c ∷ t) = some (c ∷ t)

abbrev pub text_or : Option Text → Option Text → Option Text
text_or none other = other
text_or (some []) other = other
text_or (some (c ∷ t)) other = some (c ∷ t)

-- The texts that are there and not empty, joined: `sep.join(filter(None, (a, b)))`.
abbrev pub join_two : (sep : Text) → (a b : Option Text) → Text
join_two sep a b = elim (text_or_none (text_or_empty a)) [
  | none ↦ text_or_empty b
  | some s ↦ elim (text_or_none (text_or_empty b)) [ none ↦ s | some t ↦ s ++ (sep ++ t) ]
]

-- `ParsedMessage.preview`: runs of white space become one space, and the ends are stripped.
unfoldable pub preview : ParsedMessage → Option Text
preview p = elim (text_or_none (text_or_empty (text_or p.text_plain p.text_from_html))) [
  | none ↦ none
  | some body ↦ text_or_none (take preview_chars (unwords (words body)))
]

-- `ParsedMessage.body_text`
unfoldable pub body_text : ParsedMessage → Text
body_text p = join_two (10 ∷ []) p.text_plain p.text_from_html

-- `ParsedMessage.content_key`: the parts are joined by NUL.
unfoldable pub content_key : Reader → ParsedMessage → Text
content_key r p = r.digest (
    text_or_empty p.message_id
    ++ (0 ∷ text_or_empty p.subject)
    ++ (0 ∷ text_or_empty p.from_address)
    ++ (0 ∷ elim p.date [ none ↦ [] | some at ↦ r.isoformat at ])
    ++ (0 ∷ r.lexer.decimal p.size_bytes))
