-- ===== src/Search.antt =====
-- The search of src/mailmind/db/cache.py: `fts_query`, and the clause that the count and the listing
-- share. What FTS5 finds for an expression, best first, is a parameter: `found`.
pub mod Query
use ronny_email_worker.Prelude.{
  ℕ, Bool, true, false, not, ◌&&◌, ◌||◌, Option, none, some, List, [], ◌∷◌, ◌++◌, map, ◌==◌, any,
  if◌then◌else◌, keep, take, length, mem, is_none, is_empty,
}
use mathlib.Core.List.{reverse}
use ronny_email_worker.Text.{Text, codes, text_mem, words, unwords, strip, ends_with, without_last}
use ronny_email_worker.Models.{Container, Placement}
use ronny_email_worker.Scope.{Cache}

-- `_OPERATORS`
abbrev pub is_operator : Text → Bool
is_operator chunk = text_mem chunk (codes "AND" ∷ codes "OR" ∷ codes "NOT" ∷ [])

-- `parts and parts[-1] not in _OPERATORS`. The parts stand last first.
abbrev pub after_phrase : List Text → Bool
after_phrase [] = false
after_phrase (part ∷ parts) = not (is_operator part)

-- `body.replace('"', '""')`
unfoldable pub double_quotes : Text → Text
double_quotes [] = []
double_quotes (c ∷ s) = if c == b'"' then b'"' ∷ b'"' ∷ double_quotes s else c ∷ double_quotes s

-- f'"{body}"' + ("*" if prefix else "")
abbrev pub phrase : Text → Bool → Text
phrase body prefix = b'"' ∷ (body ++ (b'"' ∷ (if prefix then b'*' ∷ [] else [])))

-- The loop's work on a chunk that is no operator.
unfoldable pub add_phrase : List Text → Text → Bool → List Text
add_phrase parts body prefix =
    if is_empty (strip body)
    then parts
    else phrase body prefix ∷ (if after_phrase parts then codes "AND" ∷ parts else parts)

unfoldable pub add_word : List Text → Text → List Text
add_word parts chunk =
    let prefix = ends_with chunk (codes "*") in
    add_phrase parts (double_quotes (if prefix then without_last chunk else chunk)) prefix

-- One round of the loop of `fts_query`.
unfoldable pub add_chunk : List Text → Text → List Text
add_chunk parts chunk =
    if is_operator chunk
    then if after_phrase parts then chunk ∷ parts else parts
    else add_word parts chunk

unfoldable pub add_chunks : List Text → List Text → List Text
add_chunks parts [] = parts
add_chunks parts (chunk ∷ chunks) = add_chunks (add_chunk parts chunk) chunks

-- `while parts and parts[-1] in _OPERATORS: parts.pop()`
unfoldable pub drop_operators : List Text → List Text
drop_operators [] = []
drop_operators (part ∷ parts) = if is_operator part then drop_operators parts else part ∷ parts

-- `" ".join(parts) or None`: no part is empty, so the join is empty where there is none.
unfoldable pub joined : List Text → Option Text
joined [] = none
joined (part ∷ parts) = some (unwords (reverse (part ∷ parts)))

unfoldable pub fts_query : Text → Option Text
fts_query text = joined (drop_operators (add_chunks [] (words text)))

pub record FtsRow : Type 0 where
  pub message_id : ℕ
  pub account_id : ℕ

-- `p JOIN c ... WHERE p.gone_at IS NULL AND p.container_generation = c.generation`
abbrev pub is_placed : Cache → Placement → Bool
is_placed c p =
    is_none p.gone_at
    && any (λ (k : Container). k.id == p.container_id && p.container_generation == k.generation)
        c.containers

abbrev pub is_shown : Cache → ℕ → Bool
is_shown c message_id =
    any (λ (p : Placement). p.message_id == message_id && is_placed c p) c.placements

module _ (found : Text → List FtsRow) where
  -- `_search_where`: None where there is nothing to search for, or no account to search in.
  unfoldable pub search_where : Cache → Text → Option (List ℕ) → Option (List FtsRow)
  search_where c query account_ids = elim (fts_query query) [
    | none ↦ none
    | some prepared ↦
        let shown = keep (λ r. is_shown c r.message_id) (found prepared) in
        elim account_ids [
          | none ↦ some shown
          | some ids ↦ if is_empty ids then none else some (keep (λ r. mem r.account_id ids) shown)
        ]
  ]

  abbrev pub rows_of : Option (List FtsRow) → List FtsRow
  rows_of none = []
  rows_of (some rows) = rows

  unfoldable pub search_messages : Cache → Text → Option (List ℕ) → (limit : ℕ) → List ℕ
  search_messages c query account_ids limit =
      map (λ r. r.message_id) (take limit (rows_of (search_where c query account_ids)))

  unfoldable pub count_search_messages : Cache → Text → Option (List ℕ) → ℕ
  count_search_messages c query account_ids = length (rows_of (search_where c query account_ids))
