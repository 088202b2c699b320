-- ===== src/Search/Query.antt =====
-- The shape of what `fts_query` of src/mailmind/db/cache.py builds.
use ronny_email_worker.Prelude.{
  ◌≡◌, refl, ◌⊎◌, inl, inr, Bool, true, false, ◌&&◌, Option, none, some, List, [], ◌∷◌, ◌==◌,
  is_empty, if◌then◌else◌, arith, Bool-cases,
}
use mathlib.Core.List.{reverse}
use ronny_email_worker.Text.{Text, codes, words, unwords, strip}
use ronny_email_worker.Search.{
  is_operator, after_phrase, double_quotes, phrase, add_phrase, add_word, add_chunk, add_chunks,
  drop_operators, joined, fts_query,
}

-- Every quote comes with a second one right behind it; `half` where one has just been read.
abbrev pub is_paired : (half : Bool) → Text → Bool
is_paired false [] = true
is_paired true [] = false
is_paired false (c ∷ s) = is_paired (c == b'"') s
is_paired true (c ∷ s) = c == b'"' && is_paired false s

-- A quoted phrase, with or without the star of a prefix search: its body is not blank, and each
-- quote in it is doubled.
abbrev pub IsPhrase : Text → Type 0
IsPhrase part =
    (body : Text) × (prefix : Bool) × (part ≡ phrase body prefix)
    × (is_paired false body ≡ true)
    × (is_empty (strip body) ≡ false)

-- Phrases with one operator between each two, last first.
pub data Phrases : List Text → Type 0 where
  one : (part : Text) → IsPhrase part → Phrases (part ∷ [])
  more :
      (part operator : Text) (parts : List Text)
      → IsPhrase part
      → is_operator operator ≡ true
      → Phrases parts
      → Phrases (part ∷ operator ∷ parts)

-- The parts in the middle of the loop: an operator may stand last.
abbrev pub Open : List Text → Type 0
Open parts =
    (parts ≡ [])
    ⊎ Phrases parts
    ⊎ ((operator : Text) × (rest : List Text) × (parts ≡ operator ∷ rest)
        × (is_operator operator ≡ true)
        × Phrases rest)

double_quotes-is_paired : (s : Text) → is_paired false (double_quotes s) ≡ true
unfolding double_quotes
double_quotes-is_paired [] = refl
double_quotes-is_paired (c ∷ s) = ground (arith, double_quotes-is_paired s)

-- A phrase starts with a quote, as no operator does.
phrase-is_operator : (body : Text) (prefix : Bool) → is_operator (phrase body prefix) ≡ false
phrase-is_operator body prefix = refl

IsPhrase-is_operator : (part : Text) → IsPhrase part → is_operator part ≡ false
IsPhrase-is_operator part (body, prefix, same, _, _) = rw same refl

Phrases-after : (parts : List Text) → Phrases parts → after_phrase parts ≡ true
Phrases-after parts (one part h) = rw (IsPhrase-is_operator part h) refl
Phrases-after parts (more part operator rest h _ _) = rw (IsPhrase-is_operator part h) refl

Phrases-drop : (parts : List Text) → Phrases parts → drop_operators parts ≡ parts
unfolding drop_operators
Phrases-drop parts (one part h) = rw (IsPhrase-is_operator part h) refl
Phrases-drop parts (more part operator rest h _ _) =
    rw (drop_operators, IsPhrase-is_operator part h) refl

dropped :
    (operator : Text) (rest : List Text)
    → is_operator operator ≡ true
    → Phrases rest
    → drop_operators (operator ∷ rest) ≡ rest
unfolding drop_operators
dropped operator rest f h = rw (drop_operators, f) (Phrases-drop rest h)

Open-nothing : Open []
Open-nothing = inl refl

Open-operator :
    (parts : List Text) (chunk : Text)
    → is_operator chunk ≡ true
    → Open parts
    → Open (if after_phrase parts then chunk ∷ parts else parts)
Open-operator parts chunk e (inl none_yet) = rw none_yet (inl refl)
Open-operator parts chunk e (inr (inl h)) =
    rw (Phrases-after parts h) (inr (inr (chunk, parts, refl, e, h)))
Open-operator parts chunk e (inr (inr (operator, rest, same, f, h))) =
    rw (same, f) (inr (inr (operator, rest, refl, f, h)))

Open-phrase :
    (parts : List Text) (part : Text)
    → IsPhrase part
    → Open parts
    → Open (part ∷ (if after_phrase parts then codes "AND" ∷ parts else parts))
Open-phrase parts part p (inl none_yet) = rw none_yet (inr (inl (one part p)))
Open-phrase parts part p (inr (inl h)) =
    rw (Phrases-after parts h) (inr (inl (more part (codes "AND") parts p refl h)))
Open-phrase parts part p (inr (inr (operator, rest, same, f, h))) =
    rw (same, f) (inr (inl (more part operator rest p f h)))

add_phrase-Open :
    (parts : List Text) (body : Text) (prefix : Bool)
    → is_paired false body ≡ true
    → Open parts
    → Open (add_phrase parts body prefix)
unfolding add_phrase
add_phrase-Open parts body prefix paired h = elim (Bool-cases (is_empty (strip body))) [
  | inl e ↦ rw (add_phrase, e) h
  | inr e ↦
      rw (add_phrase, e) (Open-phrase parts (phrase body prefix) (body, prefix, refl, paired, e) h)
]

add_chunk-Open : (parts : List Text) (chunk : Text) → Open parts → Open (add_chunk parts chunk)
unfolding add_chunk add_word
add_chunk-Open parts chunk h = elim (Bool-cases (is_operator chunk)) [
  | inl e ↦ rw (add_chunk, e) (Open-operator parts chunk e h)
  | inr e ↦ rw (add_chunk, e) (add_phrase-Open parts _ _ (double_quotes-is_paired _) h)
]

add_chunks-Open : (parts chunks : List Text) → Open parts → Open (add_chunks parts chunks)
unfolding add_chunks
add_chunks-Open parts [] h = h
add_chunks-Open parts (chunk ∷ chunks) h =
    add_chunks-Open (add_chunk parts chunk) chunks (add_chunk-Open parts chunk h)

-- What an expression is, if there is one.
abbrev pub IsExpression : Option Text → Type 0
IsExpression none = Unit
IsExpression (some e) = (parts : List Text) × Phrases parts × (e ≡ unwords (reverse parts))

joined-IsExpression :
    (parts : List Text) → (parts ≡ []) ⊎ Phrases parts → IsExpression (joined parts)
unfolding joined
joined-IsExpression [] h = tt
joined-IsExpression (part ∷ parts) (inl e) = absurd (ground arith)
joined-IsExpression (part ∷ parts) (inr h) = (part ∷ parts, h, refl)

drop-closed :
    (parts : List Text) → Open parts → (drop_operators parts ≡ []) ⊎ Phrases (drop_operators parts)
unfolding drop_operators
drop-closed parts (inl none_yet) = inl (rw none_yet refl)
drop-closed parts (inr (inl h)) = inr (rw (Phrases-drop parts h) h)
drop-closed parts (inr (inr (operator, rest, same, f, h))) =
    inr (rw (same, dropped operator rest f h) h)

-- Whatever text is searched for, `fts_query` gives no expression, or quoted phrases with exactly one
-- operator between each two and none at an end; in each phrase every quote is doubled, so that none
-- of the text stands outside the quotes, and the body is not blank.
pub fts_query-IsExpression : (text : Text) → IsExpression (fts_query text)
unfolding fts_query
fts_query-IsExpression text =
    joined-IsExpression (drop_operators (add_chunks [] (words text)))
      (drop-closed (add_chunks [] (words text)) (add_chunks-Open [] (words text) Open-nothing))
