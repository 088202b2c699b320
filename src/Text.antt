-- ===== src/Text.antt =====
-- Python's `str` as the list of its code points, and the methods that the program calls on it.
use Prim.Native.Char.{code}
use Prim.Native.String.{String}
use mathlib.Core.List.{reverse}
use ronny_email_worker.Prelude.{
  ℕ, zero, suc, ◌-◌, ◌≡◌, refl, ◌↔◌, Bool, true, false, ◌&&◌, ◌||◌, List, [], ◌∷◌, ◌++◌, arith, ltb,
  leb, ◌==◌, if◌then◌else◌, any, keep, not, is_empty, length,
}

abbrev pub Text : Type 0
Text = List ℕ

-- A literal.
abbrev pub codes : String → Text
codes String.[] = []
codes (String.◌∷◌ c s) = code c ∷ codes s

abbrev pub text_eq : Text → Text → Bool
text_eq [] [] = true
text_eq (a ∷ s) (b ∷ t) = a == b && text_eq s t
text_eq _ _ = false

pub text_eq_iff : (s t : Text) → (text_eq s t ≡ true) ↔ (s ≡ t)
text_eq_iff [] [] = ground arith
text_eq_iff [] (b ∷ t) = ground arith
text_eq_iff (a ∷ s) [] = ground arith
text_eq_iff (a ∷ s) (b ∷ t) = ground (arith, text_eq_iff s t)

-- A text in a set of texts.
abbrev pub text_mem : Text → List Text → Bool
text_mem s = any (text_eq s)

-- `s < t`, by code points.
abbrev pub text_lt : Text → Text → Bool
text_lt [] [] = false
text_lt [] (b ∷ t) = true
text_lt (a ∷ s) [] = false
text_lt (a ∷ s) (b ∷ t) = ltb a b || (a == b && text_lt s t)

-- `str.isspace` of one code point, which `split` and `strip` go by.
abbrev pub is_space : ℕ → Bool
is_space c =
    (leb 9 c && leb c 13)
    || (leb 28 c && leb c 32)
    || c == 133
    || c == 160
    || c == 5760
    || (leb 8192 c && leb c 8202)
    || c == 8232
    || c == 8233
    || c == 8239
    || c == 8287
    || c == 12288

unfoldable pub lstrip : Text → Text
lstrip [] = []
lstrip (c ∷ s) = if is_space c then lstrip s else c ∷ s

unfoldable pub strip : Text → Text
unfolding lstrip
strip s = reverse (lstrip (reverse (lstrip s)))

unfoldable pub starts_with : Text → Text → Bool
starts_with s [] = true
starts_with [] (p ∷ ps) = false
starts_with (c ∷ s) (p ∷ ps) = c == p && starts_with s ps

unfoldable pub ends_with : Text → Text → Bool
unfolding starts_with
ends_with s suffix = starts_with (reverse s) (reverse suffix)

-- `piece in s`
unfoldable pub contains : Text → Text → Bool
unfolding starts_with
contains [] piece = starts_with [] piece
contains (c ∷ s) piece = starts_with (c ∷ s) piece || contains s piece

-- `s.count(piece)` for a piece that is not empty: occurrences that do not overlap, from the left.
-- `skip` is how much of the last occurrence found is still to be passed.
count_from : ℕ → Text → Text → ℕ
unfolding starts_with
count_from skip [] piece = 0
count_from (suc skip) (c ∷ s) piece = count_from skip s piece
count_from zero (c ∷ s) piece =
    let here = suc (count_from (length piece - 1) s piece) in
    let later = count_from zero s piece in if starts_with (c ∷ s) piece then here else later

unfoldable pub count : Text → Text → ℕ
unfolding count_from
count s piece = count_from 0 s piece

-- `s.split()`: the words between runs of white space. `word` is the word being read, reversed.
words_from : Text → Text → List Text
words_from [] [] = []
words_from (w ∷ ws) [] = reverse (w ∷ ws) ∷ []
words_from word (c ∷ s) =
    let next = words_from [] s in
    let longer = words_from (c ∷ word) s in
    elim word [
      | [] ↦ if is_space c then next else longer
      | w ∷ ws ↦ if is_space c then reverse (w ∷ ws) ∷ next else longer
    ]

unfoldable pub words : Text → List Text
unfolding words_from
words = words_from []

-- `" ".join(ws)`
unfoldable pub unwords : List Text → Text
unwords [] = []
unwords (w ∷ []) = w
unwords (w ∷ v ∷ ws) = w ++ (32 ∷ unwords (v ∷ ws))

insert : Text → List Text → List Text
insert t [] = t ∷ []
insert t (s ∷ ss) = let later = s ∷ insert t ss in if text_lt s t then later else t ∷ s ∷ ss

-- `sorted(ws)`
unfoldable pub sorted : List Text → List Text
unfolding insert
sorted [] = []
sorted (t ∷ ts) = insert t (sorted ts)

-- A set, as the list of what is in it.
abbrev pub distinct_texts : List Text → List Text
distinct_texts [] = []
distinct_texts (w ∷ ws) = let rest = distinct_texts ws in if text_mem w ws then rest else w ∷ rest

-- `sorted(a - b)`
unfoldable pub sorted_minus : List Text → List Text → List Text
sorted_minus a b = sorted (distinct_texts (keep (λ t. not (text_mem t b)) a))

is_empty-insert : (t : Text) (ts : List Text) → is_empty (insert t ts) ≡ false
unfolding insert
is_empty-insert t [] = refl
is_empty-insert t (s ∷ ss) = ground arith

pub is_empty-sorted : (ts : List Text) → is_empty (sorted ts) ≡ is_empty ts
unfolding sorted
is_empty-sorted [] = refl
is_empty-sorted (t ∷ ts) = is_empty-insert t (sorted ts)

-- `s[:-1]`
unfoldable pub without_last : Text → Text
without_last [] = []
without_last (c ∷ []) = []
without_last (c ∷ d ∷ s) = c ∷ without_last (d ∷ s)

words_example : words (codes " a  bc ") ≡ codes "a" ∷ codes "bc" ∷ []
unfolding words
words_example = refl

strip_example : strip (codes "  x y ") ≡ codes "x y"
unfolding strip
strip_example = refl

count_example : count (codes "a//b///c") (codes "//") ≡ 2
unfolding count
count_example = refl

sorted_example : sorted (codes "b" ∷ codes "a" ∷ []) ≡ codes "a" ∷ codes "b" ∷ []
unfolding sorted
sorted_example = refl
