-- ===== src/Suggest/Decide/Page.antt =====
-- The check of the page in `accept` of src/mailmind/suggest/model.py.
use ronny_email_worker.Prelude.{
  ℕ, ◌≤◌, ◌<◌, ◌≡◌, ◌↔◌, true, none, List, [], ◌∷◌, arith, All, keep, is_empty, ltb,
}
use ronny_email_worker.Models.{Suggestion, Bundle}
use ronny_email_worker.Scope.{Db, audit}
use ronny_email_worker.Suggest.Decide.{refuse_unless_this_is_the_page_they_read, last_id}

read_iff :
    (through : ℕ) (ss : List Suggestion)
    → (is_empty (keep (λ s. ltb through s.id) ss) ≡ true) ↔ All (λ s. s.id ≤ through) ss
read_iff through [] = ground arith
read_iff through (s ∷ ss) = ground (arith, read_iff through ss)

-- The page check passes exactly when the page said what it showed, and showed every item.
pub page_iff :
    (db : Db) (b : Bundle) (reviewer through : ℕ)
    → ((refuse_unless_this_is_the_page_they_read db b reviewer through).1 ≡ none)
      ↔ ((0 < through) × All (λ s. s.id ≤ through) b.suggestions)
unfolding refuse_unless_this_is_the_page_they_read
page_iff db b reviewer through = ground (arith, read_iff through b.suggestions)

pub page-same :
    (db : Db) (b : Bundle) (reviewer through : ℕ)
    → (refuse_unless_this_is_the_page_they_read db b reviewer through).1 ≡ none
    → (refuse_unless_this_is_the_page_they_read db b reviewer through).0 ≡ db
unfolding refuse_unless_this_is_the_page_they_read
page-same db b reviewer through h = ground arith

pub last_id-le : (n : ℕ) (ss : List Suggestion) → All (λ s. s.id ≤ n) ss → last_id ss ≤ n
unfolding last_id
last_id-le n [] h = omega arith
last_id-le n (s ∷ ss) h = omega (arith, last_id-le n ss h.1, h.0)

pub page-cache :
    (db : Db) (b : Bundle) (reviewer through : ℕ)
    → (refuse_unless_this_is_the_page_they_read db b reviewer through).0.cache ≡ db.cache
unfolding refuse_unless_this_is_the_page_they_read audit
page-cache db b reviewer through = ground arith
