-- ===== src/Imap/Apply/Deepest.antt =====
-- `_in_order` of src/mailmind/imap/apply.py: the folders that are to go, deepest first.
use ronny_email_worker.Prelude.{
  ℕ, ◌≡◌, refl, ◌≤◌, Bool, true, false, List, [], ◌∷◌, if◌then◌else◌, arith, count_of, keep, All,
  All-map, ◌&&◌,
}
use ronny_email_worker.Models.{Suggestion, Bundle, item_is_accepted, is_container_operation}
use ronny_email_worker.Scope.{Cache, get_container}
use ronny_email_worker.Imap.Apply.{levels_of, goes_before, insert_item, sort_items, in_order}

-- How deep the folder of an item lies.
abbrev pub depth : Cache → Suggestion → ℕ
depth c s = levels_of (get_container c s.source_container_id)

-- No item stands before one that lies deeper.
abbrev IsDeepestFirst : Cache → List Suggestion → Type 0
IsDeepestFirst c [] = Unit
IsDeepestFirst c (s ∷ ss) = All (λ t. depth c t ≤ depth c s) ss × IsDeepestFirst c ss

insert_item-count :
    (p : Suggestion → Bool) (c : Cache) (s : Suggestion) (ts : List Suggestion)
    → count_of p (insert_item c s ts) ≡ count_of p (s ∷ ts)
unfolding insert_item
insert_item-count p c s [] = refl
insert_item-count p c s (t ∷ ts) = ground (arith, insert_item-count p c s ts)

sort_items-count :
    (p : Suggestion → Bool) (c : Cache) (ss : List Suggestion)
    → count_of p (sort_items c ss) ≡ count_of p ss
unfolding sort_items
sort_items-count p c [] = refl
sort_items-count p c (s ∷ ss) =
    ground (arith, insert_item-count p c s (sort_items c ss), sort_items-count p c ss)

before-le : (c : Cache) (s t : Suggestion) → goes_before c t s ≡ true → depth c s ≤ depth c t
before-le c s t h = ground arith

after-le : (c : Cache) (s t : Suggestion) → goes_before c t s ≡ false → depth c t ≤ depth c s
after-le c s t h = ground arith

insert_item-All :
    (n : ℕ) (c : Cache) (s : Suggestion) (ts : List Suggestion)
    → depth c s ≤ n
    → All (λ t. depth c t ≤ n) ts
    → All (λ t. depth c t ≤ n) (insert_item c s ts)
unfolding insert_item
insert_item-All n c s [] hs h = (hs, tt)
insert_item-All n c s (t ∷ ts) hs h = by_test (goes_before c t s) (insert_item-All n c s ts hs h.1)
  where
    by_test :
        (b : Bool)
        → All (λ t. depth c t ≤ n) (insert_item c s ts)
        → All (λ t. depth c t ≤ n) (if b then t ∷ insert_item c s ts else s ∷ t ∷ ts)
    by_test true rest = (h.0, rest)
    by_test false rest = (hs, h)

insert_item-IsDeepestFirst :
    (c : Cache) (s : Suggestion) (ts : List Suggestion)
    → IsDeepestFirst c ts
    → IsDeepestFirst c (insert_item c s ts)
unfolding insert_item
insert_item-IsDeepestFirst c s [] h = (tt, tt)
insert_item-IsDeepestFirst c s (t ∷ ts) h =
    by_test (goes_before c t s) refl (insert_item-IsDeepestFirst c s ts h.1)
  where
    by_test :
        (b : Bool)
        → goes_before c t s ≡ b
        → IsDeepestFirst c (insert_item c s ts)
        → IsDeepestFirst c (if b then t ∷ insert_item c s ts else s ∷ t ∷ ts)
    by_test true e rest = (insert_item-All (depth c t) c s ts (before-le c s t e) h.0, rest)
    by_test false e rest = (
      (
        after-le c s t e,
        All-map (λ u. depth c u ≤ depth c t) (λ u. depth c u ≤ depth c s) ts
            (λ u g. omega (arith, g, after-le c s t e)) h.0,
      ),
      h,
    )

sort_items-IsDeepestFirst : (c : Cache) (ss : List Suggestion) → IsDeepestFirst c (sort_items c ss)
unfolding sort_items
sort_items-IsDeepestFirst c [] = tt
sort_items-IsDeepestFirst c (s ∷ ss) =
    insert_item-IsDeepestFirst c s (sort_items c ss) (sort_items-IsDeepestFirst c ss)

count_of-keep :
    (p q : Suggestion → Bool) (ss : List Suggestion)
    → count_of p (keep q ss) ≡ count_of (λ s. q s && p s) ss
count_of-keep p q [] = refl
count_of-keep p q (s ∷ ss) = ground (arith, count_of-keep p q ss)

-- `_in_order` takes exactly the accepted items, each as often as the bundle has it; and for a folder
-- operation no item stands before one whose folder lies deeper.
in_order_lem :
    (c : Cache) (b : Bundle)
    → ((p : Suggestion → Bool)
        → count_of p (in_order c b)
          ≡ count_of (λ s. item_is_accepted s.status && p s) b.suggestions)
      × (is_container_operation b.operation ≡ true → IsDeepestFirst c (in_order c b))
unfolding in_order
in_order_lem c b =
    let accepted : List Suggestion = keep (λ s. item_is_accepted s.status) b.suggestions in
    (
      (λ p. ground (
        arith,
        sort_items-count p c accepted,
        count_of-keep p (λ s. item_is_accepted s.status) b.suggestions,
      )),
      (λ h. rw (in_order, h) (sort_items-IsDeepestFirst c accepted)),
    )
