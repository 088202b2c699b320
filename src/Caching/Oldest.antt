-- ===== src/Caching/Oldest.antt =====
-- Which bodies `evict_bodies` of src/mailmind/db/cache.py deletes.
use mathlib.Core.List.Memᴰ.{head, tail}
use mathlib.Core.Path.{subst}
use ronny_email_worker.Prelude.{
  ℕ, ◌≤◌, ◌≡◌, refl, sym, Bool, true, false, not, List, [], ◌∷◌, ◌++◌, arith, All, All-map,
  All-append, Memᴰ, keep, leb, leb→le, inl, inr, ◌⊎◌, length, if◌then◌else◌,
}
use ronny_email_worker.Models.{MessageBody}
use ronny_email_worker.Caching.{Store}
use ronny_email_worker.Caching.Evicting.{
  total_bytes, insert_body, by_last_read, evicted, evict_bodies,
}
use ronny_email_worker.Caching.Eviction.{is_evicted, ids_self, evicted-rest, total-by_last_read}

-- Read in this order: no row was read after one that follows it.
abbrev IsOrdered : List MessageBody → Type 0
IsOrdered [] = Unit
IsOrdered (x ∷ xs) = All (λ y. x.last_read_at ≤ y.last_read_at) xs × IsOrdered xs

-- What holds of a row and of a list holds of the list with the row put in, and the other way round.
All-insert :
    (P : MessageBody → Type 0) (b : MessageBody) (xs : List MessageBody)
    → P b
    → All P xs
    → All P (insert_body b xs)
unfolding insert_body
All-insert P b [] h k = (h, tt)
All-insert P b (x ∷ xs) h k = by_test (leb b.last_read_at x.last_read_at) (All-insert P b xs h k.1)
  where
    by_test :
        (v : Bool)
        → All P (insert_body b xs)
        → All P (if v then b ∷ x ∷ xs else x ∷ insert_body b xs)
    by_test true rest = (h, k)
    by_test false rest = (k.0, rest)

insert-All :
    (P : MessageBody → Type 0) (b : MessageBody) (xs : List MessageBody)
    → All P (insert_body b xs)
    → P b × All P xs
unfolding insert_body
insert-All P b [] h = h
insert-All P b (x ∷ xs) h = by_test (leb b.last_read_at x.last_read_at) (λ k. insert-All P b xs k) h
  where
    by_test :
        (v : Bool)
        → (All P (insert_body b xs) → P b × All P xs)
        → All P (if v then b ∷ x ∷ xs else x ∷ insert_body b xs)
        → P b × All P (x ∷ xs)
    by_test true rest k = k
    by_test false rest k = ((rest k.1).0, (k.0, (rest k.1).1))

All-sort : (P : MessageBody → Type 0) (bs : List MessageBody) → All P bs → All P (by_last_read bs)
unfolding by_last_read
All-sort P [] h = tt
All-sort P (b ∷ bs) h = All-insert P b (by_last_read bs) h.0 (All-sort P bs h.1)

sort-All : (P : MessageBody → Type 0) (bs : List MessageBody) → All P (by_last_read bs) → All P bs
unfolding by_last_read
sort-All P [] h = tt
sort-All P (b ∷ bs) h =
    let (one, rest) = insert-All P b (by_last_read bs) h in (one, sort-All P bs rest)

insert-IsOrdered :
    (b : MessageBody) (xs : List MessageBody) → IsOrdered xs → IsOrdered (insert_body b xs)
unfolding insert_body
insert-IsOrdered b [] h = (tt, tt)
insert-IsOrdered b (x ∷ xs) h =
    by_test (leb b.last_read_at x.last_read_at) refl (insert-IsOrdered b xs h.1)
  where
    by_test :
        (v : Bool)
        → leb b.last_read_at x.last_read_at ≡ v
        → IsOrdered (insert_body b xs)
        → IsOrdered (if v then b ∷ x ∷ xs else x ∷ insert_body b xs)
    by_test true e rest =
        let first : b.last_read_at ≤ x.last_read_at = leb→le b.last_read_at x.last_read_at e in
        ((first, All-map _ _ xs (λ y k. omega (arith, first, k)) h.0), h)
    by_test false e rest = (All-insert _ b xs (ground (arith, e)) h.0, rest)

sort-IsOrdered : (bs : List MessageBody) → IsOrdered (by_last_read bs)
unfolding by_last_read
sort-IsOrdered [] = tt
sort-IsOrdered (b ∷ bs) = insert-IsOrdered b (by_last_read bs) (sort-IsOrdered bs)

All-right : (P : MessageBody → Type 0) (xs ys : List MessageBody) → All P (xs ++ ys) → All P ys
All-right P [] ys h = h
All-right P (x ∷ xs) ys h = All-right P xs ys h.1

All-left : (P : MessageBody → Type 0) (xs ys : List MessageBody) → All P (xs ++ ys) → All P xs
All-left P [] ys h = tt
All-left P (x ∷ xs) ys h = (h.0, All-left P xs ys h.1)

-- The rows of the first part were read no later than those of the second.
parts-IsOrdered :
    (xs ys : List MessageBody)
    → IsOrdered (xs ++ ys)
    → All (λ g. All (λ c. g.last_read_at ≤ c.last_read_at) ys) xs
parts-IsOrdered [] ys h = tt
parts-IsOrdered (x ∷ xs) ys h = (All-right _ xs ys h.0, parts-IsOrdered xs ys h.1)

each-Memᴰ : (bs : List MessageBody) → All (λ b. Memᴰ b bs) bs
each-Memᴰ [] = tt
each-Memᴰ (b ∷ bs) =
    (head refl, All-map (λ x. Memᴰ x bs) (λ x. Memᴰ x (b ∷ bs)) bs (λ x m. tail m) (each-Memᴰ bs))

kept-All :
    (P : MessageBody → Type 0) (gone bs : List MessageBody)
    → All (λ c. (is_evicted gone c ≡ true) ⊎ P c) bs
    → All P (keep (λ b. not (is_evicted gone b)) bs)
kept-All P gone [] h = tt
kept-All P gone (b ∷ bs) h = by_test (is_evicted gone b) refl h.0 (kept-All P gone bs h.1)
  where
    by_test :
        (v : Bool)
        → is_evicted gone b ≡ v
        → (is_evicted gone b ≡ true) ⊎ P b
        → All P (keep (λ b. not (is_evicted gone b)) bs)
        → All P (
            if not v
            then b ∷ keep (λ b. not (is_evicted gone b)) bs
            else keep (λ b. not (is_evicted gone b)) bs)
    by_test true e one rest = rest
    by_test false e (inl f) rest = ground (arith, e, f)
    by_test false e (inr one) rest = (one, rest)

-- The rows that the loop takes off the sorted table were read no later than any that is then kept.
gone-least :
    (bs gone rest : List MessageBody)
    → gone ++ rest ≡ by_last_read bs
    → All
        (λ g. All (λ c. g.last_read_at ≤ c.last_read_at) (keep (λ b. not (is_evicted gone b)) bs))
        gone
gone-least bs gone rest split =
    All-map _ _ gone
      (λ g least. kept-All _ gone bs (
        sort-All _ bs (
          subst (All (λ c. (is_evicted gone c ≡ true) ⊎ (g.last_read_at ≤ c.last_read_at))) split (
            All-append _ gone rest (All-map _ _ gone (λ c e. inl e) (ids_self gone))
              (All-map _ _ rest (λ c k. inr k) least)))))
      (parts-IsOrdered gone rest (subst IsOrdered (sym split) (sort-IsOrdered bs)))

-- The bodies that an eviction deletes are bodies of the cache, as many as it reports; every body of
-- the cache with another id is kept, in its place; and each deleted one was read no later than any
-- that is kept.
evict_bodies-oldest :
    (s : Store) (budget_bytes : ℕ)
    → leb (total_bytes s.bodies) budget_bytes ≡ false
    → let (after, n) = evict_bodies s budget_bytes in
      (gone : List MessageBody) × (n ≡ length gone)
      × (after.bodies ≡ keep (λ (b : MessageBody). not (is_evicted gone b)) s.bodies)
      × All (λ g. Memᴰ g s.bodies) gone
      × All (λ g. All (λ c. g.last_read_at ≤ c.last_read_at) after.bodies) gone
unfolding evict_bodies
evict_bodies-oldest s budget_bytes over =
    let total = total_bytes s.bodies in
    let gone = evicted total budget_bytes (by_last_read s.bodies) in
    let (rest, split, fits) =
      evicted-rest budget_bytes total (by_last_read s.bodies) (sym (total-by_last_read s.bodies)) in
    rw (evict_bodies, over)
      (
        gone,
        refl,
        refl,
        All-left _ gone rest (
            subst (All (λ g. Memᴰ g s.bodies)) (sym split)
              (All-sort _ s.bodies (each-Memᴰ s.bodies))),
        gone-least s.bodies gone rest split,
      )
