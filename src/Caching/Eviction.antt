-- ===== src/Caching/Eviction.antt =====
-- `evict_bodies` of src/mailmind/db/cache.py, against its budget.
use ronny_email_worker.Prelude.{
  ℕ, ◌-◌, ◌≤◌, ◌≡◌, refl, ap, sym, ◌∙◌, Bool, true, false, not, List, [], ◌∷◌, ◌++◌, arith, All,
  All-map, any, keep, leb, leb→le, Bool-cases, inl, inr, ◌==◌, ==_refl, ◌⊎◌,
}
use ronny_email_worker.Models.{MessageBody}
use ronny_email_worker.Caching.{Store}
use ronny_email_worker.Caching.Evicting.{
  total_bytes, insert_body, by_last_read, evicted, evict_bodies,
}

-- Sorting keeps what a test selects, by its bytes.
total-insert :
    (f : MessageBody → Bool) (b : MessageBody) (xs : List MessageBody)
    → total_bytes (keep f (insert_body b xs)) ≡ total_bytes (keep f (b ∷ xs))
unfolding total_bytes insert_body
total-insert f b [] = refl
total-insert f b (x ∷ xs) = ground (arith, total-insert f b xs)

total-sort :
    (f : MessageBody → Bool) (bs : List MessageBody)
    → total_bytes (keep f (by_last_read bs)) ≡ total_bytes (keep f bs)
unfolding total_bytes by_last_read
total-sort f [] = refl
total-sort f (b ∷ bs) = ground (arith, total-insert f b (by_last_read bs), total-sort f bs)

total-keep-true : (bs : List MessageBody) → total_bytes (keep (λ b. true) bs) ≡ total_bytes bs
unfolding total_bytes
total-keep-true [] = refl
total-keep-true (b ∷ bs) = omega (arith, total-keep-true bs)

total-keep :
    (f : MessageBody → Bool) (bs : List MessageBody) → total_bytes (keep f bs) ≤ total_bytes bs
unfolding total_bytes
total-keep f [] = omega arith
total-keep f (b ∷ bs) = ground (arith, total-keep f bs)

keep-append_none :
    (f : MessageBody → Bool) (xs ys : List MessageBody)
    → All (λ x. f x ≡ false) xs
    → keep f (xs ++ ys) ≡ keep f ys
keep-append_none f [] ys h = refl
keep-append_none f (x ∷ xs) ys h = ground (arith, h.0, keep-append_none f xs ys h.1)

-- The loop stops where the rest fits the budget.
pub evicted-rest :
    (budget total : ℕ) (bs : List MessageBody)
    → total ≡ total_bytes bs
    → (rest : List MessageBody) × (evicted total budget bs ++ rest ≡ bs)
      × (total_bytes rest ≤ budget)
unfolding evicted total_bytes
evicted-rest budget total [] h = ([], refl, omega arith)
evicted-rest budget total (b ∷ bs) h =
    let (rest, split, fits) = evicted-rest budget (total - b.bytes_stored) bs (omega (arith, h)) in
    elim (Bool-cases (leb total budget)) [
      | inl e ↦ (b ∷ bs, ground (arith, e), ground (arith, h, leb→le total budget e))
      | inr e ↦ (rest, ground (arith, e, split), fits)
    ]

-- Every row of a list is one of its ids.
abbrev pub is_evicted : List MessageBody → MessageBody → Bool
is_evicted gone b = any (λ (g : MessageBody). g.id == b.id) gone

pub ids_self : (xs : List MessageBody) → All (λ b. is_evicted xs b ≡ true) xs
ids_self [] = tt
ids_self (x ∷ xs) = (
  ground (arith, ==_refl x.id),
  All-map (λ b. is_evicted xs b ≡ true) (λ b. is_evicted (x ∷ xs) b ≡ true) xs
      (λ b e. ground (arith, e)) (ids_self xs),
)

-- What is left once the rows that go are deleted by their ids.
remaining-fits :
    (budget : ℕ) (bs gone rest : List MessageBody)
    → gone ++ rest ≡ by_last_read bs
    → total_bytes rest ≤ budget
    → total_bytes (keep (λ b. not (is_evicted gone b)) bs) ≤ budget
remaining-fits budget bs gone rest split fits =
    let left : MessageBody → Bool = λ b. not (is_evicted gone b) in
    let none_gone = keep-append_none left gone rest (
      All-map (λ b. is_evicted gone b ≡ true) (λ b. left b ≡ false) gone (λ b e. ground (arith, e))
        (ids_self gone)) in
    let same : total_bytes (keep left rest) ≡ total_bytes (keep left bs) =
      ap total_bytes (sym none_gone ∙ ap (keep left) split) ∙ total-sort left bs in
    omega (arith, same, total-keep left rest, fits)

pub total-by_last_read : (bs : List MessageBody) → total_bytes (by_last_read bs) ≡ total_bytes bs
total-by_last_read bs =
    sym (total-keep-true (by_last_read bs)) ∙ total-sort (λ b. true) bs ∙ total-keep-true bs

-- After an eviction the bodies fit the budget, whatever they were and however small it is; where they
-- did fit it, nothing is dropped.
pub evict_bodies-fits :
    (s : Store) (budget_bytes : ℕ)
    → (total_bytes (evict_bodies s budget_bytes).0.bodies ≤ budget_bytes)
      × ((leb (total_bytes s.bodies) budget_bytes ≡ false) ⊎ (evict_bodies s budget_bytes ≡ (s, 0)))
unfolding evict_bodies
evict_bodies-fits s budget_bytes =
    let total = total_bytes s.bodies in
    let gone = evicted total budget_bytes (by_last_read s.bodies) in
    let (rest, split, fits) =
      evicted-rest budget_bytes total (by_last_read s.bodies) (sym (total-by_last_read s.bodies)) in
    elim (Bool-cases (leb total budget_bytes)) [
      | inl e ↦ (ground (arith, e, leb→le total budget_bytes e), inr (ground (arith, e)))
      | inr e ↦
          (ground (arith, e, remaining-fits budget_bytes s.bodies gone rest split fits), inl e)
    ]
