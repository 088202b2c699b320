-- ===== src/Suggest/Grow/Room.antt =====
-- How many items `_add_messages` of src/mailmind/suggest/model.py can add, against what
-- `add_to_bundle` counts as arriving.
use ronny_email_worker.Prelude.{
  ℕ, suc, ◌+◌, ◌≤◌, ◌≡◌, refl, sym, ◌⊎◌, Bool, true, false, not, ◌&&◌, Option, none, some, List, [],
  ◌∷◌, ◌==◌, ==_iff, ==_refl, opt_eq, if◌then◌else◌, first, any, mem, keep, count_of, length,
  length-append, arith, Bool-cases, inl, inr,
}
use ronny_email_worker.Text.{Text}
use ronny_email_worker.Models.{Placement, Suggestion, Bundle, item_is_excluded}
use ronny_email_worker.Scope.{Db}
use ronny_email_worker.Suggest.Refusal.{Refusal}
use ronny_email_worker.Suggest.Items.{
  live_placement, Adding, is_about, add_absent, add_held, add_unseen, add_message, add_each, start,
  add_messages,
}
use ronny_email_worker.Suggest.Grow.{distinct, arriving}

-- The ids that neither an item of the bundle nor the loop so far has met.
abbrev is_unmet : List Suggestion → List ℕ → ℕ → Bool
is_unmet existing seen m = not (any (is_about m) existing) && not (mem m seen)

distinct-mem : (n : ℕ) (ns : List ℕ) → mem n ns ≡ true → mem n (distinct ns) ≡ true
unfolding distinct
distinct-mem n [] h = ground arith
distinct-mem n (m ∷ ms) h = ground (arith, distinct-mem n ms, ==_iff n m)

-- Once `n` is seen there are fewer unmet ids, by one if `n` is unmet and among them.
seen-le :
    (existing : List Suggestion) (seen : List ℕ) (n : ℕ) (ns : List ℕ)
    → count_of (is_unmet existing (n ∷ seen)) ns ≤ count_of (is_unmet existing seen) ns
seen-le existing seen n [] = omega arith
seen-le existing seen n (m ∷ ms) = ground (arith, seen-le existing seen n ms)

seen-lt :
    (existing : List Suggestion) (seen : List ℕ) (n : ℕ) (ns : List ℕ)
    → is_unmet existing seen n ≡ true
    → mem n ns ≡ true
    → suc (count_of (is_unmet existing (n ∷ seen)) ns) ≤ count_of (is_unmet existing seen) ns
seen-lt existing seen n [] h k = ground arith
seen-lt existing seen n (m ∷ ms) h k = elim (Bool-cases (n == m)) [
  | inl e ↦
      let same : n ≡ m = (==_iff n m).0 e in
      let unmet : is_unmet existing seen m ≡ true = rw (sym same) h in
      let met : is_unmet existing (n ∷ seen) m ≡ false = rw (sym same, ==_refl n) (ground arith) in
      rw (unmet, met) (ground (arith, seen-le existing seen n ms))
  | inr e ↦
      let later : mem n ms ≡ true = ground arith in
      ground (arith, seen-lt existing seen n ms h later)
]

first-any :
    (m : ℕ) (ss : List Suggestion) → first (is_about m) ss ≡ none → any (is_about m) ss ≡ false
first-any m [] h = refl
first-any m (s ∷ ss) h = ground (arith, first-any m ss)

module _ (digest : Text → Text) (bundle : Bundle) (account_id : ℕ) (assert_each : Bool)
    (existing : List Suggestion) where
  -- A message adds an item only if it is unmet, and then it is seen.
  abbrev OneMore : Adding → ℕ → Adding → Type 0
  OneMore a m a' =
      ((a'.added.added ≡ a.added.added) × ((a'.seen ≡ a.seen) ⊎ (a'.seen ≡ m ∷ a.seen)))
      ⊎ ((length a'.added.added ≡ suc (length a.added.added))
          × (a'.seen ≡ m ∷ a.seen)
          × (is_unmet existing a.seen m ≡ true))

  if-OneMore :
      (a : Adding) (m : ℕ) (b : Bool) (x y : Adding × Option Refusal)
      → OneMore a m x.0
      → OneMore a m y.0
      → OneMore a m (if◌then◌else◌ {A = Adding × Option Refusal} b x y).0
  if-OneMore a m true x y hx hy = hx
  if-OneMore a m false x y hx hy = hy

  add_absent-OneMore :
      (a : Adding) (m : ℕ) (o : Option Placement)
      → is_unmet existing a.seen m ≡ true
      → OneMore a m
          (add_absent digest bundle account_id assert_each (record a { seen = m ∷ a.seen }) m o).0
  unfolding add_absent
  add_absent-OneMore a m none h =
      if-OneMore a m assert_each _ _ (inl (refl, inr refl)) (inl (refl, inr refl))
  add_absent-OneMore a m (some p) h =
      if-OneMore a m (opt_eq (some p.container_id) bundle.target_container_id) _ _
        (if-OneMore a m assert_each _ _ (inl (refl, inr refl)) (inl (refl, inr refl)))
        (inr (omega (arith, length-append a.added.added (m ∷ [])), refl, h))

  add_held-OneMore :
      (a : Adding) (m : ℕ) (s : Suggestion)
      → OneMore a m
          (add_held digest bundle account_id assert_each (record a { seen = m ∷ a.seen }) m s)
  unfolding add_held
  add_held-OneMore a m s = elim (Bool-cases (item_is_excluded s.status)) [
    | inl e ↦ rw e (inl (refl, inr refl))
    | inr e ↦ rw e (inl (refl, inr refl))
  ]

  add_unseen-OneMore :
      (a : Adding) (m : ℕ) (o : Option Suggestion)
      → first (is_about m) existing ≡ o
      → mem m a.seen ≡ false
      → OneMore a m
          (add_unseen digest bundle account_id assert_each existing
            (record a { seen = m ∷ a.seen })
            m).0
  unfolding add_unseen
  add_unseen-OneMore a m none e h =
      rw (add_unseen, e)
        (add_absent-OneMore a m (live_placement a.db.cache account_id m)
          (ground (arith, first-any m existing e)))
  add_unseen-OneMore a m (some s) e h = rw (add_unseen, e) (add_held-OneMore a m s)

  add_message-unseen :
      (a : Adding) (m : ℕ)
      → mem m a.seen ≡ false
      → add_message digest bundle account_id assert_each existing a m
        ≡ add_unseen digest bundle account_id assert_each existing
            (record a { seen = m ∷ a.seen })
            m
  unfolding add_message
  add_message-unseen a m e = rw (add_message, e) refl

  add_message-OneMore :
      (a : Adding) (m : ℕ)
      → OneMore a m (add_message digest bundle account_id assert_each existing a m).0
  unfolding add_message
  add_message-OneMore a m = elim (Bool-cases (mem m a.seen)) [
    | inl e ↦ rw (add_message, e) (inl (refl, inl refl))
    | inr e ↦
        rw (add_message-unseen a m e) (add_unseen-OneMore a m (first (is_about m) existing) refl e)
  ]

  -- What one step leaves is what it may use.
  room-step :
      (a a' : Adding) (m : ℕ) (ms : List ℕ)
      → OneMore a m a'
      → length a'.added.added + count_of (is_unmet existing a'.seen) (distinct ms)
        ≤ length a.added.added + count_of (is_unmet existing a.seen) (distinct (m ∷ ms))
  unfolding distinct
  room-step a a' m ms (inl (same, inl seen)) = rw (same, seen) (ground arith)
  room-step a a' m ms (inl (same, inr seen)) =
      rw (same, seen) (ground (arith, seen-le existing a.seen m (distinct ms)))
  room-step a a' m ms (inr (more, seen, unmet)) =
      rw (more, seen)
        (ground (
          arith,
          seen-le existing a.seen m (distinct ms),
          seen-lt existing a.seen m (distinct ms) unmet,
          distinct-mem m ms,
        ))

  add_each-room :
      (a : Adding) (ms : List ℕ)
      → length (add_each digest bundle account_id assert_each existing a ms).0.added.added
        ≤ length a.added.added + count_of (is_unmet existing a.seen) (distinct ms)
  unfolding add_each distinct
  add_each-room a [] = omega arith
  add_each-room a (m ∷ ms) =
      by_refusal (add_message digest bundle account_id assert_each existing a m).1
        (room-step a a' m ms (add_message-OneMore a m))
        (add_each-room (add_message digest bundle account_id assert_each existing a m).0 ms)
    where
      a' : Adding
      a' = (add_message digest bundle account_id assert_each existing a m).0

      rest : Adding × Option Refusal
      rest = add_each digest bundle account_id assert_each existing a' ms

      bound : ℕ
      bound = length a.added.added + count_of (is_unmet existing a.seen) (distinct (m ∷ ms))

      by_refusal :
          (o : Option Refusal)
          → length a'.added.added + count_of (is_unmet existing a'.seen) (distinct ms) ≤ bound
          → length rest.0.added.added
            ≤ length a'.added.added + count_of (is_unmet existing a'.seen) (distinct ms)
          → length
              (elim o as (λ _. Adding × Option Refusal) [
                | some r ↦ (a', some r)
                | none ↦ rest
              ]).0.added.added
            ≤ bound
      by_refusal none h k = omega (arith, h, k)
      by_refusal (some r) h k = omega (arith, h)

unmet-arriving :
    (existing : List Suggestion) (ms : List ℕ)
    → count_of (is_unmet existing []) ms ≡ length (keep (λ m. not (any (is_about m) existing)) ms)
unmet-arriving existing [] = refl
unmet-arriving existing (m ∷ ms) = ground (arith, unmet-arriving existing ms)

-- `_add_messages` adds no more items than `add_to_bundle` counts as arriving: the distinct ids that
-- no item of the bundle is about.
pub add_messages-arriving :
    (digest : Text → Text) (bundle : Bundle) (account_id : ℕ) (assert_each : Bool) (db : Db)
    (ms : List ℕ)
    → let (a, _) = add_messages digest bundle account_id assert_each db ms in
      length a.added.added ≤ arriving ms bundle
unfolding add_messages
add_messages-arriving digest bundle account_id assert_each db ms = omega (
  arith,
  add_each-room digest bundle account_id assert_each bundle.suggestions
      (start digest bundle account_id assert_each db) ms,
  unmet-arriving bundle.suggestions (distinct ms),
)
