-- ===== src/Tasks/Coalescing.antt =====
-- `enqueue` of src/mailmind/tasks.py, when it is asked twice for the same work.
use ronny_email_worker.Prelude.{
  ℕ, ◌≤◌, ◌+◌, ◌≡◌, refl, Bool, true, false, Option, none, some, List, [], ◌∷◌, ◌++◌, first,
  count_of, arith, Bool-cases, Option-cases, inl, inr, ==_refl, ==_iff,
}
use Prim.Native.String.{String}
use ronny_email_worker.Models.{Task, Value, TaskKind, kind_eq}
use ronny_email_worker.Tasks.{Queue, is_ask, new_task, add_task, enqueue}

-- How many rows are a live ask for the same work.
abbrev pub asks : Queue → TaskKind → (account_id subject_id : ℕ) → ℕ
asks q kind account_id subject_id = count_of (is_ask kind account_id subject_id) q.tasks

-- No two live rows ask for the same work.
abbrev pub IsCoalesced : Queue → Type 0
IsCoalesced q =
    (kind : TaskKind) (account_id subject_id : ℕ) → asks q kind account_id subject_id ≤ 1

pub kind_eq_refl : (k : TaskKind) → kind_eq k k ≡ true
kind_eq_refl TaskKind.apply_bundle = refl
kind_eq_refl TaskKind.sync_account = refl
kind_eq_refl TaskKind.sync_container = refl
kind_eq_refl TaskKind.fetch_body = refl

pub kind_eq→≡ : (k l : TaskKind) → kind_eq k l ≡ true → k ≡ l
kind_eq→≡ k l h = ground arith

module _ {ℓ} {A : Type ℓ} where
  pub first-none : (p : A → Bool) (xs : List A) → first p xs ≡ none → count_of p xs ≡ 0
  first-none p [] h = refl
  first-none p (x ∷ xs) h = ground (arith, first-none p xs)

  pub first-some : (p : A → Bool) (xs : List A) (a : A) → first p xs ≡ some a → p a ≡ true
  first-some p [] a h = ground arith
  first-some p (x ∷ xs) a h = ground (arith, first-some p xs a)

  pub first-count : (p : A → Bool) (xs : List A) (a : A) → first p xs ≡ some a → 1 ≤ count_of p xs
  first-count p [] a h = ground arith
  first-count p (x ∷ xs) a h = ground (arith, first-count p xs a)

  pub first-append_none :
      (p : A → Bool) (xs : List A) (a : A)
      → first p xs ≡ none
      → p a ≡ true
      → first p (xs ++ a ∷ []) ≡ some a
  first-append_none p [] a h ha = ground arith
  first-append_none p (x ∷ xs) a h ha = ground (arith, first-append_none p xs a)

  pub count_of-snoc :
      (p : A → Bool) (xs : List A) (a : A)
      → count_of p (xs ++ a ∷ []) ≡ count_of p xs + count_of p (a ∷ [])
  count_of-snoc p [] a = omega arith
  count_of-snoc p (x ∷ xs) a = ground (arith, count_of-snoc p xs a)

pub new_task-is_ask :
    (q : Queue) (kind : TaskKind) (account_id subject_id : ℕ) (payload : List (String × Value))
    (by : Option ℕ)
    → is_ask kind account_id subject_id (new_task q kind account_id subject_id payload by) ≡ true
new_task-is_ask q kind account_id subject_id payload by =
    rw (kind_eq_refl kind, ==_refl account_id, ==_refl subject_id)

module _ (q : Queue) (kind : TaskKind) (account_id subject_id : ℕ) (payload : List (String × Value))
    (by : Option ℕ) where
  pub enqueue_found :
      (t : Task)
      → first (is_ask kind account_id subject_id) q.tasks ≡ some t
      → enqueue q kind account_id subject_id payload by ≡ (q, t, false)
  unfolding enqueue
  enqueue_found t e = rw (enqueue, e) refl

  pub enqueue_added :
      (e : first (is_ask kind account_id subject_id) q.tasks ≡ none)
      → let t = new_task q kind account_id subject_id payload by in
        enqueue q kind account_id subject_id payload by ≡ (add_task q t, t, true)
  unfolding enqueue
  enqueue_added e = rw (enqueue, e) refl

-- After `enqueue`, the returned task is a live row for that ask; a second `enqueue` for the same
-- work, whatever its payload and whoever asks, gives the same task, adds nothing and says so.
enqueue_again :
    (q : Queue) (kind : TaskKind) (account_id subject_id : ℕ)
    (payload later : List (String × Value)) (by then_by : Option ℕ)
    → let (q', t, _) = enqueue q kind account_id subject_id payload by in
      (is_ask kind account_id subject_id t ≡ true)
      × (enqueue q' kind account_id subject_id later then_by ≡ (q', t, false))
unfolding add_task
enqueue_again q kind account_id subject_id payload later by then_by =
    let new = new_task q kind account_id subject_id payload by in
    let asked = is_ask kind account_id subject_id in
    let is_new = new_task-is_ask q kind account_id subject_id payload by in
    elim (Option-cases (first asked q.tasks)) [
      | inl e ↦ rw (enqueue_added q kind account_id subject_id payload by e) (
        is_new,
        enqueue_found (add_task q new) kind account_id subject_id later then_by new
            (first-append_none asked q.tasks new e is_new),
      )
      | inr (t, e) ↦ rw (enqueue_found q kind account_id subject_id payload by t e) (
        first-some asked q.tasks t e,
        enqueue_found q kind account_id subject_id later then_by t e,
      )
    ]

-- The row for an ask is no row for another ask.
added-IsCoalesced :
    (q : Queue) (kind : TaskKind) (account_id subject_id : ℕ) (payload : List (String × Value))
    (by : Option ℕ)
    → IsCoalesced q
    → asks q kind account_id subject_id ≡ 0
    → IsCoalesced (add_task q (new_task q kind account_id subject_id payload by))
unfolding add_task
added-IsCoalesced q kind account_id subject_id payload by h none_yet k a s =
    let new = new_task q kind account_id subject_id payload by in
    let snoc = count_of-snoc (is_ask k a s) q.tasks new in
    elim (Bool-cases (is_ask k a s new)) [
      | inl e ↦
          ground (arith, snoc, none_yet, kind_eq→≡ kind k, ==_iff account_id a, ==_iff subject_id s)
      | inr e ↦ ground (arith, snoc, h k a s)
    ]

-- For a queue in which no two live rows ask for the same work, `enqueue` keeps that so, for its own
-- ask and every other, and leaves exactly one live row for its own ask.
pub enqueue-IsCoalesced :
    (q : Queue) (kind : TaskKind) (account_id subject_id : ℕ) (payload : List (String × Value))
    (by : Option ℕ)
    → IsCoalesced q
    → let (q', _, _) = enqueue q kind account_id subject_id payload by in
      IsCoalesced q' × (asks q' kind account_id subject_id ≡ 1)
unfolding enqueue add_task
enqueue-IsCoalesced q kind account_id subject_id payload by h =
    let new = new_task q kind account_id subject_id payload by in
    let asked = is_ask kind account_id subject_id in
    elim (Option-cases (first asked q.tasks)) [
      | inl e ↦
          rw (enqueue, e)
            (
              added-IsCoalesced q kind account_id subject_id payload by h
                  (first-none asked q.tasks e),
              ground (
                arith,
                count_of-snoc asked q.tasks new,
                first-none asked q.tasks e,
                new_task-is_ask q kind account_id subject_id payload by,
              ),
            )
      | inr (t, e) ↦
          rw (enqueue, e)
            (h, omega (arith, h kind account_id subject_id, first-count asked q.tasks t e))
    ]
