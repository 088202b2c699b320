-- ===== src/Tasks/Claiming.antt =====
-- `claim_next` of src/mailmind/tasks.py: which task it starts.
use mathlib.Core.List.Memᴰ.{head, tail}
use ronny_email_worker.Prelude.{
  Memᴰ, map, not, ltb, ◌⊎◌, ap, ◌∙◌, ℕ, ◌≤◌, ◌+◌, ◌≡◌, refl, sym, ==_iff, Bool, true, false, Option,
  none, some, List, [], ◌∷◌, if◌then◌else◌, count_of, keep, All, All-map, arith, Bool-cases, inl,
  inr, mem, ◌&&◌, ◌==◌,
}
use ronny_email_worker.Models.{Task, TaskStatus, task_is_running, task_is_queued}
use ronny_email_worker.Tasks.{
  Queue, is_claimable, oldest, older, started, start_task, put_task, claim_next,
}

-- What the query of the least id gives: a row that it selects, no selected row being older; and
-- none only if it selects no row.
abbrev pub IsOldest : (Task → Bool) → List Task → Option Task → Type 0
IsOldest p ts none = All (λ u. p u ≡ false) ts
IsOldest p ts (some t) = (p t ≡ true) × All (λ u. p u ≡ true → t.id ≤ u.id) ts

older-le : (t : Task) (o : Option Task) → (older t o).id ≤ t.id
older-le t o = ground arith

skip :
    (p : Task → Bool) (u : Task) (us : List Task) (o : Option Task)
    → p u ≡ false
    → IsOldest p us o
    → IsOldest p (u ∷ us) o
skip p u us none e h = (e, h)
skip p u us (some t) e h = (h.0, ((λ e'. ground arith), h.1))

include :
    (p : Task → Bool) (u : Task) (us : List Task) (o : Option Task)
    → p u ≡ true
    → IsOldest p us o
    → IsOldest p (u ∷ us) (some (older u o))
include p u us none e h = (
  e,
  (
    (λ _. omega arith),
    All-map (λ v. p v ≡ false) (λ v. p v ≡ true → u.id ≤ v.id) us (λ v f g. ground arith) h,
  ),
)
include p u us (some t) e h = (
  ground arith,
  (
    (λ _. older-le u (some t)),
    All-map (λ v. p v ≡ true → t.id ≤ v.id) (λ v. p v ≡ true → (older u (some t)).id ≤ v.id) us
        (λ v f g. ground (arith, f g)) h.1,
  ),
)

oldest_lem : (p : Task → Bool) (ts : List Task) → IsOldest p ts (oldest (keep p ts))
unfolding oldest
oldest_lem p [] = tt
oldest_lem p (u ∷ us) = by_test (p u) refl (oldest_lem p us)
  where
    by_test :
        (v : Bool)
        → p u ≡ v
        → IsOldest p us (oldest (keep p us))
        → IsOldest p (u ∷ us) (oldest (if v then u ∷ keep p us else keep p us))
    by_test true e h = include p u us (oldest (keep p us)) e h
    by_test false e h = skip p u us (oldest (keep p us)) e h

older_cases : (u : Task) (o : Option Task) → (older u o ≡ u) ⊎ (o ≡ some (older u o))
older_cases u none = inl refl
older_cases u (some v) = elim (Bool-cases (ltb v.id u.id)) [
  | inl e ↦ inr (rw e refl)
  | inr e ↦ inl (rw e refl)
]

-- The row that the query gives is a row of the table.
oldest-Memᴰ :
    (p : Task → Bool) (ts : List Task) (t : Task) → oldest (keep p ts) ≡ some t → Memᴰ t ts
unfolding oldest
oldest-Memᴰ p [] t h = ground arith
oldest-Memᴰ p (u ∷ us) t h = by_test (p u) h (λ e. oldest-Memᴰ p us t e)
  where
    by_age :
        (o : Option Task)
        → (o ≡ some t → Memᴰ t us)
        → (older u o ≡ u) ⊎ (o ≡ some (older u o))
        → older u o ≡ t
        → Memᴰ t (u ∷ us)
    by_age o later (inl e) h = head (sym h ∙ e)
    by_age o later (inr e) h = tail (later (e ∙ ap some h))

    by_test :
        (v : Bool)
        → oldest (if v then u ∷ keep p us else keep p us) ≡ some t
        → (oldest (keep p us) ≡ some t → Memᴰ t us)
        → Memᴰ t (u ∷ us)
    by_test true h later =
        by_age (oldest (keep p us)) later (older_cases u (oldest (keep p us))) (ground (arith, h))
    by_test false h later = tail (later h)

-- How many tasks of an account are running.
abbrev pub lanes : ℕ → List Task → ℕ
lanes account_id = count_of (λ t. task_is_running t.status && t.account_id == account_id)

-- A task that is queued for an account that is not busy.
abbrev pub may_start : (busy_accounts : List ℕ) → Task → Bool
may_start busy u = task_is_queued u.status && not (mem u.account_id busy)

-- What `claim_next` promises: where it claims nothing, it changes nothing, and no row of the table may
-- start; where it claims a task, that is a row of the table that may start, as it is once started, no
-- such row is older, and the table has the task in place of that row.
abbrev pub Claims : Queue → (busy_accounts : List ℕ) → Queue → Option Task → Type 0
Claims q busy q' none = (q' ≡ q) × All (λ u. may_start busy u ≡ false) q.tasks
Claims q busy q' (some t') =
    (t : Task) × Memᴰ t q.tasks
    × (may_start busy t ≡ true)
    × All (λ u. may_start busy u ≡ true → t.id ≤ u.id) q.tasks
    × (t' ≡ record t {
      status = TaskStatus.running;
      started_at = some q.db.now;
      attempts = t.attempts + 1;
    })
    × (q'.tasks ≡ map (λ (u : Task). if u.id == t'.id then t' else u) q.tasks)

put_task-map :
    (t : Task) (us : List Task)
    → put_task t us ≡ map (λ (u : Task). if u.id == t.id then t else u) us
unfolding put_task
put_task-map t [] = refl
put_task-map t (u ∷ us) = elim (Bool-cases (u.id == t.id)) [
  | inl e ↦ rw e (ap (λ l. t ∷ l) (put_task-map t us))
  | inr e ↦ rw e (ap (λ l. u ∷ l) (put_task-map t us))
]

-- `claim_next` claims nothing exactly when no row of the table is queued for an account that is not
-- busy, and then the queue stays as it is. Otherwise it starts such a row of the table: the row is
-- running, since now and with one more attempt, every row of its id is replaced by it, and no row of
-- the table that could have been claimed has a lower id.
pub claim_next_lem :
    (q : Queue) (busy : List ℕ) → let (q', claimed) = claim_next q busy in Claims q busy q' claimed
unfolding claim_next start_task
claim_next_lem q busy =
    by_oldest (oldest (keep (is_claimable busy) q.tasks)) refl
      (oldest_lem (is_claimable busy) q.tasks)
  where
    by_oldest :
        (o : Option Task)
        → oldest (keep (is_claimable busy) q.tasks) ≡ o
        → IsOldest (is_claimable busy) q.tasks o
        → let (q', claimed) = claim_next q busy in Claims q busy q' claimed
    by_oldest none e h = rw (claim_next, e) (refl, h)
    by_oldest (some t) e h =
        let row = oldest-Memᴰ (is_claimable busy) q.tasks t e in
        rw (claim_next, e) (t, row, h.0, h.1, refl, put_task-map (started q t) q.tasks)

lanes-put_task :
    (a : ℕ) (t : Task) (ts : List Task)
    → lanes a (put_task t ts)
      ≤ lanes a ts + (if t.account_id == a then count_of (λ u. u.id == t.id) ts else 0)
unfolding put_task
lanes-put_task a t [] = omega arith
lanes-put_task a t (u ∷ us) = ground (arith, lanes-put_task a t us)

abbrev pub HasUniqueIds : List Task → Type 0
HasUniqueIds ts = (id : ℕ) → count_of (λ u. u.id == id) ts ≤ 1

lanes-started :
    (q : Queue) (busy : List ℕ) (t : Task)
    → is_claimable busy t ≡ true
    → HasUniqueIds q.tasks
    → ((a : ℕ) → mem a busy ≡ false → lanes a q.tasks ≡ 0)
    → ((a : ℕ) → lanes a q.tasks ≤ 1)
    → (a : ℕ) → lanes a (put_task (started q t) q.tasks) ≤ 1
lanes-started q busy t claimable unique idle one a =
    let added = lanes-put_task a (started q t) q.tasks in
    let is_idle : mem t.account_id busy ≡ false = ground arith in
    let none_runs = idle t.account_id is_idle in
    elim (Bool-cases (t.account_id == a)) [
      | inl e ↦
          let same : t.account_id ≡ a = (==_iff t.account_id a).0 e in
          let none_here : lanes a q.tasks ≡ 0 = rw (sym same) none_runs in
          ground (arith, added, none_here, unique t.id)
      | inr e ↦ ground (arith, added, one a)
    ]

-- For a task table whose ids are unique, and a `busy_accounts` outside which no task is running: if
-- every account has at most one task running, that is still so after `claim_next`.
pub claim_next-lanes :
    (q : Queue) (busy : List ℕ)
    → HasUniqueIds q.tasks
    → ((a : ℕ) → mem a busy ≡ false → lanes a q.tasks ≡ 0)
    → ((a : ℕ) → lanes a q.tasks ≤ 1)
    → let (q', _) = claim_next q busy in (a : ℕ) → lanes a q'.tasks ≤ 1
claim_next-lanes q busy unique idle one a =
    by_claim (claim_next q busy).0 (claim_next q busy).1 (claim_next_lem q busy)
  where
    by_claim : (q' : Queue) (o : Option Task) → Claims q busy q' o → lanes a q'.tasks ≤ 1
    by_claim q' none (same, _) = rw same (one a)
    by_claim q' (some t') (t, _, claimable, _, is_started, stored) =
        rw (stored, sym (put_task-map t' q.tasks), is_started)
          (lanes-started q busy t claimable unique idle one a)
