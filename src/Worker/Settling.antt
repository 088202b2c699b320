-- ===== src/Worker/Settling.antt =====
-- What becomes of an apply task and its bundle in src/mailmind/worker.py.
use Prim.Native.String.{String}
use mathlib.Core.Path.{subst}
use ronny_email_worker.Prelude.{
  ℕ, zero, suc, ◌≡◌, refl, sym, ap, ◌∙◌, ◌⊎◌, inl, inr, Bool, true, false, Option, none, some, List,
  [], ◌∷◌, ◌==◌, ==_refl, first, length, arith, Bool-cases,
}
use ronny_email_worker.Text.{Text}
use ronny_email_worker.Models.{
  Account, Bundle, Task, TaskStatus, BundleStatus, Value, bundle_is_accepted, bundle_is_stale,
}
use ronny_email_worker.Scope.{get_account}
use ronny_email_worker.Imap.Backend.{
  Reason, Failure, mailbox_unhealthy, identity_lost, not_applicable, MailBackend,
}
use ronny_email_worker.Imap.Record.{Run, Ending, finished, stopped, failed}
use ronny_email_worker.Imap.Apply.{in_order, applied_of, apply_bundle}
use ronny_email_worker.Imap.Apply.Rollup.{Becomes, apply_bundle-Becomes}
use ronny_email_worker.Tasks.{Queue, put_task, ended, finish}
use ronny_email_worker.Worker.{
  trash_of, interrupted, requeue, note_unhealthy, after_items, committed_items, settle_run,
  settle_task, execute_apply,
}

-- The row of a task.
abbrev pub task_of : ℕ → List Task → Option Task
task_of id = first (λ t. t.id == id)

put_task-task_of :
    (t u : Task) (ts : List Task) → task_of t.id ts ≡ some u → task_of t.id (put_task t ts) ≡ some t
unfolding put_task
put_task-task_of t u [] h = ground arith
put_task-task_of t u (v ∷ vs) h = elim (Bool-cases (v.id == t.id)) [
  | inl e ↦ rw (e, ==_refl t.id) refl
  | inr e ↦ rw (e, e) (put_task-task_of t u vs (ground arith))
]

-- How a task and its bundle stand when the run is over.
abbrev pub Settles : Task → Bundle → Type 0
Settles u b =
    ((u.status ≡ TaskStatus.queued) × (b.status ≡ BundleStatus.accepted))
    ⊎ ((u.status ≡ TaskStatus.failed) × (b.status ≡ BundleStatus.accepted))
    ⊎ ((u.status ≡ TaskStatus.done)
        × ((b.status ≡ BundleStatus.applied)
            ⊎ (b.status ≡ BundleStatus.partially_applied)
            ⊎ (b.status ≡ BundleStatus.stale)))

abbrev pub Settled : ℕ → Queue → Bundle → Type 0
Settled id q b = (u : Task) × (task_of id q.tasks ≡ some u) × Settles u b

after_items-id : (total n : ℕ) (t : Task) → (after_items total n t).id ≡ t.id
after_items-id total zero t = refl
after_items-id total (suc n) t = refl

committed_items-id : (total n : ℕ) (t : Task) → (committed_items total n t).id ≡ t.id
committed_items-id total zero t = refl
committed_items-id total (suc n) t = after_items-id total n t

-- The row that `put_task` writes, under an id that it keeps.
pub written :
    (id : ℕ) (t u : Task) (ts : List Task)
    → t.id ≡ id
    → task_of id ts ≡ some u
    → task_of id (put_task t ts) ≡ some t
written id t u ts same h =
    subst (λ i. task_of i (put_task t ts) ≡ some t) same
      (put_task-task_of t u ts (subst (λ i. task_of i ts ≡ some u) (sym same) h))

module _ (id : ℕ) (u : Task) where
  finish-Settled :
      (q : Queue) (t : Task) (status : TaskStatus) (error : Option Value)
      (result : Option (List (String × Value))) (b : Bundle)
      → t.id ≡ id
      → task_of id q.tasks ≡ some u
      → ((v : Task) → v.status ≡ status → Settles v b)
      → Settled id (finish q t status error result) b
  unfolding finish
  finish-Settled q t status error result b same h settles = (
    _,
    written id (ended q t status error result) u q.tasks same h,
    settles (ended q t status error result) refl,
  )

  abbrev counts : Bundle → Option (List (String × Value))
  counts b =
      some (("applied", Value.num (applied_of b)) ∷ ("status", Value.bundle_status b.status) ∷ [])

  settle_run-finish :
      (q : Queue) (t : Task) (b : Bundle)
      → bundle_is_accepted b.status ≡ false
      → settle_run q t b ≡ finish q t TaskStatus.done none (counts b)
  unfolding settle_run
  settle_run-finish q t b h = rw (settle_run, h) refl

  settle_run-requeue :
      (q : Queue) (t : Task) (b : Bundle)
      → bundle_is_accepted b.status ≡ true
      → settle_run q t b ≡ requeue q t
  unfolding settle_run
  settle_run-requeue q t b h = rw (settle_run, h) refl

  requeue-Settled :
      (q : Queue) (t : Task) (b : Bundle)
      → t.id ≡ id
      → task_of id q.tasks ≡ some u
      → b.status ≡ BundleStatus.accepted
      → Settled id (requeue q t) b
  unfolding requeue
  requeue-Settled q t b same h now =
      (interrupted t, written id (interrupted t) u q.tasks same h, inl (refl, now))

  finished-Settled :
      (q : Queue) (t : Task) (b : Bundle)
      → t.id ≡ id
      → task_of id q.tasks ≡ some u
      → Becomes b finished
      → Settled id (settle_run q t b) b
  finished-Settled q t b same h (inl (now, _)) =
      rw (settle_run-finish q t b (ap bundle_is_accepted now)) (
        finish-Settled q t TaskStatus.done none (counts b) b same h (λ v s. inr (inr (s, inl now))))
  finished-Settled q t b same h (inr (now, _)) =
      rw (settle_run-finish q t b (ap bundle_is_accepted now)) (
        finish-Settled q t TaskStatus.done none (counts b) b same h
          (λ v s. inr (inr (s, inr (inl now)))))

  stopped-Settled :
      (q : Queue) (t : Task) (b : Bundle)
      → t.id ≡ id
      → task_of id q.tasks ≡ some u
      → b.status ≡ BundleStatus.accepted
      → Settled id (settle_run q t b) b
  stopped-Settled q t b same h now =
      rw (settle_run-requeue q t b (ap bundle_is_accepted now)) (requeue-Settled q t b same h now)

  module _ {S : Type 0} (traceback : Failure → Text) where
    not_applicable-Settled :
        (q : Queue) (t : Task) (a : Account) (total : ℕ) (r : Run S) (why : Reason)
        → t.id ≡ id
        → task_of id q.tasks ≡ some u
        → Becomes r.bundle (failed (not_applicable why))
        → Settled id (settle_task traceback q t a total r (failed (not_applicable why))) r.bundle
    unfolding settle_task
    not_applicable-Settled q t a total r why same h (inl now) =
        rw (settle_task, ap bundle_is_stale now)
          (finish-Settled (record q { db = r.db }) (after_items total (length r.attempts) t)
            TaskStatus.failed (some (Value.reason why)) none r.bundle
            (after_items-id total (length r.attempts) t ∙ same) h (λ v s. inr (inl (s, now))))
    not_applicable-Settled q t a total r why same h (inr (now, _)) =
        rw (settle_task, ap bundle_is_stale now)
          (finish-Settled (record q { db = r.db }) (after_items total (length r.attempts) t)
            TaskStatus.done none (some (("note", Value.reason why) ∷ [])) r.bundle
            (after_items-id total (length r.attempts) t ∙ same) h
            (λ v s. inr (inr (s, inr (inr now)))))

    settle_task-Settled :
        (q : Queue) (t : Task) (a : Account) (total : ℕ) (r : Run S) (e : Ending)
        → t.id ≡ id
        → task_of id q.tasks ≡ some u
        → Becomes r.bundle e
        → Settled id (settle_task traceback q t a total r e) r.bundle
    unfolding settle_task note_unhealthy
    settle_task-Settled q t a total r finished same h now =
        finished-Settled (record q { db = r.db }) (after_items total (length r.attempts) t) r.bundle
          (after_items-id total (length r.attempts) t ∙ same) h now
    settle_task-Settled q t a total r stopped same h now =
        stopped-Settled (record q { db = r.db }) (after_items total (length r.attempts) t) r.bundle
          (after_items-id total (length r.attempts) t ∙ same) h now
    settle_task-Settled q t a total r (failed (not_applicable why)) same h now =
        not_applicable-Settled q t a total r why same h now
    settle_task-Settled q t a total r (failed (mailbox_unhealthy what)) same h now =
        finish-Settled (note_unhealthy (record q { db = r.db }) a what)
          (after_items total (length r.attempts) t) TaskStatus.failed (some (Value.text what)) none
          r.bundle (after_items-id total (length r.attempts) t ∙ same) h (λ v s. inr (inl (s, now)))
    settle_task-Settled q t a total r (failed (identity_lost what)) same h now =
        finish-Settled (record q { db = r.db }) (committed_items total (length r.attempts) t)
          TaskStatus.failed (some (Value.text (traceback (identity_lost what)))) none r.bundle
          (committed_items-id total (length r.attempts) t ∙ same) h (λ v s. inr (inl (s, now)))

-- An apply task on an accepted bundle of a known account, whatever the server does and whenever it
-- is asked to stop, does not stay running. Its row is then queued again, or failed, and the bundle is
-- still accepted; or it is done, and the bundle is applied, partially applied or stale.
pub execute_apply-Settled :
    {S : Type 0} (digest : Text → Text) (backend : MailBackend S) (traceback : Failure → Text)
    (should_stop : ℕ → Bool) (q : Queue) (t : Task) (b : Bundle) (server : S) (a : Account)
    → task_of t.id q.tasks ≡ some t
    → b.status ≡ BundleStatus.accepted
    → get_account q.db.cache b.account_id ≡ some a
    → let (q', b', _) = execute_apply digest backend traceback should_stop q t b server in
      Settled t.id q' b'
unfolding execute_apply
execute_apply-Settled digest backend traceback should_stop q t b server a row h known =
    let result = apply_bundle digest backend (trash_of q.db.cache a.id) should_stop q.db b server in
    let becomes =
      apply_bundle-Becomes digest backend (trash_of q.db.cache a.id) should_stop q.db b server a h
        known in
    rw (execute_apply, ap bundle_is_accepted h, known)
      (settle_task-Settled t.id t traceback q t a (length (in_order q.db.cache b)) result.0 result.1
        refl row becomes)
