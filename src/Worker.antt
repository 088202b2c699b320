-- ===== src/Worker.antt =====
-- `_execute_apply` of src/mailmind/worker.py: an apply task against the bundle that it is about.
-- `traceback` is what the traceback module makes of an exception that nothing else has caught.
pub mod Settling
pub mod Syncing
pub mod Ends
use ronny_email_worker.Prelude.{
  ℕ, zero, suc, Bool, false, not, ◌&&◌, Option, none, some, List, [], ◌∷◌, map, ◌==◌, if◌then◌else◌,
  first, length,
}
use ronny_email_worker.Text.{Text, text_eq, codes}
use ronny_email_worker.Models.{
  Account, AccountHealth, Container, Bundle, Task, TaskStatus, Value, bundle_is_accepted,
  bundle_is_stale,
}
use ronny_email_worker.Scope.{Cache, Db, get_account}
use ronny_email_worker.Imap.Backend.{
  Failure, mailbox_unhealthy, identity_lost, not_applicable, MailBackend,
}
use ronny_email_worker.Imap.Record.{Run, Ending, finished, stopped, failed}
use ronny_email_worker.Imap.Apply.{in_order, applied_of, apply_bundle}
use ronny_email_worker.Tasks.{Queue, put_task, finish, progressed}

abbrev pub is_trash_of : ℕ → Container → Bool
is_trash_of account_id k =
    k.account_id == account_id
    && elim k.special_use [ none ↦ false | some special ↦ text_eq special (codes "trash") ]

-- The container that `special_use == TRASH` finds.
abbrev pub trash_of : Cache → (account_id : ℕ) → Option Container
trash_of c account_id = first (is_trash_of account_id) c.containers

-- `_requeue`
abbrev pub interrupted : Task → Task
interrupted t = record t {
  status = TaskStatus.queued;
  error = some (Value.word "interrupted by shutdown");
}

unfoldable pub requeue : Queue → Task → Queue
requeue q t = record q { tasks = put_task (interrupted t) q.tasks }

-- An assignment to an account: the row of that id is replaced.
abbrev pub put_account : Account → List Account → List Account
put_account a = map (λ b. if b.id == a.id then a else b)

-- `_note_unhealthy`
unfoldable pub note_unhealthy : Queue → Account → Text → Queue
note_unhealthy q a what = record q {
  db = record q.db {
    cache = record q.db.cache {
      accounts =
          put_account
            (record a {
              health = AccountHealth.down;
              health_detail = some what;
              health_checked_at = some q.db.now;
            })
            q.db.cache.accounts;
    };
  };
}

-- `on_item`, after so many items.
abbrev pub after_items : (total : ℕ) → ℕ → Task → Task
after_items total zero t = t
after_items total (suc n) t = progressed t (suc n) (some total) t.progress_note

-- What of that has been committed when an exception drops the open transaction: `on_item` follows
-- the checkpoint of its item.
abbrev pub committed_items : (total : ℕ) → ℕ → Task → Task
committed_items total zero t = t
committed_items total (suc n) t = after_items total n t

-- After a run that raised nothing.
unfoldable pub settle_run : Queue → Task → Bundle → Queue
settle_run q t b =
    if bundle_is_accepted b.status
    then requeue q t
    else finish q t TaskStatus.done none (
        some
          (("applied", Value.num (applied_of b)) ∷ ("status", Value.bundle_status b.status) ∷ []))

-- After `apply_bundle`, over so many items.
unfoldable pub settle_task :
    {S : Type 0}
    → (traceback : Failure → Text) → Queue
    → Task
    → Account
    → (total : ℕ) → Run S
    → Ending
    → Queue
settle_task traceback q t a total r (failed (not_applicable why)) =
    let t' = after_items total (length r.attempts) t in
    if bundle_is_stale r.bundle.status
    then finish (record q { db = r.db }) t' TaskStatus.done none
        (some (("note", Value.reason why) ∷ []))
    else finish (record q { db = r.db }) t' TaskStatus.failed (some (Value.reason why)) none
settle_task traceback q t a total r (failed (mailbox_unhealthy what)) =
    let t' = after_items total (length r.attempts) t in
    finish (note_unhealthy (record q { db = r.db }) a what) t' TaskStatus.failed
      (some (Value.text what)) none
settle_task traceback q t a total r (failed (identity_lost what)) =
    let t' = committed_items total (length r.attempts) t in
    finish (record q { db = r.db }) t' TaskStatus.failed
      (some (Value.text (traceback (identity_lost what)))) none
settle_task traceback q t a total r _ =
    settle_run (record q { db = r.db }) (after_items total (length r.attempts) t) r.bundle

module _ {S : Type 0} (digest : Text → Text) (backend : MailBackend S)
    (traceback : Failure → Text) where
  abbrev pub settled : Queue → Task → Account → (total : ℕ) → Run S × Ending → Queue × Bundle × S
  settled q t a total (r, e) = (settle_task traceback q t a total r e, r.bundle, r.server)

  -- `_execute_apply` of a task whose bundle is `b`, and what `execute` does if it raises. The bundle
  -- has its account, which a foreign key keeps there.
  unfoldable pub execute_apply :
      (should_stop : ℕ → Bool) → Queue → Task → Bundle → S → Queue × Bundle × S
  execute_apply should_stop q t b server =
      if not (bundle_is_accepted b.status)
      then (
        finish q t TaskStatus.done none
            (some (("note", Value.word "nothing to apply — the bundle is not accepted") ∷ [])),
        b,
        server,
      )
      else elim (get_account q.db.cache b.account_id) [
        | none ↦ (q, b, server)
        | some a ↦
            settled q t a (length (in_order q.db.cache b))
              (apply_bundle digest backend (trash_of q.db.cache a.id) should_stop q.db b server)
      ]
