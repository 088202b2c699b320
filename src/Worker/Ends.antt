-- ===== src/Worker/Ends.antt =====
-- What becomes of a synchronisation task in src/mailmind/worker.py.
use Prim.Native.String.{String}
use ronny_email_worker.Prelude.{
  ℕ, ◌≡◌, refl, ◌⊎◌, inl, inr, false, Option, none, some, List, [], ◌∷◌,
}
use ronny_email_worker.Models.{Account, Container, Task, TaskStatus, Value}
use ronny_email_worker.Text.{Text}
use ronny_email_worker.Scope.{get_account, get_container}
use ronny_email_worker.Content.{Reader}
use ronny_email_worker.Caching.{Store}
use ronny_email_worker.Imap.Backend.{
  Answer, returned, raised, Failure, mailbox_unhealthy, identity_lost, not_applicable, MailBackend,
}
use ronny_email_worker.Imap.Sync.Session.{Session}
use ronny_email_worker.Imap.Sync.Running.{sync_container}
use ronny_email_worker.Tasks.{Queue, ended, finish}
use ronny_email_worker.Worker.{note_unhealthy}
use ronny_email_worker.Worker.Settling.{task_of, written}
use ronny_email_worker.Worker.Syncing.{settle_sync, opened, rollup, note, execute_sync_container}

-- A task that is done or has failed.
abbrev pub Ends : ℕ → Queue → Type 0
Ends id q =
    (u : Task) × (task_of id q.tasks ≡ some u)
    × ((u.status ≡ TaskStatus.done) ⊎ (u.status ≡ TaskStatus.failed))

module _ (t u : Task) where
  finish-Ends :
      (q : Queue) (status : TaskStatus) (error : Option Value)
      (result : Option (List (String × Value)))
      → task_of t.id q.tasks ≡ some u
      → (status ≡ TaskStatus.done) ⊎ (status ≡ TaskStatus.failed)
      → Ends t.id (finish q t status error result)
  unfolding finish
  finish-Ends q status error result h over = (
    ended q t status error result,
    written t.id (ended q t status error result) u q.tasks refl h,
    over,
  )

  settle-Ends :
      {A S : Type 0} (traceback : Failure → Text) (result : A → Option (List (String × Value)))
      (q : Queue) (a : Account) (run : Session S × Answer A)
      → task_of t.id q.tasks ≡ some u
      → Ends t.id (settle_sync traceback result q t a run)
  unfolding settle_sync note_unhealthy
  settle-Ends traceback result q a (s, returned value) h =
      finish-Ends (record q { db = s.store.db }) TaskStatus.done none (result value) h (inl refl)
  settle-Ends traceback result q a (s, raised (mailbox_unhealthy what)) h =
      finish-Ends (note_unhealthy (record q { db = s.store.db }) a what) TaskStatus.failed
        (some (Value.text what)) none h (inr refl)
  settle-Ends traceback result q a (s, raised (identity_lost what)) h =
      finish-Ends (record q { db = s.saved.db }) TaskStatus.failed
        (some (Value.text (traceback (identity_lost what)))) none h (inr refl)
  settle-Ends traceback result q a (s, raised (not_applicable why)) h =
      finish-Ends (record q { db = s.saved.db }) TaskStatus.failed
        (some (Value.text (traceback (not_applicable why)))) none h (inr refl)

  -- A synchronisation task does not stay running: whatever the server answers to any call of the sync,
  -- a task that is in the queue is done or has failed after its execution, where the folder that it is
  -- about is gone or its account is there.
  pub execute_sync_container-Ends :
      {S : Type 0} (r : Reader) (backend : MailBackend S) (traceback : Failure → Text) (q : Queue)
      (store : Store) (server : S) (k : Container) (a : Account)
      → task_of t.id q.tasks ≡ some u
      → (get_container q.db.cache t.subject_id ≡ none)
        ⊎ ((get_container q.db.cache t.subject_id ≡ some k)
            × (get_account q.db.cache k.account_id ≡ some a))
      → Ends t.id (execute_sync_container r backend traceback q t store server).0
  unfolding execute_sync_container
  execute_sync_container-Ends r backend traceback q store server k a h (inl gone) =
      rw (execute_sync_container, gone)
        (finish-Ends q TaskStatus.done none (note "the folder is gone") h (inl refl))
  execute_sync_container-Ends r backend traceback q store server k a h (inr (found, owned)) =
      rw (execute_sync_container, found, owned)
        (settle-Ends traceback (λ report. some (rollup (report ∷ []))) q a
          (sync_container r backend (opened r backend traceback q store server) a k false) h)
