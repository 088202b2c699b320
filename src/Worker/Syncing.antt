-- ===== src/Worker/Syncing.antt =====
-- The executors of src/mailmind/worker.py that synchronise one folder and fetch one body, with the
-- last resort of `execute`. `traceback` is as in Worker.
use Prim.Native.String.{String}
use ronny_email_worker.Prelude.{
  ℕ, ◌+◌, Bool, false, ◌&&◌, Option, none, some, List, [], ◌∷◌, map, ◌==◌, first, keep, length,
  is_none,
}
use ronny_email_worker.Text.{Text}
use ronny_email_worker.Models.{Account, Placement, Task, TaskStatus, Value}
use ronny_email_worker.Scope.{Cache, get_account, get_container}
use ronny_email_worker.Content.{Reader}
use ronny_email_worker.Caching.{Store}
use ronny_email_worker.Imap.Backend.{
  Answer, returned, raised, Failure, mailbox_unhealthy, identity_lost, not_applicable, MailBackend,
}
use ronny_email_worker.Imap.Sync.Session.{Session, with_db}
use ronny_email_worker.Imap.Sync.Container.{SyncReport}
use ronny_email_worker.Imap.Sync.Running.{sync_container}
use ronny_email_worker.Imap.Sync.Accounts.{fetch_and_cache_body}
use ronny_email_worker.Tasks.{Queue, finish}
use ronny_email_worker.Worker.{note_unhealthy}

abbrev pub sum_of : (SyncReport → ℕ) → List SyncReport → ℕ
sum_of f [] = 0
sum_of f (r ∷ rs) = f r + sum_of f rs

-- `_rollup`
unfoldable pub rollup : List SyncReport → List (String × Value)
rollup reports =
    ("folders", Value.num (length reports))
    ∷ ("added", Value.num (sum_of (λ r. r.added) reports))
    ∷ ("updated", Value.num (sum_of (λ r. r.updated) reports))
    ∷ ("vanished", Value.num (sum_of (λ r. r.vanished) reports))
    ∷ (
      "identity_broken",
      Value.texts (
          map (λ (r : SyncReport). r.container)
            (keep (λ (r : SyncReport). r.identity_broken) reports)),
    )
    ∷ []

-- A note on a task about something that is gone.
abbrev pub note : String → Option (List (String × Value))
note what = some (("note", Value.word what) ∷ [])

-- How the task ends when the server has answered. What was not committed is kept where the executor
-- catches the exception, and dropped where it reaches the last resort.
unfoldable pub settle_sync :
    {A S : Type 0}
    → (traceback : Failure → Text) → (result : A → Option (List (String × Value))) → Queue
    → Task
    → Account
    → Session S × Answer A
    → Queue
settle_sync traceback result q t a (s, returned value) =
    finish (record q { db = s.store.db }) t TaskStatus.done none (result value)
settle_sync traceback result q t a (s, raised (mailbox_unhealthy what)) =
    finish (note_unhealthy (record q { db = s.store.db }) a what) t TaskStatus.failed
      (some (Value.text what)) none
settle_sync traceback result q t a (s, raised (identity_lost what)) =
    finish (record q { db = s.saved.db }) t TaskStatus.failed
      (some (Value.text (traceback (identity_lost what)))) none
settle_sync traceback result q t a (s, raised (not_applicable why)) =
    finish (record q { db = s.saved.db }) t TaskStatus.failed
      (some (Value.text (traceback (not_applicable why)))) none

-- The other tables, as the same cases leave them.
abbrev pub kept_store : {A S : Type 0} → Session S × Answer A → Store
kept_store (s, returned value) = s.store
kept_store (s, raised (mailbox_unhealthy what)) = s.store
kept_store (s, raised (identity_lost what)) = s.saved
kept_store (s, raised (not_applicable why)) = s.saved

-- `live_placements().where(message_id == …)`, of src/mailmind/views.py.
abbrev pub is_live_of : Cache → (message_id : ℕ) → Placement → Bool
is_live_of c message_id p =
    is_none p.gone_at && p.message_id == message_id && elim (get_container c p.container_id) [
      | none ↦ false
      | some k ↦ p.container_generation == k.generation
    ]

module _ {S : Type 0} (r : Reader) (backend : MailBackend S) (traceback : Failure → Text) where
  -- The session that an executor opens: nothing in it is uncommitted.
  abbrev pub opened : Queue → Store → S → Session S
  opened q store server = record {
    store = with_db store q.db;
    saved = with_db store q.db;
    server = server;
  }

  abbrev pub settled_sync :
      {A : Type 0}
      → (result : A → Option (List (String × Value))) → Queue
      → Task
      → Account
      → Session S × Answer A
      → Queue × Store × S
  settled_sync result q t a run =
      (settle_sync traceback result q t a run, kept_store run, run.0.server)

  -- `_execute_sync_container`. The account of a folder is there: the column is a foreign key.
  unfoldable pub execute_sync_container : Queue → Task → Store → S → Queue × Store × S
  execute_sync_container q t store server = elim (get_container q.db.cache t.subject_id) [
    | none ↦ (finish q t TaskStatus.done none (note "the folder is gone"), store, server)
    | some k ↦ elim (get_account q.db.cache k.account_id) [
      | none ↦ (q, store, server)
      | some a ↦
          settled_sync (λ report. some (rollup (report ∷ []))) q t a
            (sync_container r backend (opened q store server) a k false)
    ]
  ]

  -- `_execute_fetch_body`. The folder of a live placement is there, and so is its account.
  unfoldable pub execute_fetch_body :
      (budget_bytes : ℕ) → Queue → Task → Store → S → Queue × Store × S
  execute_fetch_body budget_bytes q t store server =
      elim (first (is_live_of q.db.cache t.subject_id) q.db.cache.placements) [
        | none ↦ (
          finish q t TaskStatus.done none
              (note "the message has moved on; there is nothing to fetch"),
          store,
          server,
        )
        | some p ↦ elim (get_container q.db.cache p.container_id) [
          | none ↦ (q, store, server)
          | some k ↦ elim (get_account q.db.cache k.account_id) [
            | none ↦ (q, store, server)
            | some a ↦
                settled_sync (λ text. none) q t a
                  (fetch_and_cache_body r backend (opened q store server) a k p budget_bytes)
          ]
        ]
      ]
