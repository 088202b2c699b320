-- ===== src/Tasks.antt =====
-- src/mailmind/tasks.py: the task queue's rows. `Queue` is the task table beside the rest of the
-- database; its rows stand in the order in which they were added.
pub mod Coalescing
pub mod Claiming
pub mod Recovery
use Prim.Native.String.{String}
use ronny_email_worker.Prelude.{
  ℕ, ◌+◌, Bool, true, false, not, ◌&&◌, ◌||◌, Option, none, some, List, [], ◌∷◌, ◌++◌, map, ◌==◌,
  ltb, if◌then◌else◌, first, keep, any, length, mem,
}
use ronny_email_worker.Text.{Text, codes}
use ronny_email_worker.Models.{
  Task, Value, TaskKind, TaskStatus, Bundle, kind_eq, task_is_live, task_is_queued, task_is_running,
  bundle_is_accepted,
}
use ronny_email_worker.Scope.{Db, audit}

pub record Queue : Type 0 where
  pub db : Db
  pub tasks : List Task
  pub next_task : ℕ

-- The rows that `enqueue` looks for.
abbrev pub is_ask : TaskKind → (account_id subject_id : ℕ) → Task → Bool
is_ask kind account_id subject_id t =
    kind_eq t.kind kind
    && t.account_id == account_id
    && t.subject_id == subject_id
    && task_is_live t.status

abbrev pub new_task :
    Queue
    → TaskKind
    → (account_id subject_id : ℕ) → (payload : List (String × Value)) → (requested_by : Option ℕ)
    → Task
new_task q kind account_id subject_id payload requested_by = record {
  id = q.next_task;
  kind = kind;
  status = TaskStatus.queued;
  account_id = account_id;
  subject_id = subject_id;
  payload = payload;
  progress_done = 0;
  progress_total = none;
  progress_note = none;
  result = [];
  error = none;
  attempts = 0;
  requested_by = requested_by;
  created_at = q.db.now;
  started_at = none;
  finished_at = none;
}

unfoldable pub add_task : Queue → Task → Queue
add_task q t = record q {
  db =
      audit "task_enqueued" "service" "task" none (some t.id)
        (("kind", Value.kind t.kind)
          ∷ ("account_id", Value.num t.account_id)
          ∷ ("subject_id", Value.num t.subject_id)
          ∷ [])
        q.db;
  tasks = q.tasks ++ t ∷ [];
  next_task = q.next_task + 1;
}

unfoldable pub enqueue :
    Queue
    → TaskKind
    → (account_id subject_id : ℕ) → (payload : List (String × Value)) → (requested_by : Option ℕ)
    → Queue × Task × Bool
enqueue q kind account_id subject_id payload requested_by =
    let t = new_task q kind account_id subject_id payload requested_by in
    elim (first (is_ask kind account_id subject_id) q.tasks) [
      | some live ↦ (q, live, false)
      | none ↦ (add_task q t, t, true)
    ]

-- The row of the least id, which `order_by(Task.id).limit(1)` gives.
abbrev pub older : Task → Option Task → Task
older t none = t
older t (some u) = if ltb u.id t.id then u else t

unfoldable pub oldest : List Task → Option Task
oldest [] = none
oldest (t ∷ ts) = some (older t (oldest ts))

-- An assignment to a task: the row of that id is replaced.
unfoldable pub put_task : Task → List Task → List Task
put_task t [] = []
put_task t (u ∷ us) = if u.id == t.id then t ∷ put_task t us else u ∷ put_task t us

abbrev pub started : Queue → Task → Task
started q t = record t {
  status = TaskStatus.running;
  started_at = some q.db.now;
  attempts = t.attempts + 1;
}

unfoldable pub start_task : Queue → Task → Queue
start_task q t = record q {
  db =
      audit "task_started" "service" "task" none (some t.id)
        (("kind", Value.kind t.kind) ∷ ("attempt", Value.num t.attempts) ∷ []) q.db;
  tasks = put_task t q.tasks;
}

-- The rows that `claim_next` selects.
abbrev pub is_claimable : (busy_accounts : List ℕ) → Task → Bool
is_claimable busy_accounts t = task_is_queued t.status && not (mem t.account_id busy_accounts)

unfoldable pub claim_next : Queue → (busy_accounts : List ℕ) → Queue × Option Task
claim_next q busy_accounts = elim (oldest (keep (is_claimable busy_accounts) q.tasks)) [
  | none ↦ (q, none)
  | some t ↦ (start_task q (started q t), some (started q t))
]

abbrev pub ended :
    Queue
    → Task
    → TaskStatus
    → (error : Option Value) → (result : Option (List (String × Value))) → Task
ended q t status error result = record t {
  status = status;
  error = error;
  result = elim result [ none ↦ t.result | some values ↦ values ];
  finished_at = some q.db.now;
}

unfoldable pub finish :
    Queue
    → Task
    → TaskStatus
    → (error : Option Value) → (result : Option (List (String × Value))) → Queue
finish q t status error result = record q {
  db =
      audit "task_finished" "service" "task" none (some t.id)
        (("kind", Value.kind t.kind)
          ∷ ("status", Value.task_status status)
          ∷ ("error", elim error [ none ↦ Value.null | some e ↦ e ])
          ∷ [])
        q.db;
  tasks = put_task (ended q t status error result) q.tasks;
}

-- The loop of `requeue_interrupted`, over the rows that the query selects among all of them.
unfoldable pub requeue_tasks : Db → List Task → Db × List Task × ℕ
requeue_tasks db [] = (db, [], 0)
requeue_tasks db (t ∷ ts) =
    let note = Value.word "interrupted — the service stopped while this ran" in
    let queued = record t { status = TaskStatus.queued; error = some note } in
    let heard =
      audit "task_requeued" "service" "task" none (some t.id) (("kind", Value.kind t.kind) ∷ [])
        db in
    let (db_running, running, n) = requeue_tasks heard ts in
    let (db_other, other, k) = requeue_tasks db ts in
    if task_is_running t.status
    then (db_running, queued ∷ running, n + 1)
    else (db_other, t ∷ other, k)

unfoldable pub requeue_interrupted : Queue → Queue × ℕ
requeue_interrupted q =
    let (db, tasks, n) = requeue_tasks q.db q.tasks in (record q { db = db; tasks = tasks }, n)

-- `live_applies`, as a test on the subject.
abbrev pub is_applied_by : ℕ → Task → Bool
is_applied_by bundle_id t =
    kind_eq t.kind TaskKind.apply_bundle && task_is_live t.status && t.subject_id == bundle_id

unfoldable pub is_stranded : List Task → Bundle → Bool
is_stranded ts b = bundle_is_accepted b.status && not (any (is_applied_by b.id) ts)

unfoldable pub enqueue_each : Queue → List Bundle → Queue
enqueue_each q [] = q
enqueue_each q (b ∷ bs) =
    enqueue_each (enqueue q TaskKind.apply_bundle b.account_id b.id [] none).0 bs

unfoldable pub rescue_accepted_bundles : Queue → List Bundle → Queue × ℕ
rescue_accepted_bundles q bs =
    let stranded = keep (is_stranded q.tasks) bs in (enqueue_each q stranded, length stranded)

abbrev pub progressed : Task → (done : ℕ) → (total : Option ℕ) → (note : Option Text) → Task
progressed t done total note = record t {
  progress_done = done;
  progress_total = total;
  progress_note = note;
}

unfoldable pub record_progress :
    Queue → (task_id done : ℕ) → (total : Option ℕ) → (note : Option Text) → Queue
record_progress q task_id done total note = elim (first (λ t. t.id == task_id) q.tasks) [
  | none ↦ q
  | some t ↦
      if not (task_is_running t.status)
      then q
      else record q { tasks = put_task (progressed t done total note) q.tasks }
]
