-- ===== src/Witnesses/Queues.antt =====
-- The theorems on the task queue, at examples.
use ronny_email_worker.Prelude.{◌≤◌, ◌≡◌, refl, false, none, [], ◌∷◌, count_of, arith}
use ronny_email_worker.Models.{Task, TaskKind, TaskStatus}
use ronny_email_worker.Tasks.{
  Queue, new_task, is_stranded, enqueue, claim_next, rescue_accepted_bundles,
}
use ronny_email_worker.Tasks.Coalescing.{IsCoalesced, asks, enqueue-IsCoalesced}
use ronny_email_worker.Tasks.Claiming.{Claims, lanes, claim_next_lem, claim_next-lanes}
use ronny_email_worker.Tasks.Recovery.{AllServed, rescue_lem}
use ronny_email_worker.Scope.{get_account}
use ronny_email_worker.Worker.{execute_apply}
use ronny_email_worker.Worker.Settling.{Settled, execute_apply-Settled}
use ronny_email_worker.Witnesses.Data.{same_text, home, db, accepted, waiting, counting}

abbrev no_tasks : Queue
no_tasks = record { db = db; tasks = []; next_task = 1 }

-- A synchronisation that is queued for the account 1, and one that runs for the account 2.
abbrev two_tasks : Queue
two_tasks = record {
  db = db;
  tasks =
      new_task no_tasks TaskKind.sync_account 1 1 [] none
      ∷ record (new_task no_tasks TaskKind.sync_account 2 2 [] none) {
        id = 2;
        status = TaskStatus.running;
      }
      ∷ [];
  next_task = 3;
}

two_tasks-IsCoalesced : IsCoalesced two_tasks
two_tasks-IsCoalesced kind account_id subject_id = ground arith

-- The task that applies the bundle, once it runs.
abbrev applying : Task
applying = record (new_task no_tasks TaskKind.apply_bundle 1 2 [] none) {
  status = TaskStatus.running;
}

execute_apply-Settled_example :
    let (q', b', _) =
      execute_apply same_text counting
        (λ e. [])
        (λ n. false)
        (record no_tasks { tasks = applying ∷ [] })
        applying
        accepted
        0 in
    Settled 1 q' b'
unfolding get_account
execute_apply-Settled_example =
    execute_apply-Settled same_text counting (λ e. []) (λ n. false)
      (record no_tasks { tasks = applying ∷ [] }) applying accepted 0 home refl refl refl

enqueue-IsCoalesced_example :
    let (q', _, _) = enqueue two_tasks TaskKind.apply_bundle 1 2 [] none in
    IsCoalesced q' × (asks q' TaskKind.apply_bundle 1 2 ≡ 1)
enqueue-IsCoalesced_example =
    enqueue-IsCoalesced two_tasks TaskKind.apply_bundle 1 2 [] none two_tasks-IsCoalesced

claim_next_lem_example :
    let (q', claimed) = claim_next two_tasks (2 ∷ []) in Claims two_tasks (2 ∷ []) q' claimed
claim_next_lem_example = claim_next_lem two_tasks (2 ∷ [])

claim_next-lanes_example : lanes 1 (claim_next two_tasks (2 ∷ [])).0.tasks ≤ 1
claim_next-lanes_example =
    claim_next-lanes two_tasks (2 ∷ []) (λ id. ground arith) (λ a h. ground arith)
      (λ a. ground arith) 1

rescue_lem_example :
    let (q', n) = rescue_accepted_bundles two_tasks (accepted ∷ waiting ∷ []) in
    AllServed q'.tasks (accepted ∷ waiting ∷ [])
    × (n ≡ count_of (is_stranded two_tasks.tasks) (accepted ∷ waiting ∷ []))
    × ((rescue_accepted_bundles q' (accepted ∷ waiting ∷ [])).1 ≡ 0)
rescue_lem_example = rescue_lem two_tasks (accepted ∷ waiting ∷ [])
