-- ===== src/Tasks/Recovery.antt =====
-- The two halves of startup recovery in src/mailmind/tasks.py.
use ronny_email_worker.Prelude.{
  ℕ, ◌≡◌, refl, Bool, true, false, ◌||◌, none, some, List, [], ◌∷◌, ◌++◌, first, count_of, any,
  keep, All, arith, if◌then◌else◌, Option-cases, inl, inr, ==_refl, length,
}
use ronny_email_worker.Models.{Task, Value, Bundle, TaskKind, task_is_running, bundle_is_accepted}
use ronny_email_worker.Scope.{Db, audit}
use ronny_email_worker.Tasks.{
  Queue, is_ask, is_applied_by, is_stranded, new_task, add_task, enqueue, enqueue_each,
  requeue_tasks, requeue_interrupted, rescue_accepted_bundles,
}
use ronny_email_worker.Tasks.Coalescing.{
  IsCoalesced, enqueue_found, enqueue_added, first-some, enqueue-IsCoalesced,
}

-- The live asks for one work are as many after the loop, no row runs, and the number is theirs.
requeue_tasks_lem :
    (kind : TaskKind) (account_id subject_id : ℕ) (db : Db) (ts : List Task)
    → let (_, ts', n) = requeue_tasks db ts in
      (count_of (is_ask kind account_id subject_id) ts'
        ≡ count_of (is_ask kind account_id subject_id) ts)
      × (any (λ t. task_is_running t.status) ts' ≡ false)
      × (n ≡ count_of (λ t. task_is_running t.status) ts)
unfolding requeue_tasks
requeue_tasks_lem kind account_id subject_id db [] = (refl, refl, refl)
requeue_tasks_lem kind account_id subject_id db (t ∷ ts) =
    let heard =
      audit "task_requeued" "service" "task" none (some t.id) (("kind", Value.kind t.kind) ∷ [])
        db in
    ground (
      arith,
      requeue_tasks_lem kind account_id subject_id heard ts,
      requeue_tasks_lem kind account_id subject_id db ts,
    )

-- After `requeue_interrupted` no task is running, the number it returns is how many were, and for
-- every work there are as many live asks as before.
requeue_interrupted_lem :
    (q : Queue)
    → let (q', n) = requeue_interrupted q in
      (any (λ t. task_is_running t.status) q'.tasks ≡ false)
      × (n ≡ count_of (λ t. task_is_running t.status) q.tasks)
      × ((kind : TaskKind) (account_id subject_id : ℕ)
          → count_of (is_ask kind account_id subject_id) q'.tasks
            ≡ count_of (is_ask kind account_id subject_id) q.tasks)
unfolding requeue_interrupted
requeue_interrupted_lem q =
    let (_, stopped, number) = requeue_tasks_lem TaskKind.apply_bundle 0 0 q.db q.tasks in
    (stopped, number, λ kind a s. (requeue_tasks_lem kind a s q.db q.tasks).0)

any-append : (p : Task → Bool) (ts us : List Task) → any p (ts ++ us) ≡ (any p ts || any p us)
any-append p [] us = refl
any-append p (t ∷ ts) us = ground (arith, any-append p ts us)

first-any :
    (p r : Task → Bool) (ts : List Task) (t : Task)
    → first p ts ≡ some t
    → r t ≡ true
    → any r ts ≡ true
first-any p r [] t h ht = ground arith
first-any p r (u ∷ us) t h ht = ground (arith, first-any p r us t)

-- A bundle that has a live apply task keeps it, and `enqueue` gives its own bundle one.
enqueue-keeps :
    (q : Queue) (b : Bundle) (id : ℕ)
    → any (is_applied_by id) q.tasks ≡ true
    → any (is_applied_by id) (enqueue q TaskKind.apply_bundle b.account_id b.id [] none).0.tasks
      ≡ true
unfolding add_task
enqueue-keeps q b id h =
    elim (Option-cases (first (is_ask TaskKind.apply_bundle b.account_id b.id) q.tasks)) [
      | inl e ↦
          rw
            (
              enqueue_added q TaskKind.apply_bundle b.account_id b.id [] none e,
              any-append (is_applied_by id) q.tasks
                  (new_task q TaskKind.apply_bundle b.account_id b.id [] none ∷ []),
              h,
            )
            refl
      | inr (t, e) ↦ rw (enqueue_found q TaskKind.apply_bundle b.account_id b.id [] none t e) h
    ]

enqueue-applies :
    (q : Queue) (b : Bundle)
    → any (is_applied_by b.id) (enqueue q TaskKind.apply_bundle b.account_id b.id [] none).0.tasks
      ≡ true
unfolding add_task
enqueue-applies q b =
    elim (Option-cases (first (is_ask TaskKind.apply_bundle b.account_id b.id) q.tasks)) [
      | inl e ↦
          rw
            (
              enqueue_added q TaskKind.apply_bundle b.account_id b.id [] none e,
              any-append (is_applied_by b.id) q.tasks
                  (new_task q TaskKind.apply_bundle b.account_id b.id [] none ∷ []),
              ==_refl b.id,
            )
            (ground arith)
      | inr (t, e) ↦ rw (enqueue_found q TaskKind.apply_bundle b.account_id b.id [] none t e) (
          first-any (is_ask TaskKind.apply_bundle b.account_id b.id) (is_applied_by b.id) q.tasks t
            e
            (ground
              (arith, first-some (is_ask TaskKind.apply_bundle b.account_id b.id) q.tasks t e)))
    ]

enqueue_each-keeps :
    (q : Queue) (bs : List Bundle) (id : ℕ)
    → any (is_applied_by id) q.tasks ≡ true
    → any (is_applied_by id) (enqueue_each q bs).tasks ≡ true
unfolding enqueue_each
enqueue_each-keeps q [] id h = h
enqueue_each-keeps q (b ∷ bs) id h =
    enqueue_each-keeps (enqueue q TaskKind.apply_bundle b.account_id b.id [] none).0 bs id
      (enqueue-keeps q b id h)

-- Every bundle of a list is accepted only if it has a live task that applies it.
abbrev pub AllServed : List Task → List Bundle → Type 0
AllServed ts = All (λ b. bundle_is_accepted b.status ≡ true → any (is_applied_by b.id) ts ≡ true)

length-keep : (p : Bundle → Bool) (bs : List Bundle) → length (keep p bs) ≡ count_of p bs
length-keep p [] = refl
length-keep p (b ∷ bs) = ground (arith, length-keep p bs)

none_stranded :
    (ts : List Task) (bs : List Bundle) → AllServed ts bs → length (keep (is_stranded ts) bs) ≡ 0
unfolding is_stranded
none_stranded ts [] h = refl
none_stranded ts (b ∷ bs) h = ground (arith, none_stranded ts bs h.1, h.0)

enqueue_each-IsCoalesced :
    (q : Queue) (bs : List Bundle) → IsCoalesced q → IsCoalesced (enqueue_each q bs)
unfolding enqueue_each
enqueue_each-IsCoalesced q [] h = h
enqueue_each-IsCoalesced q (b ∷ bs) h =
    enqueue_each-IsCoalesced (enqueue q TaskKind.apply_bundle b.account_id b.id [] none).0 bs
      (enqueue-IsCoalesced q TaskKind.apply_bundle b.account_id b.id [] none h).0

rescue_each :
    (before q : Queue) (bs : List Bundle)
    → ((id : ℕ)
        → any (is_applied_by id) before.tasks ≡ true
        → any (is_applied_by id) q.tasks ≡ true)
    → AllServed (enqueue_each q (keep (is_stranded before.tasks) bs)).tasks bs
unfolding enqueue_each is_stranded
rescue_each before q [] h = tt
rescue_each before q (b ∷ bs) h =
    by_stranded (is_stranded before.tasks b) refl
      (rescue_each before (enqueue q TaskKind.apply_bundle b.account_id b.id [] none).0 bs
        (λ id held. enqueue-keeps q b id (h id held)))
      (rescue_each before q bs h)
  where
    rest : List Bundle
    rest = keep (is_stranded before.tasks) bs

    q' : Queue
    q' = (enqueue q TaskKind.apply_bundle b.account_id b.id [] none).0

    by_stranded :
        (v : Bool)
        → is_stranded before.tasks b ≡ v
        → AllServed (enqueue_each q' rest).tasks bs
        → AllServed (enqueue_each q rest).tasks bs
        → AllServed (enqueue_each q (if v then b ∷ rest else rest)).tasks (b ∷ bs)
    by_stranded true e served _ =
        (λ _. enqueue_each-keeps q' rest b.id (enqueue-applies q b), served)
    by_stranded false e _ served =
        (λ accepted. enqueue_each-keeps q rest b.id (h b.id (ground arith)), served)

-- After `rescue_accepted_bundles`, every bundle that is accepted has a live task that applies it;
-- the number returned is how many had none, and a second rescue finds none.
pub rescue_lem :
    (q : Queue) (bs : List Bundle)
    → let (q', n) = rescue_accepted_bundles q bs in
      AllServed q'.tasks bs
      × (n ≡ count_of (is_stranded q.tasks) bs)
      × ((rescue_accepted_bundles q' bs).1 ≡ 0)
unfolding rescue_accepted_bundles
rescue_lem q bs =
    let served = rescue_each q q bs (λ id held. held) in
    (
      served,
      length-keep (is_stranded q.tasks) bs,
      none_stranded (enqueue_each q (keep (is_stranded q.tasks) bs)).tasks bs served,
    )

-- For a queue in which no two live rows ask for the same work, `rescue_accepted_bundles` keeps that
-- so.
rescue-IsCoalesced :
    (q : Queue) (bs : List Bundle) → IsCoalesced q → IsCoalesced (rescue_accepted_bundles q bs).0
unfolding rescue_accepted_bundles
rescue-IsCoalesced q bs h = enqueue_each-IsCoalesced q (keep (is_stranded q.tasks) bs) h
