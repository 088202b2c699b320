-- ===== src/Witnesses/Syncs.antt =====
-- The theorems on the synchronisation of the cache, at one folder of two messages.
use ronny_email_worker.Prelude.{
  ℕ, ◌+◌, ◌≡◌, ◌≢◌, ◌⊎◌, refl, true, false, not, ◌&&◌, inr, if◌then◌else◌, none, some, List, [],
  ◌∷◌, map, take, length, arith, All, any, keep, mem, leb, is_none, ◌==◌,
}
use ronny_email_worker.Text.{codes, sorted, words, unwords, text_mem}
use ronny_email_worker.Models.{
  Container, Placement, Suggestion, SuggestionStatus, Task, TaskKind, TaskStatus, AccountHealth,
}
use ronny_email_worker.Scope.{get_account, get_container, audit}
use ronny_email_worker.Staleness.{
  fresh, check, check_in, check_message, check_placement, check_premise, flags_hash, flags_hash_of,
  placement_at,
}
use ronny_email_worker.Caching.{
  upsert_message, insert_message, index_message, record_mechanical_assessment,
}
use ronny_email_worker.Imap.Backend.{returned}
use ronny_email_worker.Imap.Sync.Session.{Session, and_then}
use ronny_email_worker.Imap.Sync.Container.{
  SyncReport, absorb_one, absorb_all, absorb_message, place, break_identity, batches, batches_from,
}
use ronny_email_worker.Imap.Sync.Running.{
  sync_container, sync_selected, sync_settled, use_condstore, read, read_all, read_batches,
  present_uids, finish_sync, mark_vanished,
}
use ronny_email_worker.Imap.Sync.Accounts.{
  sync_account, sync_folders, discover_containers, discover_all, discover_one, discover_known,
}
use ronny_email_worker.Imap.Sync.Vanishing.{Listed, sync_container-kept}
use ronny_email_worker.Imap.Sync.Premises.{sync_container-check}
use ronny_email_worker.Imap.Sync.Identity.{
  suggestions_of, is_live_under, rests_on, Killed, break_identity-ends,
}
use ronny_email_worker.Imap.Sync.Absorbing.{absorb_roundtrip}
use ronny_email_worker.Imap.Sync.Whole.{sync_account-covers}
use ronny_email_worker.Imap.Probe.{
  AccountCapability, declares, probe, declared_names, probed_account,
}
use ronny_email_worker.Text.{sorted_minus}
use ronny_email_worker.Imap.Probe.Declared.{probe_lem}
use ronny_email_worker.Worker.Syncing.{execute_sync_container}
use ronny_email_worker.Worker.Ends.{Ends, execute_sync_container-Ends}
use ronny_email_worker.Witnesses.Data.{same_text, home, db, item}
use ronny_email_worker.Witnesses.Reading.{reader, store, session, eighth, mailbox, lists}

abbrev report : SyncReport
report = record {
  container = codes "Lists";
  added = 1;
  updated = 0;
  vanished = 1;
  identity_broken = false;
  suggestions_killed = 0;
  full = true;
}

sync_container-kept_example :
    (uids : List ℕ) × Listed reader mailbox (codes "Lists") uids
    × All
        (λ p.
          (p.container_id == 1
            && p.container_generation == 3
            && is_none p.gone_at
            && not (mem p.uid uids))
          ≡ false)
        (sync_container reader mailbox session home lists false).0.store.db.cache.placements
    × All
        (λ x. (x.id == 1 && not (x.generation == 3)) ≡ false)
        (sync_container reader mailbox session home lists false).0.store.db.cache.containers
unfolding sync_container sync_selected sync_settled use_condstore read read_all read_batches
    present_uids finish_sync mark_vanished and_then absorb_all absorb_one absorb_message place
    upsert_message insert_message index_message record_mechanical_assessment batches batches_from
    placement_at
sync_container-kept_example =
    sync_container-kept reader mailbox session
      (sync_container reader mailbox session home lists false).0 home lists false report refl

-- An item on the message that the server holds.
abbrev newly_read : Suggestion
newly_read = record (item SuggestionStatus.proposed) {
  message_id = some 20;
  premise_uid = some 8;
  premise_modseq = none;
  premise_flags_hash = codes "seen";
}

sync_container-check_example :
    (uids : List ℕ) × Listed reader mailbox (codes "Lists") uids × (mem 8 uids ≡ true)
unfolding sync_container sync_selected sync_settled use_condstore read read_all read_batches
    present_uids finish_sync mark_vanished and_then absorb_all absorb_one absorb_message place
    upsert_message insert_message index_message record_mechanical_assessment batches batches_from
    placement_at check check_in check_message check_placement check_premise flags_hash flags_hash_of
    get_container words unwords sorted audit
sync_container-check_example =
    sync_container-check reader mailbox same_text session
      (sync_container reader mailbox session home lists false).0 home lists false report newly_read
      20 8 refl refl refl refl refl refl

break_identity-ends_example :
    All (λ p. is_live_under lists p ≡ false) (break_identity store lists 9).0.db.cache.placements
    × All (λ s. rests_on lists s ≡ false) (suggestions_of (break_identity store lists 9).0.bundles)
    × Killed lists
        (item SuggestionStatus.proposed ∷ [])
        (suggestions_of (break_identity store lists 9).0.bundles)
    × (check same_text (break_identity store lists 9).0.db.cache (item SuggestionStatus.accepted)
        ≢ fresh)
    × ((break_identity store lists 9).2 ≡ 1)
break_identity-ends_example =
    break_identity-ends same_text store lists 9 (item SuggestionStatus.accepted) refl refl

absorb_roundtrip_example :
    let after = (absorb_one reader store home lists eighth).0 in
    ((p : Placement) × (placement_at after.db.cache 1 3 (some 8) ≡ some p)
      × (p.gone_at ≡ none)
      × (p.flags ≡ unwords (sorted (codes "seen" ∷ [])))
      × (p.modseq ≡ none)
      × (p.internaldate ≡ some 60))
    × (placement_at after.db.cache 1 3 (some 7) ≡ placement_at db.cache 1 3 (some 7))
    × ((absorb_one reader after home lists eighth).1 ≡ false)
    × (length (absorb_one reader after home lists eighth).0.db.cache.placements
        ≡ length after.db.cache.placements)
absorb_roundtrip_example = absorb_roundtrip reader store home lists eighth 7 (λ h. omega (arith, h))

sync_account-covers_example :
    (u : Session ℕ) × (ks : List Container) × (discover_containers reader mailbox session home
      ≡ (u, returned ks))
    × (map (λ (x : SyncReport). x.container) (report ∷ [])
        ≡ take 1 (map (λ (k : Container). k.name) (keep (λ (k : Container). k.selectable) ks)))
    × ((1 ≡ length (keep (λ (k : Container). k.selectable) ks)) ⊎ (leb 5 (0 + 1) ≡ true))
unfolding sync_account sync_folders discover_containers discover_all discover_one discover_known
    sync_container sync_selected sync_settled use_condstore read read_all read_batches present_uids
    finish_sync mark_vanished and_then absorb_all absorb_one absorb_message place upsert_message
    insert_message index_message record_mechanical_assessment batches batches_from placement_at
sync_account-covers_example =
    sync_account-covers reader mailbox session
      (sync_account reader mailbox session home false (leb 5)).0 home false (leb 5) (report ∷ [])
      refl

-- A task to synchronise the folder 1, which runs.
abbrev syncing : Task
syncing = record {
  id = 6;
  kind = TaskKind.sync_container;
  status = TaskStatus.running;
  account_id = 1;
  subject_id = 1;
  payload = [];
  progress_done = 0;
  progress_total = none;
  progress_note = none;
  result = [];
  error = none;
  attempts = 1;
  requested_by = none;
  created_at = 90;
  started_at = some 95;
  finished_at = none;
}

execute_sync_container-Ends_example :
    Ends 6
      (execute_sync_container reader mailbox
        (λ e. [])
        (record { db = db; tasks = syncing ∷ []; next_task = 7 })
        syncing
        store
        0).0
unfolding get_container get_account
execute_sync_container-Ends_example =
    execute_sync_container-Ends syncing syncing reader mailbox (λ e. [])
      (record { db = db; tasks = syncing ∷ []; next_task = 7 }) store 0 lists home refl
      (inr (refl, refl))

-- The server offers IDLE and lacks CONDSTORE, which the account declares.
abbrev declared : List AccountCapability
declared =
    record {
      account_id = 1;
      name = codes "CONDSTORE";
      declared = true;
      probed_present = none;
      probed_at = none;
    }
    ∷ []

probe_lem_example :
    (declares (probe db declared home (codes "IDLE" ∷ [])).1 1 (codes "CONDSTORE")
      ≡ declares declared 1 (codes "CONDSTORE"))
    × (AccountHealth.read_only ≡ (
        if any (λ name. not (text_mem name (codes "IDLE" ∷ []))) (declared_names home declared)
        then AccountHealth.read_only
        else AccountHealth.ok))
unfolding probe audit get_account sorted_minus sorted
probe_lem_example =
    probe_lem db declared home
      (probed_account 100 (sorted_minus (codes "CONDSTORE" ∷ []) (codes "IDLE" ∷ [])) home)
      (codes "IDLE" ∷ []) 1 (codes "CONDSTORE") refl
