-- ===== src/Imap/Apply.antt =====
-- `apply_bundle` of src/mailmind/imap/apply.py: the run over the items that are accepted, and what
-- the bundle becomes.
pub mod Rollup
pub mod Resume
pub mod Refused
pub mod Deepest
use ronny_email_worker.Prelude.{
  ℕ, ◌+◌, Bool, true, false, not, ◌&&◌, ◌||◌, Option, none, some, List, [], ◌∷◌, ◌++◌, map, ◌==◌,
  opt_eq, if◌then◌else◌, keep, any, count_of, is_none, is_some, is_empty, length, ltb,
}
use ronny_email_worker.Text.{Text, text_eq, text_mem, text_lt, codes, words, unwords, sorted, count}
use ronny_email_worker.Models.{
  Detail, Container, Placement, Suggestion, Bundle, ApplyAttempt, Value, Operation,
  SuggestionStatus, BundleStatus, Precondition, ApplyOutcome, health_is_ok, is_container_operation,
  item_is_accepted, item_is_applied, item_is_dead, bundle_is_accepted,
}
use ronny_email_worker.Scope.{Cache, Db, get_account, get_container, audit}
use ronny_email_worker.Staleness.{Freshness, fresh, moved, check, flags_hash_of}
use ronny_email_worker.Suggest.Target.{set_container}
use ronny_email_worker.Imap.Backend.{
  Reason, not_accepted, account_not_healthy, not_created, nothing_left, Failure, mailbox_unhealthy,
  not_applicable, Answer, returned, raised, ContainerInfo, MessageInfo, StoreResult, MailBackend,
}
use ronny_email_worker.Imap.Perform.{Order, perform}
use ronny_email_worker.Imap.Record.{
  precondition, Run, Ending, finished, stopped, failed, put_item, updated, is_premise_of,
  update_placement, discarded, update_cache, record_attempt, refuse_stale,
}
use ronny_email_worker.Imap.Item.{target_of, apply_one}

module _ {S : Type 0} (digest : Text → Text) (backend : MailBackend S)
    (trash : Option Container) where
  -- The loop of `apply_bundle`. `should_stop` is asked before each item, by how many are done.
  unfoldable pub apply_each : (should_stop : ℕ → Bool) → Run S → List Suggestion → Run S × Ending
  apply_each should_stop r [] = (r, finished)
  apply_each should_stop r (s ∷ ss) =
      let (r', ending) = apply_one digest backend trash r s in
      let rest = apply_each should_stop r' ss in
      if should_stop (length r.attempts)
      then (r, stopped)
      else elim ending [ finished ↦ rest | e ↦ (r', e) ]

-- `levels, name` of `_in_order`: how deep the item's folder lies, and its name.
abbrev pub levels_of : Option Container → ℕ
levels_of none = 0
levels_of (some k) = elim k.delimiter [
  | none ↦ 0
  | some [] ↦ 0
  | some (d ∷ ds) ↦ count k.name (d ∷ ds)
]

abbrev pub folder_name_of : Option Container → Text
folder_name_of none = []
folder_name_of (some k) = k.name

-- `depth(s) < depth(t)`, on the keys (-levels, name).
abbrev pub goes_before : Cache → Suggestion → Suggestion → Bool
goes_before c s t =
    let k = get_container c s.source_container_id in
    let j = get_container c t.source_container_id in
    ltb (levels_of j) (levels_of k)
    || (levels_of k == levels_of j && text_lt (folder_name_of k) (folder_name_of j))

unfoldable pub insert_item : Cache → Suggestion → List Suggestion → List Suggestion
insert_item c s [] = s ∷ []
insert_item c s (t ∷ ts) =
    let later = t ∷ insert_item c s ts in if goes_before c t s then later else s ∷ t ∷ ts

-- `sorted(accepted, key=depth)`
unfoldable pub sort_items : Cache → List Suggestion → List Suggestion
sort_items c [] = []
sort_items c (s ∷ ss) = insert_item c s (sort_items c ss)

-- `_in_order`
unfoldable pub in_order : Cache → Bundle → List Suggestion
in_order c b =
    let accepted = keep (λ s. item_is_accepted s.status) b.suggestions in
    if not (is_container_operation b.operation) then accepted else sort_items c accepted

-- `_rollup`: how many items are applied, and how many are applied or dead.
abbrev pub applied_of : Bundle → ℕ
applied_of b = count_of (λ s. item_is_applied s.status) b.suggestions

abbrev pub decided_of : Bundle → ℕ
decided_of b = applied_of b + count_of (λ s. item_is_dead s.status) b.suggestions

-- The end of `apply_bundle`, after the loop went through.
unfoldable pub close_bundle : {S : Type 0} → Run S → Run S × Ending
close_bundle r =
    if is_empty r.attempts && applied_of r.bundle == 0
    then (
      record r {
        db =
            audit "bundle_stale" "service" "bundle" none (some r.bundle.id)
              (("reason", Value.word "every accepted item moved on before it was applied") ∷ [])
              r.db;
        bundle = record r.bundle { status = BundleStatus.stale };
      },
      failed (not_applicable nothing_left),
    )
    else (
      record r {
        db =
            audit "bundle_applied" "service" "bundle" none (some r.bundle.id)
              (("applied", Value.num (applied_of r.bundle))
                ∷ ("attempted", Value.num (decided_of r.bundle))
                ∷ [])
              r.db;
        bundle = record r.bundle {
          status =
              if applied_of r.bundle == decided_of r.bundle
              then BundleStatus.applied
              else BundleStatus.partially_applied;
        };
      },
      finished,
    )

abbrev pub close_run : {S : Type 0} → Run S × Ending → Run S × Ending
close_run (r, finished) = close_bundle r
close_run (r, stopped) = (r, stopped)
close_run (r, failed e) = (r, failed e)

-- The row of a folder that the server has made.
abbrev pub created : Container → ContainerInfo → Container
created k info = record k {
  name = info.name;
  delimiter = info.delimiter;
  special_use = info.special_use;
  selectable = info.selectable;
  exists_on_server = true;
  discarded_at = none;
}

-- `_ensure_target_exists` after the server has answered.
unfoldable pub target_created :
    {S : Type 0} → Run S → Container → S × Answer ContainerInfo → Run S × Ending
target_created r k (server, raised (mailbox_unhealthy what)) =
    (record r { server = server }, failed (not_applicable (not_created k.name what)))
target_created r k (server, raised e) = (record r { server = server }, failed e)
target_created r k (server, returned info) = (
  record r {
    server = server;
    db =
        audit "container_created" "service" "container" none (some k.id)
          (("name", Value.text info.name) ∷ ("bundle_id", Value.num r.bundle.id) ∷ [])
          (set_container (created k info) r.db);
  },
  finished,
)

module _ {S : Type 0} (digest : Text → Text) (backend : MailBackend S)
    (trash : Option Container) where
  -- `_ensure_target_exists`
  unfoldable pub ensure_target_exists : Run S → Run S × Ending
  ensure_target_exists r = elim (target_of r.db.cache r.bundle) [
    | none ↦ (r, finished)
    | some k ↦
        if k.exists_on_server
        then (r, finished)
        else target_created r k (backend.create_container k.name r.server)
  ]

  abbrev pub apply_ordered :
      (should_stop : ℕ → Bool) → List Suggestion → Run S × Ending → Run S × Ending
  apply_ordered should_stop ss (r, finished) =
      close_run (apply_each digest backend trash should_stop r ss)
  apply_ordered should_stop ss (r, e) = (r, e)

  unfoldable pub apply_accepted :
      (should_stop : ℕ → Bool) → Run S → List Suggestion → Run S × Ending
  apply_accepted should_stop r [] = close_run (r, finished)
  apply_accepted should_stop r (s ∷ ss) =
      apply_ordered should_stop (s ∷ ss) (ensure_target_exists r)

  -- `apply_bundle`, for the bundle's account as `scope.get` finds it. Its checkpoints commit, which
  -- changes nothing that the scope can see.
  unfoldable pub apply_bundle : (should_stop : ℕ → Bool) → Db → Bundle → S → Run S × Ending
  apply_bundle should_stop db b server =
      let r : Run S = record { db = db; bundle = b; server = server; attempts = [] } in
      let applied = apply_accepted should_stop r (in_order db.cache b) in
      if not (bundle_is_accepted b.status)
      then (r, failed (not_applicable (not_accepted b.status)))
      else elim (get_account db.cache b.account_id) [
        | none ↦ (r, finished)
        | some a ↦
            if not (health_is_ok a.health)
            then (r, failed (not_applicable (account_not_healthy a.health)))
            else applied
      ]
