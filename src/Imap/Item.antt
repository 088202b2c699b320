-- ===== src/Imap/Item.antt =====
-- `_apply_one` of src/mailmind/imap/apply.py: the second check of an item, and the operation on it.
pub mod Second
use ronny_email_worker.Prelude.{
  ℕ, ◌+◌, Bool, true, false, not, ◌&&◌, ◌||◌, Option, none, some, List, [], ◌∷◌, ◌++◌, map, ◌==◌,
  opt_eq, if◌then◌else◌, keep, any, count_of, is_none, is_some, is_empty, length, ltb,
}
use ronny_email_worker.Text.{Text, text_eq, text_mem, text_lt, codes, words, unwords, sorted, count}
use ronny_email_worker.Models.{
  Detail, Container, Placement, Suggestion, Bundle, ApplyAttempt, Value, Operation,
  SuggestionStatus, BundleStatus, Precondition, ApplyOutcome, health_is_ok, is_container_operation,
  item_is_accepted, item_is_applied, item_is_dead, bundle_is_accepted,
}
use ronny_email_worker.Scope.{Cache, Db, get_account, get_container, audit}
use ronny_email_worker.Staleness.{Freshness, fresh, moved, check, flags_hash_of}
use ronny_email_worker.Suggest.Target.{set_container}
use ronny_email_worker.Imap.Backend.{
  Reason, not_accepted, account_not_healthy, not_created, nothing_left, Failure, mailbox_unhealthy,
  not_applicable, Answer, returned, raised, ContainerInfo, MessageInfo, StoreResult, MailBackend,
}
use ronny_email_worker.Imap.Perform.{Order, perform}
use ronny_email_worker.Imap.Record.{
  precondition, Run, Ending, finished, stopped, failed, put_item, updated, is_premise_of,
  update_placement, discarded, update_cache, record_attempt, refuse_stale,
}

-- `_apply_one` after the server has answered.
unfoldable pub settle : {S : Type 0} → Run S → Suggestion → S × Answer StoreResult → Run S × Ending
settle r s (server, raised e) = (record r { server = server }, failed e)
settle r s (server, returned result) =
    let r' = record r { server = server } in
    let shown : Option Detail = elim result.detail [
      | none ↦ some Detail.declined
      | some d ↦ some d
    ] in
    if not result.changed
    then (refuse_stale r' s result.guarantee shown result.detail, finished)
    else (
      record_attempt (record r' { db = update_cache r.db r.bundle s })
          (record s { status = SuggestionStatus.applied }) result.guarantee ApplyOutcome.applied
          result.detail result.resulting_uid,
      finished,
    )

abbrev pub name_of : Option Container → Option Text
name_of none = none
name_of (some k) = some k.name

-- `bundle.target_container`
abbrev pub target_of : Cache → Bundle → Option Container
target_of c b = elim b.target_container_id [ none ↦ none | some id ↦ get_container c id ]

module _ {S : Type 0} (digest : Text → Text) (backend : MailBackend S)
    (trash : Option Container) where
  abbrev pub order : Run S → Suggestion → Container → Order
  order r s source = record {
    source_name = source.name;
    source_exists_on_server = source.exists_on_server;
    source_delimiter = source.delimiter;
    premise_uid = s.premise_uid;
    premise_modseq = s.premise_modseq;
    flag = r.bundle.flag;
    target_name = name_of (target_of r.db.cache r.bundle);
    trash_name = name_of trash;
  }

  unfoldable pub perform_item : Run S → Suggestion → Container → Run S × Ending
  perform_item r s source =
      settle r s (perform backend r.bundle.operation (order r s source) r.server)

  -- After the look at the server that an item without a modseq gets.
  unfoldable pub apply_observed :
      Run S → Suggestion → Container → S × Answer (List MessageInfo) → Run S × Ending
  apply_observed r s source (server, raised e) = (record r { server = server }, failed e)
  apply_observed r s source (server, returned []) = (
    refuse_stale (record r { server = server }) s Precondition.best_effort
        (some (Detail.has_left source.name)) (some (Detail.has_left source.name)),
    finished,
  )
  apply_observed r s source (server, returned (info ∷ infos)) =
      let changed = some (Detail.flags_changed_on_server (sorted info.flags)) in
      if not (text_eq (flags_hash_of digest info.flags) s.premise_flags_hash)
      then (
        refuse_stale (record r { server = server }) s Precondition.best_effort changed changed,
        finished,
      )
      else perform_item (record r { server = server }) s source

  unfoldable pub apply_from : Run S → Suggestion → Container → Run S × Ending
  apply_from r s source =
      if is_some s.message_id && is_none s.premise_modseq
      then apply_observed r s source
          (backend.fetch_envelopes source.name (s.premise_uid ∷ []) r.server)
      else perform_item r s source

  -- `_apply_one` after the second check. A fresh item has its folder, so `none` does not arise.
  unfoldable pub apply_checked : Run S → Suggestion → Freshness → Run S × Ending
  apply_checked r s (moved d) =
      (refuse_stale r s (precondition r.bundle.operation) (some d) (some d), finished)
  apply_checked r s fresh = elim (get_container r.db.cache s.source_container_id) [
    | none ↦ (r, finished)
    | some source ↦ apply_from r s source
  ]

  -- `_apply_one`
  unfoldable pub apply_one : Run S → Suggestion → Run S × Ending
  apply_one r s = apply_checked r s (check digest r.db.cache s)
