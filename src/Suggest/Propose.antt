-- ===== src/Suggest/Propose.antt =====
-- `resolve_query`, `_record_query` and `propose_bundle` of
-- src/mailmind/suggest/model.py. A refused proposal hands back the database as it stood when the
-- exception was raised; its callers roll back, so the row of a bundle that was refused is not kept.
pub mod Limits
use ronny_email_worker.Prelude.{
  ℕ, suc, ◌+◌, max, Bool, true, false, not, ◌&&◌, ◌||◌, Option, none, some, List, [], ◌∷◌, ◌++◌,
  map, ◌==◌, ltb, if◌then◌else◌, first, keep, any, mem, is_none, is_some, is_empty, length,
}
use Prim.Native.Nat.{min, ◌*◌}
use ronny_email_worker.Text.{Text, text_eq}
use ronny_email_worker.Models.{
  Account, Container, Suggestion, Bundle, Value, QueryEntry, Operation, ActionKind, BundleStatus,
  health_is_down, is_container_operation, needs_target, needs_flag, bundle_is_proposed,
}
use ronny_email_worker.Scope.{Cache, Db, get_account, get_container, audit}
use ronny_email_worker.Search.{FtsRow, fts_query, search_messages, count_search_messages}
use ronny_email_worker.Staleness.{refresh_bundle}
use ronny_email_worker.Suggest.Names.{validate_container_name}
use ronny_email_worker.Suggest.Items.{Added, Adding, skipped, add_messages}
use ronny_email_worker.Suggest.Request.{Request, refuse_request, find_target}
use ronny_email_worker.Suggest.Refusal.{
  Refusal, Result, ok, refused, nothing_to_search_for, nothing_matches, too_many_match,
  over_folders, both_messages_and_query, neither_messages_nor_query, both_targets,
  too_many_messages, needs_a_target, needs_a_flag, account_down, target_of_another_account,
  target_discarded, all_in_target, none_take_part, cannot_be_added_to, another_producer,
  about_folders, would_hold_too_many, nothing_missing,
}

-- `_nothing_left_to_do`
unfoldable pub nothing_left_to_do : Added → (matched : ℕ) → Text → Option Container → Refusal
nothing_left_to_do a matched query none = none_take_part matched query (skipped a)
nothing_left_to_do a matched query (some target) =
    if length a.already_in_target == matched
    then all_in_target matched query target.name
    else none_take_part matched query (skipped a)

abbrev pub ids_of : List Suggestion → List ℕ
ids_of = map (λ s. s.id)

-- `[min(ours), max(ours)] if ours else []`
abbrev pub span : List ℕ → Option (ℕ × ℕ)
span [] = none
span (n ∷ ns) = elim (span ns) [
  | none ↦ some (n, n)
  | some (low, high) ↦ some (min n low, max n high)
]

abbrev pub is_one_of : List ℕ → Suggestion → Bool
is_one_of ids s = elim s.message_id [ none ↦ false | some m ↦ mem m ids ]

-- `_record_query`, for the items as they are after the adding.
unfoldable pub record_query :
    Db → Bundle → (query : Text) → (producer_id matched : ℕ) → Added → (grew : Bool) → Bundle
record_query db b query producer_id matched a grew = record b {
  queries =
      b.queries
      ++ record {
        text = query;
        grew = grew;
        at = db.now;
        producer_id = producer_id;
        matched = matched;
        added = length a.added;
        skipped = skipped a;
        items = span (ids_of (keep (is_one_of a.added) b.suggestions));
      }
        ∷ [];
}

-- The length of a day in the unit of the clock, a second.
abbrev pub day : ℕ
day = 86400

abbrev pub new_bundle : Db → Account → (producer_id : ℕ) → Request → Option Container → Bundle
new_bundle db account producer_id q target = record {
  id = db.next_bundle;
  account_id = account.id;
  producer_id = producer_id;
  action_kind = ActionKind.state;
  operation = q.operation;
  target_container_id = elim target [ none ↦ none | some k ↦ some k.id ];
  flag = q.flag;
  queries = [];
  summary = q.summary;
  reason = q.reason;
  status = BundleStatus.proposed;
  expires_at = db.now + q.expiry_days * day;
  decided_at = none;
  decided_by_id = none;
  decision_reason = none;
  suggestions = [];
}

abbrev pub optional_text : Option Text → Value
optional_text none = Value.null
optional_text (some t) = Value.text t

abbrev pub optional_num : Option ℕ → Value
optional_num none = Value.null
optional_num (some n) = Value.num n

abbrev pub audit_proposed : (producer_id : ℕ) → Request → Bundle → (messages : ℕ) → Db → Db
audit_proposed producer_id q b messages =
    audit "bundle_proposed" "producer" "bundle" (some producer_id) (some b.id) (
      ("operation", Value.operation q.operation)
      ∷ ("messages", Value.num messages)
      ∷ ("target_container_id", optional_num b.target_container_id)
      ∷ ("target_created", Value.flag (is_some q.target_container_name))
      ∷ ("query", optional_text q.query)
      ∷ [])

-- The end of `propose_bundle`, once the adding is done.
unfoldable pub finish_proposal :
    (producer_id : ℕ)
    → Request
    → (matched : ℕ) → Option Container
    → Bundle
    → Adding × Option Refusal
    → Db × Result Bundle
finish_proposal producer_id q matched target b (a, some refusal) = (a.db, refused refusal)
finish_proposal producer_id q matched target b (a, none) =
    let filled = record b { suggestions = a.items } in
    elim q.query [
      | none ↦ (audit_proposed producer_id q b (length a.added.added) a.db, ok filled)
      | some query ↦
          if is_empty a.added.added
          then (a.db, refused (nothing_left_to_do a.added matched query target))
          else (
            audit_proposed producer_id q b (length a.added.added) a.db,
            ok (record_query a.db filled query producer_id matched a.added false),
          )
    ]

module _ (digest : Text → Text) (found : Text → List FtsRow) where
  -- `resolve_query`: how many match, and the messages.
  unfoldable pub resolve_query : Cache → Account → Text → (max_size : ℕ) → Result (ℕ × List ℕ)
  resolve_query c account query max_size =
      let ids = some (account.id ∷ []) in
      let matched = count_search_messages found c query ids in
      if is_none (fts_query query)
      then refused (nothing_to_search_for query)
      else if matched == 0
      then refused (nothing_matches query)
      else if ltb max_size matched
      then refused (too_many_match matched query max_size)
      else ok (matched, search_messages found c query ids max_size)

  -- The messages of a request: named, or found.
  unfoldable pub find_messages : Cache → Account → Request → Result (ℕ × List ℕ)
  find_messages c account q = elim q.query [
    | none ↦ ok (0, q.message_ids)
    | some query ↦ resolve_query c account query q.max_size
  ]

  unfoldable pub propose_found :
      Db
      → (producer_id : ℕ) → Account
      → Request
      → Option Container
      → Result (ℕ × List ℕ)
      → Db × Result Bundle
  propose_found db producer_id account q target (refused r) = (db, refused r)
  propose_found db producer_id account q target (ok (matched, message_ids)) =
      let b = new_bundle db account producer_id q target in
      finish_proposal producer_id q matched target b (
        add_messages digest b account.id (is_none q.query)
          (record db { next_bundle = db.next_bundle + 1 }) message_ids)

  unfoldable pub propose_towards :
      (producer_id : ℕ) → Account → Request → Db × Result (Option Container) → Db × Result Bundle
  propose_towards producer_id account q (db, refused r) = (db, refused r)
  propose_towards producer_id account q (db, ok target) =
      propose_found db producer_id account q target (find_messages db.cache account q)

  unfoldable pub propose_bundle : Db → (producer_id : ℕ) → Account → Request → Db × Result Bundle
  propose_bundle db producer_id account q = elim (refuse_request account q) [
    | some refusal ↦ (db, refused refusal)
    | none ↦ propose_towards producer_id account q (find_target db account q)
  ]
