-- ===== src/Suggest/Discard.antt =====
-- `propose_discard`, `_refuse_undiscardable` and `_children_of` of src/mailmind/suggest/model.py.
pub mod Emptiness
use Prim.Native.Nat.{◌*◌}
use ronny_email_worker.Prelude.{
  ℕ, suc, ◌+◌, Bool, true, false, not, ◌&&◌, Option, none, some, List, [], ◌∷◌, ◌++◌, map, ◌==◌,
  ltb, leb, if◌then◌else◌, keep, mem, is_none, is_some, is_empty, length,
}
use ronny_email_worker.Text.{Text, text_mem, starts_with, sorted}
use ronny_email_worker.Models.{
  Account, Container, Suggestion, Bundle, Value, Operation, ActionKind, BundleStatus,
  SuggestionStatus, health_is_down,
}
use ronny_email_worker.Scope.{Cache, Db, get_container, audit}
use ronny_email_worker.Staleness.{live_message_count}
use ronny_email_worker.Suggest.Names.{is_inbox_name}
use ronny_email_worker.Suggest.Propose.{day}
use ronny_email_worker.Suggest.Refusal.{
  Refusal, Result, ok, refused, account_down, no_folders, too_many_folders,
  folder_of_another_account, already_discarded, is_inbox, has_special_use, folder_holds,
  folders_under,
}

-- `name LIKE prefix || '%'` as SQLite reads it: ASCII letters match in either case.
abbrev pub fold_case : ℕ → ℕ
fold_case c = if leb b'A' c && leb c b'Z' then c + 32 else c

abbrev pub like_prefix : Text → Text → Bool
like_prefix name prefix = starts_with (map fold_case name) (map fold_case prefix)

-- `_children_of`: a delimiter that is missing or empty makes no hierarchy.
unfoldable pub children_of : Cache → (account_id : ℕ) → Container → List Text
children_of c account_id k = elim k.delimiter [
  | none ↦ []
  | some [] ↦ []
  | some (d ∷ ds) ↦
      map (λ (j : Container). j.name)
        (keep
          (λ (j : Container).
            j.account_id == account_id
            && is_none j.discarded_at
            && like_prefix j.name (k.name ++ (d ∷ ds)))
          c.containers)
]

-- The names under the folder that the bundle does not remove.
abbrev pub outside : Cache → (account_id : ℕ) → Container → List Text → List Text
outside c account_id k going =
    sorted (keep (λ name. not (text_mem name going)) (children_of c account_id k))

unfoldable pub refuse_full : Cache → Account → Container → List Text → Option Refusal
refuse_full c account k going =
    if not (live_message_count c k == 0)
    then some (folder_holds k.name (live_message_count c k))
    else if not (is_empty (outside c account.id k going))
    then some (folders_under k.name (outside c account.id k going))
    else none

-- `if container.special_use:` and what follows it. An empty special use is as good as none.
unfoldable pub refuse_special :
    Cache → Account → Container → List Text → Option Text → Option Refusal
refuse_special c account k going none = refuse_full c account k going
refuse_special c account k going (some []) = refuse_full c account k going
refuse_special c account k going (some (u ∷ us)) = some (has_special_use k.name (u ∷ us))

-- `_refuse_undiscardable`
unfoldable pub refuse_undiscardable : Cache → Account → Container → List Text → Option Refusal
refuse_undiscardable c account k going =
    if is_some k.discarded_at
    then some (already_discarded k.name)
    else if is_inbox_name k.name
    then some (is_inbox k.name)
    else refuse_special c account k going k.special_use

-- The loop over the folders, up to the first refusal.
unfoldable pub refuse_any : Cache → Account → List Container → List Text → Option Refusal
refuse_any c account [] going = none
refuse_any c account (k ∷ ks) going = elim (refuse_undiscardable c account k going) [
  | some r ↦ some r
  | none ↦ refuse_any c account ks going
]

-- A folder of this account, or a refusal.
unfoldable pub own_container : Account → ℕ → Option Container → Result Container
own_container account id none = refused (folder_of_another_account id)
own_container account id (some k) =
    if k.account_id == account.id then ok k else refused (folder_of_another_account id)

abbrev pub also : Container → Result (List Container) → Result (List Container)
also k (ok ks) = ok (k ∷ ks)
also k (refused r) = refused r

-- The folders that are named, each once, in the order of their first mention.
unfoldable pub wanted : Cache → Account → (seen : List ℕ) → List ℕ → Result (List Container)
wanted c account seen [] = ok []
wanted c account seen (id ∷ ids) =
    let skip = wanted c account seen ids in
    let rest = wanted c account (id ∷ seen) ids in
    if mem id seen then skip else elim (own_container account id (get_container c id)) [
      | refused r ↦ refused r
      | ok k ↦ also k rest
    ]

-- The items, with ids from `id` on.
unfoldable pub folder_items : (id bundle_id : ℕ) → List Container → List Suggestion
folder_items id bundle_id [] = []
folder_items id bundle_id (k ∷ ks) =
    record {
      id = id;
      bundle_id = bundle_id;
      message_id = none;
      source_container_id = k.id;
      premise_container_generation = k.generation;
      premise_uid = none;
      premise_modseq = none;
      premise_flags_hash = [];
      premise_message_count = some 0;
      status = SuggestionStatus.proposed;
      stale_detail = none;
    }
    ∷ folder_items (id + 1) bundle_id ks

abbrev pub names_of : List Container → List Text
names_of = map (λ (k : Container). k.name)

-- The bundle, its items and the record of it. Names are unique in an account, so the set of them
-- is the list.
unfoldable pub add_discard :
    Db
    → (producer_id : ℕ) → Account
    → List Container
    → (summary reason : Text) → (expiry_days : ℕ) → Db × Result Bundle
add_discard db producer_id account ks summary reason expiry_days = (
  audit "bundle_proposed" "producer" "bundle" (some producer_id) (some db.next_bundle)
      (("operation", Value.operation Operation.discard_container)
        ∷ ("folders", Value.texts (sorted (names_of ks)))
        ∷ [])
      (record db {
        next_bundle = db.next_bundle + 1;
        next_suggestion = db.next_suggestion + length ks;
      }),
  ok (record {
    id = db.next_bundle;
    account_id = account.id;
    producer_id = producer_id;
    action_kind = ActionKind.state;
    operation = Operation.discard_container;
    target_container_id = none;
    flag = none;
    queries = [];
    summary = summary;
    reason = reason;
    status = BundleStatus.proposed;
    expires_at = db.now + expiry_days * day;
    decided_at = none;
    decided_by_id = none;
    decision_reason = none;
    suggestions = folder_items db.next_suggestion db.next_bundle ks;
  }),
)

unfoldable pub discard_wanted :
    Db
    → (producer_id : ℕ) → Account
    → (summary reason : Text) → (expiry_days : ℕ) → Result (List Container)
    → Db × Result Bundle
discard_wanted db producer_id account summary reason expiry_days (refused r) = (db, refused r)
discard_wanted db producer_id account summary reason expiry_days (ok ks) =
    elim (refuse_any db.cache account ks (names_of ks)) [
      | some r ↦ (db, refused r)
      | none ↦ add_discard db producer_id account ks summary reason expiry_days
    ]

unfoldable pub propose_discard :
    Db
    → (producer_id : ℕ) → Account
    → (container_ids : List ℕ) → (summary reason : Text) → (expiry_days max_size : ℕ)
    → Db × Result Bundle
propose_discard db producer_id account container_ids summary reason expiry_days max_size =
    if is_empty container_ids
    then (db, refused no_folders)
    else if ltb max_size (length container_ids)
    then (db, refused (too_many_folders (length container_ids) max_size))
    else if health_is_down account.health
    then (db, refused (account_down account.name))
    else discard_wanted db producer_id account summary reason expiry_days
        (wanted db.cache account [] container_ids)
