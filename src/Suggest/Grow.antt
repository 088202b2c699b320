-- ===== src/Suggest/Grow.antt =====
-- `add_to_bundle` of src/mailmind/suggest/model.py: what a search finds is put into a bundle that is
-- already waiting to be reviewed.
pub mod Room
pub mod Growth
use ronny_email_worker.Prelude.{
  ℕ, ◌+◌, Bool, true, false, not, Option, none, some, List, [], ◌∷◌, ◌==◌, ltb, if◌then◌else◌, keep,
  mem, is_some, is_empty, length, any,
}
use ronny_email_worker.Text.{Text}
use ronny_email_worker.Models.{
  Account, Suggestion, Bundle, Value, health_is_down, is_container_operation, bundle_is_proposed,
}
use ronny_email_worker.Scope.{Cache, Db, get_account, audit}
use ronny_email_worker.Search.{FtsRow}
use ronny_email_worker.Staleness.{refresh_bundle}
use ronny_email_worker.Suggest.Items.{Added, Adding, is_about, skipped, add_messages}
use ronny_email_worker.Suggest.Propose.{resolve_query, record_query}
use ronny_email_worker.Suggest.Refusal.{
  Refusal, Result, ok, refused, account_down, cannot_be_added_to, another_producer, about_folders,
  would_hold_too_many, nothing_missing,
}

-- `set(ids)`, one of each.
unfoldable pub distinct : List ℕ → List ℕ
distinct [] = []
distinct (n ∷ ns) = let rest = distinct ns in if mem n ns then rest else n ∷ rest

-- `len([s for s in bundle.suggestions if s.message_id is not None])`
abbrev pub holds : Bundle → ℕ
holds b = length (keep (λ s. is_some s.message_id) b.suggestions)

-- `len(set(found) - {s.message_id for s in bundle.suggestions})`
abbrev pub arriving : List ℕ → Bundle → ℕ
arriving message_ids b =
    length (keep (λ m. not (any (is_about m) b.suggestions)) (distinct message_ids))

-- The refusals that follow the refresh.
unfoldable pub refuse_growth : Bundle → (producer_id : ℕ) → Option Refusal
refuse_growth b producer_id =
    if not (bundle_is_proposed b.status)
    then some (cannot_be_added_to b.status)
    else if not (b.producer_id == producer_id)
    then some another_producer
    else if is_container_operation b.operation
    then some about_folders
    else none

-- The end of `add_to_bundle`, once the adding is done.
unfoldable pub finish_growth :
    Bundle
    → (producer_id : ℕ) → (query : Text) → (matched : ℕ) → Adding × Option Refusal
    → Db × Bundle × Result Added
finish_growth b producer_id query matched (a, some refusal) =
    (a.db, record b { suggestions = a.items }, refused refusal)
finish_growth b producer_id query matched (a, none) =
    let grown = record b { suggestions = a.items } in
    if is_empty a.added.added then (a.db, grown, refused (nothing_missing query)) else (
      audit "bundle_grown" "producer" "bundle" (some producer_id) (some b.id)
          (("query", Value.text query)
            ∷ ("added", Value.num (length a.added.added))
            ∷ ("skipped", Value.skipped (skipped a.added))
            ∷ ("items_now", Value.num (length a.items))
            ∷ [])
          a.db,
      record_query a.db grown query producer_id matched a.added true,
      ok a.added,
    )

module _ (digest : Text → Text) (found : Text → List FtsRow) where
  unfoldable pub grow_by :
      Db
      → Bundle
      → (producer_id : ℕ) → Account
      → (query : Text) → (max_size : ℕ) → Result (ℕ × List ℕ)
      → Db × Bundle × Result Added
  grow_by db b producer_id account query max_size (refused r) = (db, b, refused r)
  grow_by db b producer_id account query max_size (ok (matched, message_ids)) =
      if ltb max_size (holds b + arriving message_ids b)
      then (db, b, refused (would_hold_too_many (holds b) (arriving message_ids b) max_size))
      else finish_growth b producer_id query matched
          (add_messages digest b account.id false db message_ids)

  -- The bundle's account, which its foreign key keeps there.
  unfoldable pub grow_in :
      Db
      → Bundle
      → (producer_id : ℕ) → (query : Text) → (max_size : ℕ) → Account
      → Db × Bundle × Result Added
  grow_in db b producer_id query max_size account =
      if health_is_down account.health
      then (db, b, refused (account_down account.name))
      else grow_by db b producer_id account query max_size
          (resolve_query digest found db.cache account query max_size)

  -- `add_to_bundle`, for the bundle's account as `scope.get` finds it.
  unfoldable pub add_to_bundle :
      Db
      → Bundle
      → Account
      → (producer_id : ℕ) → (query : Text) → (max_size : ℕ) → Db × Bundle × Result Added
  add_to_bundle db b account producer_id query max_size =
      let (db', b', _) = refresh_bundle digest db b in
      elim (refuse_growth b' producer_id) [
        | some refusal ↦ (db', b', refused refusal)
        | none ↦ grow_in db' b' producer_id query max_size account
      ]
