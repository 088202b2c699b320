-- ===== src/Suggest/Decide.antt =====
-- The decisions of src/mailmind/suggest/model.py: `exclude`, `accept`, `reject`, `withdraw` and
-- `expire_due`. A person or a producer is given by the id of its row.
pub mod Page
pub mod Acceptance
pub mod Endings
use ronny_email_worker.Prelude.{
  ℕ, suc, ◌+◌, Bool, true, false, not, ◌&&◌, Option, none, some, List, [], ◌∷◌, map, ◌==◌, ltb, leb,
  if◌then◌else◌, keep, is_empty, length, max,
}
use ronny_email_worker.Text.{Text}
use ronny_email_worker.Models.{
  Suggestion, Bundle, Value, SuggestionStatus, BundleStatus, item_is_proposed, item_is_stale,
  bundle_is_proposed, bundle_is_stale,
}
use ronny_email_worker.Scope.{Db, audit}
use ronny_email_worker.Staleness.{refresh_bundle}
use ronny_email_worker.Suggest.Refusal.{
  Refusal, Result, ok, refused, only_proposed_excluded, not_awaiting_review, page_said_nothing,
  arrived_since, all_moved_on, some_moved_on, all_excluded_or_died, withdrawn_by_another,
  cannot_be_withdrawn,
}

-- `max((s.id for s in items), default=0)`
unfoldable pub last_id : List Suggestion → ℕ
last_id [] = 0
last_id (s ∷ ss) = max s.id (last_id ss)

-- The last item that this bundle has: the premise of having read it.
unfoldable pub shown_through : Bundle → ℕ
unfolding last_id
shown_through b = last_id b.suggestions

-- The loop that gives every item still proposed another status.
abbrev pub become : SuggestionStatus → Suggestion → Suggestion
become status s = if item_is_proposed s.status then record s { status = status } else s

unfoldable pub exclude : Db → Suggestion → (reviewer : ℕ) → Db × Suggestion × Result (Unit {0})
exclude db s reviewer =
    if not (item_is_proposed s.status) then (db, s, refused only_proposed_excluded) else (
      audit "suggestion_excluded" "person" "suggestion" (some reviewer) (some s.id) [] db,
      record s { status = SuggestionStatus.excluded },
      ok tt,
    )

-- The items that arrived after the page was drawn.
abbrev pub arrived_after : ℕ → Bundle → List Suggestion
arrived_after reviewed_through b = keep (λ s. ltb reviewed_through s.id) b.suggestions

-- `_refuse_unless_this_is_the_page_they_read`
unfoldable pub refuse_unless_this_is_the_page_they_read :
    Db → Bundle → (reviewer reviewed_through : ℕ) → Db × Option Refusal
refuse_unless_this_is_the_page_they_read db b reviewer reviewed_through =
    let arrived = arrived_after reviewed_through b in
    if reviewed_through == 0
    then (db, some page_said_nothing)
    else if is_empty arrived
    then (db, none)
    else (
      audit "review_premise_moved" "person" "bundle" (some reviewer) (some b.id)
          (("reviewed_through", Value.num reviewed_through)
            ∷ ("arrived", Value.nums (map (λ s. s.id) arrived))
            ∷ [])
          db,
      some (arrived_since (length arrived)),
    )

abbrev pub proposed_items : Bundle → List Suggestion
proposed_items b = keep (λ s. item_is_proposed s.status) b.suggestions

abbrev pub stale_items : Bundle → List Suggestion
stale_items b = keep (λ s. item_is_stale s.status) b.suggestions

-- The end of `accept`, from the list of what is still proposed.
unfoldable pub accept_proposed :
    Db → Bundle → (reviewer : ℕ) → Db × Bundle × Result (List Suggestion)
accept_proposed db b reviewer =
    let accepted = proposed_items b in
    if is_empty accepted then (db, b, refused all_excluded_or_died) else (
      audit "bundle_accepted" "person" "bundle" (some reviewer) (some b.id)
          (("items", Value.num (length accepted)) ∷ []) db,
      record b {
        suggestions = map (become SuggestionStatus.accepted) b.suggestions;
        status = BundleStatus.accepted;
        decided_at = some db.now;
        decided_by_id = some reviewer;
      },
      ok (map (become SuggestionStatus.accepted) accepted),
    )

-- `accept` after the refresh: a bundle that it closed, stale items, and the rest.
unfoldable pub accept_refreshed :
    Db
    → Bundle
    → (reviewer : ℕ) → (acknowledge_stale : Bool) → Db × Bundle × Result (List Suggestion)
accept_refreshed db b reviewer acknowledge_stale =
    let stale = stale_items b in
    if bundle_is_stale b.status
    then (db, b, refused (all_moved_on b.operation))
    else if not (is_empty stale) && not acknowledge_stale
    then (db, b, refused (some_moved_on (length stale) b.operation))
    else if is_empty stale
    then accept_proposed db b reviewer
    else accept_proposed
        (audit "stale_acknowledged" "person" "bundle" (some reviewer) (some b.id)
          (("items", Value.nums (map (λ s. s.id) stale)) ∷ []) db)
        b reviewer

module _ (digest : Text → Text) where
  -- `accept` after the check of the page.
  unfoldable pub accept_page :
      Db
      → Bundle
      → (reviewer : ℕ) → (acknowledge_stale : Bool) → Option Refusal
      → Db × Bundle × Result (List Suggestion)
  accept_page db b reviewer acknowledge_stale (some refusal) = (db, b, refused refusal)
  accept_page db b reviewer acknowledge_stale none =
      let (db', b', _) = refresh_bundle digest db b in
      accept_refreshed db' b' reviewer acknowledge_stale

  unfoldable pub accept :
      Db
      → Bundle
      → (reviewer reviewed_through : ℕ) → (acknowledge_stale : Bool)
      → Db × Bundle × Result (List Suggestion)
  accept db b reviewer reviewed_through acknowledge_stale =
      let (db', refusal) =
        refuse_unless_this_is_the_page_they_read db b reviewer reviewed_through in
      if not (bundle_is_proposed b.status)
      then (db, b, refused (not_awaiting_review b.status))
      else accept_page db' b reviewer acknowledge_stale refusal

unfoldable pub reject :
    Db → Bundle → (reviewer : ℕ) → (reason : Option Text) → Db × Bundle × Result (Unit {0})
reject db b reviewer reason =
    if not (bundle_is_proposed b.status) then (db, b, refused (not_awaiting_review b.status)) else (
      audit "bundle_rejected" "person" "bundle" (some reviewer) (some b.id)
          (("reason", elim reason [ none ↦ Value.null | some t ↦ Value.text t ]) ∷ []) db,
      record b {
        status = BundleStatus.rejected;
        decided_at = some db.now;
        decided_by_id = some reviewer;
        decision_reason = reason;
        suggestions = map (become SuggestionStatus.rejected) b.suggestions;
      },
      ok tt,
    )

unfoldable pub withdraw :
    Db → Bundle → (producer : ℕ) → (reason : Text) → Db × Bundle × Result (Unit {0})
withdraw db b producer reason =
    if not (b.producer_id == producer)
    then (db, b, refused withdrawn_by_another)
    else if not (bundle_is_proposed b.status)
    then (db, b, refused (cannot_be_withdrawn b.status))
    else (
      audit "bundle_withdrawn" "producer" "bundle" (some producer) (some b.id)
          (("reason", Value.text reason) ∷ []) db,
      record b {
        status = BundleStatus.withdrawn;
        decision_reason = some reason;
        suggestions = map (become SuggestionStatus.withdrawn) b.suggestions;
      },
      ok tt,
    )

-- The rows that `expire_due` selects.
abbrev pub is_due : ℕ → Bundle → Bool
is_due now b = bundle_is_proposed b.status && leb b.expires_at now

-- One round of the loop of `expire_due`.
unfoldable pub expire : Db → Bundle → Db × Bundle
expire db b = (
  audit "bundle_expired" "service" "bundle" none (some b.id) [] db,
  record b {
    status = BundleStatus.expired;
    suggestions = map (become SuggestionStatus.expired) b.suggestions;
  },
)

-- `expire_due` over the table of bundles, with how many were due.
unfoldable pub expire_due : (now : ℕ) → Db → List Bundle → Db × List Bundle × ℕ
expire_due now db [] = (db, [], 0)
expire_due now db (b ∷ bs) =
    let due = is_due now b in
    let (db_expired, b') = expire db b in
    let (db_after, bs', n) = expire_due now (if due then db_expired else db) bs in
    (db_after, (if due then b' else b) ∷ bs', if due then suc n else n)
