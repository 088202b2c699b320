-- ===== src/Staleness/Refresh.antt =====
-- What `refresh_bundle` of src/mailmind/suggest/staleness.py does to a bundle's items.
use ronny_email_worker.Prelude.{
  ◌≡◌, refl, ◌↔◌, true, false, some, List, [], ◌∷◌, arith, All, map, if◌then◌else◌, ap, ◌∙◌, any,
  is_empty-keep, any-false_iff,
}
use ronny_email_worker.Text.{Text}
use ronny_email_worker.Models.{
  Suggestion, Bundle, SuggestionStatus, item_is_live, item_is_stale, BundleStatus,
}
use ronny_email_worker.Scope.{Cache, Db, audit}
use ronny_email_worker.Staleness.{
  Freshness, fresh, moved, check, mark, refresh_item, refresh_items, refresh_bundle,
  close_if_nothing_survived,
}

-- What becomes of one item: a description with no record and no clock in it.
abbrev pub judged : Suggestion → Freshness → Suggestion
judged s fresh = s
judged s (moved d) = record s { status = SuggestionStatus.stale; stale_detail = some d }

module _ (digest : Text → Text) where
  abbrev pub refreshed : Cache → Suggestion → Suggestion
  refreshed c s = if item_is_live s.status then judged s (check digest c s) else s

  refresh_item_lem :
      (db : Db) (s : Suggestion)
      → ((refresh_item digest db s).0.cache ≡ db.cache)
        × ((refresh_item digest db s).1 ≡ refreshed db.cache s)
  unfolding refresh_item mark audit
  refresh_item_lem db s = ground arith

  pub refresh_items-cache :
      (db : Db) (ss : List Suggestion) → (refresh_items digest db ss).0.cache ≡ db.cache
  unfolding refresh_items
  refresh_items-cache db [] = refl
  refresh_items-cache db (s ∷ ss) =
      refresh_items-cache (refresh_item digest db s).0 ss ∙ (refresh_item_lem db s).0

  pub refresh_items-eq-map :
      (db : Db) (ss : List Suggestion)
      → (refresh_items digest db ss).1 ≡ map (refreshed db.cache) ss
  unfolding refresh_items
  refresh_items-eq-map db [] = refl
  refresh_items-eq-map db (s ∷ ss) = rw (
    refresh_items-eq-map (refresh_item digest db s).0 ss,
    (refresh_item_lem db s).0,
    (refresh_item_lem db s).1,
  )

  close-cache :
      (db : Db) (b : Bundle)
      → ((close_if_nothing_survived db b).0.cache ≡ db.cache)
        × ((close_if_nothing_survived db b).1.suggestions ≡ b.suggestions)
  unfolding close_if_nothing_survived audit
  close-cache db b = ground arith

  -- A refresh changes no mailbox data, and its items are the old ones in their order, each live one
  -- that does not hold marked stale with what changed and every other as it was.
  pub refresh_bundle-items :
      (db : Db) (b : Bundle)
      → ((refresh_bundle digest db b).0.cache ≡ db.cache)
        × ((refresh_bundle digest db b).1.suggestions ≡ map (refreshed db.cache) b.suggestions)
  unfolding refresh_bundle
  refresh_bundle-items db b =
      let (db', items, _) = refresh_items digest db b.suggestions in
      let (kept, same) = close-cache db' (record b { suggestions = items }) in
      (kept ∙ refresh_items-cache db b.suggestions, same ∙ refresh_items-eq-map db b.suggestions)

  -- An item that is still live after a refresh holds.
  live_refreshed :
      (c : Cache) (s : Suggestion)
      → item_is_live (refreshed c s).status ≡ true
      → (check digest c s ≡ fresh) × (refreshed c s ≡ s)
  live_refreshed c s h = ground arith

  All-live_refreshed :
      (c : Cache) (ss : List Suggestion)
      → All (λ s. item_is_live s.status ≡ true → check digest c s ≡ fresh) (map (refreshed c) ss)
  All-live_refreshed c [] = tt
  All-live_refreshed c (s ∷ ss) =
      ((λ h. let (e, same) = live_refreshed c s h in rw same e), All-live_refreshed c ss)

  -- After a refresh every item that is still live holds.
  pub refresh_bundle-live_fresh :
      (db : Db) (b : Bundle)
      → All
          (λ s. item_is_live s.status ≡ true → check digest db.cache s ≡ fresh)
          (refresh_bundle digest db b).1.suggestions
  refresh_bundle-live_fresh db b =
      rw (refresh_bundle-items db b).1 (All-live_refreshed db.cache b.suggestions)

  refresh_item_settled :
      (db : Db) (s : Suggestion)
      → (item_is_live s.status ≡ true → check digest db.cache s ≡ fresh)
      → ((refresh_item digest db s).0 ≡ db) × ((refresh_item digest db s).1 ≡ s)
  unfolding refresh_item mark
  refresh_item_settled db s h = ground arith

  -- Items that hold, or are live no longer, are left alone and nothing is recorded about them.
  refresh_items_settled :
      (db : Db) (ss : List Suggestion)
      → All (λ s. item_is_live s.status ≡ true → check digest db.cache s ≡ fresh) ss
      → ((refresh_items digest db ss).0 ≡ db) × ((refresh_items digest db ss).1 ≡ ss)
  unfolding refresh_items
  refresh_items_settled db [] h = (refl, refl)
  refresh_items_settled db (s ∷ ss) h =
      let (same, item) = refresh_item_settled db s h.0 in
      let (db_same, items) = refresh_items_settled db ss h.1 in
      (rw same db_same, rw (same, item, items))

  close_settled :
      (db : Db) (b : Bundle)
      → let r = close_if_nothing_survived db b in close_if_nothing_survived r.0 r.1 ≡ r
  unfolding close_if_nothing_survived
  close_settled db b = ground arith

  refresh_settled :
      (db : Db) (b : Bundle)
      → All (λ s. item_is_live s.status ≡ true → check digest db.cache s ≡ fresh) b.suggestions
      → close_if_nothing_survived db b ≡ (db, b)
      → ((refresh_bundle digest db b).0 ≡ db) × ((refresh_bundle digest db b).1 ≡ b)
  unfolding refresh_bundle
  refresh_settled db b h closed =
      let (same, items) = refresh_items_settled db b.suggestions h in
      rw (same, items) (ap (λ r. r.0) closed, ap (λ r. r.1) closed)

  refresh_bundle-close :
      (db : Db) (b : Bundle)
      → let (db', b', _) = refresh_bundle digest db b in
        close_if_nothing_survived db' b' ≡ (db', b')
  unfolding refresh_bundle
  refresh_bundle-close db b =
      let (db', items, _) = refresh_items digest db b.suggestions in
      close_settled db' (record b { suggestions = items })

  -- Refreshing again, before the mailbox changes, changes nothing and records nothing.
  refresh_bundle_again :
      (db : Db) (b : Bundle)
      → let (db', b', _) = refresh_bundle digest db b in
        ((refresh_bundle digest db' b').0 ≡ db') × ((refresh_bundle digest db' b').1 ≡ b')
  refresh_bundle_again db b =
      let (db', b', _) = refresh_bundle digest db b in
      refresh_settled db' b' (rw (refresh_bundle-items db b).0 (refresh_bundle-live_fresh db b))
        (refresh_bundle-close db b)

  close_status :
      (db : Db) (b : Bundle)
      → b.status ≡ BundleStatus.proposed
      → ((close_if_nothing_survived db b).1.status ≡ BundleStatus.stale) ↔ (
          All (λ s. item_is_live s.status ≡ false) b.suggestions
          × (any (λ s. item_is_stale s.status) b.suggestions ≡ true))
  unfolding close_if_nothing_survived
  close_status db b h = ground (
    arith,
    is_empty-keep (λ s. item_is_live s.status) b.suggestions,
    is_empty-keep (λ s. item_is_stale s.status) b.suggestions,
    any-false_iff (λ s. item_is_live s.status) b.suggestions,
  )

  -- A refresh closes a proposed bundle as stale exactly when none of the items that it leaves is live
  -- and one of them is stale.
  pub refresh_bundle-stale_iff :
      (db : Db) (b : Bundle)
      → b.status ≡ BundleStatus.proposed
      → let b' = (refresh_bundle digest db b).1 in
        (b'.status ≡ BundleStatus.stale) ↔ (
          All (λ s. item_is_live s.status ≡ false) b'.suggestions
          × (any (λ s. item_is_stale s.status) b'.suggestions ≡ true))
  unfolding refresh_bundle
  refresh_bundle-stale_iff db b h =
      let (db', items, _) = refresh_items digest db b.suggestions in
      let b' : Bundle = record b { suggestions = items } in
      rw (close-cache db' b').1 (close_status db' b' h)
