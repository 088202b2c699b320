-- ===== src/Suggest/Decide/Acceptance.antt =====
-- What `accept` of src/mailmind/suggest/model.py lets through, and what it refuses.
use ronny_email_worker.Prelude.{
  ℕ, ◌≤◌, ◌<◌, ◌≡◌, refl, ◌⊎◌, inl, inr, Bool, true, false, Option, none, some, List, [], ◌∷◌, map,
  arith, All, keep-empty_iff, is_empty, Bool-cases, Option-cases, ◌∙◌, ap,
}
use ronny_email_worker.Text.{Text}
use ronny_email_worker.Models.{
  Suggestion, Bundle, SuggestionStatus, BundleStatus, item_is_proposed, item_is_accepted,
  item_is_live, item_is_stale, bundle_is_proposed,
}
use ronny_email_worker.Scope.{Db, Cache, audit}
use ronny_email_worker.Staleness.{
  fresh, check, refresh_bundle, check_container, check_message, check_placement, check_premise,
}
use ronny_email_worker.Staleness.Refresh.{
  refreshed, refresh_bundle-items, refresh_bundle-live_fresh,
}
use ronny_email_worker.Suggest.Refusal.{Refusal, ok, refused}
use ronny_email_worker.Suggest.Decide.{
  become, proposed_items, stale_items, refuse_unless_this_is_the_page_they_read, shown_through,
  accept_proposed, accept_refreshed, accept_page, accept,
}
use ronny_email_worker.Suggest.Decide.Page.{page_iff, page-same, page-cache, last_id-le}

-- What `accept` makes of a bundle once nothing speaks against it.
abbrev accepted_bundle : ℕ → ℕ → Bundle → Bundle
accepted_bundle now reviewer b = record b {
  suggestions = map (become SuggestionStatus.accepted) b.suggestions;
  status = BundleStatus.accepted;
  decided_at = some now;
  decided_by_id = some reviewer;
}

accept_refreshed-ok :
    (db : Db) (b : Bundle) (reviewer : ℕ) (ack : Bool) (items : List Suggestion)
    → (accept_refreshed db b reviewer ack).2 ≡ ok items
    → ((accept_refreshed db b reviewer ack).1 ≡ accepted_bundle db.now reviewer b)
      × (is_empty (proposed_items b) ≡ false)
      × (items ≡ map (become SuggestionStatus.accepted) (proposed_items b))
      × (ack ≡ false → is_empty (stale_items b) ≡ true)
unfolding accept_refreshed accept_proposed audit
accept_refreshed-ok db b reviewer ack items h = ground arith

accept_refreshed_refused :
    (db : Db) (b : Bundle) (reviewer : ℕ) (ack : Bool) (r : Refusal)
    → (accept_refreshed db b reviewer ack).2 ≡ refused r
    → (accept_refreshed db b reviewer ack).1 ≡ b
unfolding accept_refreshed accept_proposed
accept_refreshed_refused db b reviewer ack r h = ground arith

-- `become` and a mark change no premise.
check-status :
    (digest : Text → Text) (c : Cache) (s : Suggestion) (status : SuggestionStatus)
    → check digest c (record s { status = status }) ≡ check digest c s
unfolding check check_container check_message check_premise check_placement
check-status digest c s status = refl

become-settles :
    (s : Suggestion) → item_is_proposed (become SuggestionStatus.accepted s).status ≡ false
become-settles s = ground arith

become-holds :
    (digest : Text → Text) (c : Cache) (s : Suggestion)
    → (item_is_live s.status ≡ true → check digest c s ≡ fresh)
    → item_is_accepted (become SuggestionStatus.accepted s).status ≡ true
    → check digest c (become SuggestionStatus.accepted s) ≡ fresh
become-holds digest c s holds h = elim (Bool-cases (item_is_proposed s.status)) [
  | inl e ↦ rw e (check-status digest c s SuggestionStatus.accepted ∙ holds (ground arith))
  | inr e ↦ rw e (holds (ground arith))
]

become-All {κ} :
    (P Q : Suggestion → Type κ) (ss : List Suggestion)
    → ((s : Suggestion) → P s → Q (become SuggestionStatus.accepted s))
    → All P ss
    → All Q (map (become SuggestionStatus.accepted) ss)
become-All P Q [] f h = tt
become-All P Q (s ∷ ss) f h = (f s h.0, become-All P Q ss f h.1)

All-settles :
    (ss : List Suggestion)
    → All (λ s. item_is_proposed s.status ≡ false) (map (become SuggestionStatus.accepted) ss)
All-settles [] = tt
All-settles (s ∷ ss) = (become-settles s, All-settles ss)

module _ (digest : Text → Text) (db : Db) (b : Bundle) (reviewer through : ℕ) (ack : Bool) where
  -- What an acceptance that went through has established.
  pub record Accepted : Type 0 where
    pub was_proposed : bundle_is_proposed b.status ≡ true
    pub page_said : 0 < through
    pub all_read : All (λ s. s.id ≤ through) b.suggestions
    pub acknowledged :
        ack ≡ false
        → All
            (λ s. item_is_stale s.status ≡ false)
            (accept digest db b reviewer through ack).1.suggestions
    pub is_accepted : (accept digest db b reviewer through ack).1.status ≡ BundleStatus.accepted
    pub decided_by : (accept digest db b reviewer through ack).1.decided_by_id ≡ some reviewer
    pub all_hold :
        All
          (λ s. item_is_accepted s.status ≡ true → check digest db.cache s ≡ fresh)
          (accept digest db b reviewer through ack).1.suggestions
    pub none_left :
        All
          (λ s. item_is_proposed s.status ≡ false)
          (accept digest db b reviewer through ack).1.suggestions
    pub same_items :
        (accept digest db b reviewer through ack).1.suggestions
        ≡ map (become SuggestionStatus.accepted) (map (refreshed digest db.cache) b.suggestions)

  abbrev page : Db × Option Refusal
  page = refuse_unless_this_is_the_page_they_read db b reviewer through

  abbrev refreshed_bundle : Bundle
  refreshed_bundle = (refresh_bundle digest page.0 b).1

  accept-ok :
      (items : List Suggestion)
      → (accept digest db b reviewer through ack).2 ≡ ok items
      → (bundle_is_proposed b.status ≡ true)
        × (page.1 ≡ none)
        × ((accept digest db b reviewer through ack).1
            ≡ accepted_bundle (refresh_bundle digest page.0 b).0.now reviewer refreshed_bundle)
        × (ack ≡ false → is_empty (stale_items refreshed_bundle) ≡ true)
  unfolding accept accept_page
  accept-ok items h = ground (
    arith,
    accept_refreshed-ok (refresh_bundle digest page.0 b).0 refreshed_bundle reviewer ack items,
  )

  live_hold :
      All
        (λ s. item_is_live s.status ≡ true → check digest db.cache s ≡ fresh)
        refreshed_bundle.suggestions
  live_hold = rw (page-cache db b reviewer through) at (refresh_bundle-live_fresh digest page.0 b)

  stale_kept :
      (ss : List Suggestion)
      → All (λ s. item_is_stale s.status ≡ false) ss
      → All (λ s. item_is_stale s.status ≡ false) (map (become SuggestionStatus.accepted) ss)
  stale_kept ss =
      become-All (λ s. item_is_stale s.status ≡ false) (λ s. item_is_stale s.status ≡ false) ss
        (λ s h. ground arith)

  -- An acceptance goes through only for a bundle that awaits review, from a page that said what it
  -- showed and showed every item, with any stale item acknowledged. The bundle is then accepted by the
  -- reviewer, no item is left proposed, every accepted item holds against the mailbox as it is
  -- known, and the items are the old ones in their order, refreshed.
  pub accept-Accepted :
      (items : List Suggestion) → (accept digest db b reviewer through ack).2 ≡ ok items → Accepted
  accept-Accepted items h =
      let (proposed, paged, is, acked) = accept-ok items h in
      let (said, read) = (page_iff db b reviewer through).0 paged in
      record {
        was_proposed = proposed;
        page_said = said;
        all_read = read;
        acknowledged = λ e. rw is (
            stale_kept refreshed_bundle.suggestions (
              (keep-empty_iff (λ s. item_is_stale s.status) refreshed_bundle.suggestions).0
                (acked e)));
        is_accepted = rw is;
        decided_by = rw is;
        all_hold = rw is (
            become-All (λ s. item_is_live s.status ≡ true → check digest db.cache s ≡ fresh)
              (λ s. item_is_accepted s.status ≡ true → check digest db.cache s ≡ fresh)
              refreshed_bundle.suggestions (become-holds digest db.cache) live_hold);
        none_left = rw is (All-settles refreshed_bundle.suggestions);
        same_items = rw is (
            ap (map (become SuggestionStatus.accepted))
              (rw (page-cache db b reviewer through) at (refresh_bundle-items digest page.0 b).1));
      }

  -- An acceptance that is refused leaves the bundle as it was, or as a refresh leaves it.
  accept_refused :
      (r : Refusal)
      → (accept digest db b reviewer through ack).2 ≡ refused r
      → ((accept digest db b reviewer through ack).1 ≡ b)
        ⊎ ((accept digest db b reviewer through ack).1 ≡ (refresh_bundle digest db b).1)
  unfolding accept accept_page
  accept_refused r h = elim (Option-cases page.1) [
    | inr (why, e) ↦ ground (arith, e)
    | inl e ↦
        let same = page-same db b reviewer through e in
        ground (
          arith,
          e,
          same,
          accept_refreshed_refused (refresh_bundle digest page.0 b).0 refreshed_bundle reviewer ack
              r,
        )
  ]

  -- From a page drawn before the last item arrived, or one that does not say what it showed, an
  -- acceptance of a bundle under review is refused and the bundle stays as it was.
  pub accept_unread :
      bundle_is_proposed b.status ≡ true
      → ((through ≡ 0) ⊎ (through < shown_through b))
      → (accept digest db b reviewer through ack).1 ≡ b
        × (r : Refusal) × ((accept digest db b reviewer through ack).2 ≡ refused r)
  unfolding accept accept_page shown_through
  accept_unread h unread = elim (Option-cases page.1) [
    | inr (why, e) ↦ (rw (h, e), why, rw (h, e))
    | inl e ↦
        let (said, read) = (page_iff db b reviewer through).0 e in
        absurd (elim unread [
          | inl nothing ↦ omega arith
          | inr later ↦ omega (arith, last_id-le through b.suggestions read)
        ])
  ]
