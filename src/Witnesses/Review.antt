-- ===== src/Witnesses/Review.antt =====
-- The theorems on staleness, on deciding about a bundle and on proposing one, at examples.
use ronny_email_worker.Prelude.{
  ◌≡◌, refl, ◌↔◌, ◌⊎◌, inr, true, false, none, List, [], ◌∷◌, ◌++◌, any, All, arith, map, some,
}
use ronny_email_worker.Models.{
  Suggestion, SuggestionStatus, BundleStatus, item_is_live, item_is_stale, bundle_is_proposed,
}
use ronny_email_worker.Scope.{get_container}
use ronny_email_worker.Text.{codes, words, unwords, strip, ends_with}
use ronny_email_worker.Staleness.{
  fresh, placement_at, check_premise, check_placement, check_message, check_in, check, mark,
  refresh_item, refresh_items, close_if_nothing_survived, refresh_bundle, sweep_queue,
}
use ronny_email_worker.Staleness.Check.{
  MessageHolds, FolderHolds, check_message_iff, check_folder_iff,
}
use ronny_email_worker.Staleness.Refresh.{refresh_bundle-live_fresh, refresh_bundle-stale_iff}
use ronny_email_worker.Staleness.Sweep.{IsCurrent, sweep_queue-IsCurrent}
use ronny_email_worker.Search.Query.{IsExpression, fts_query-IsExpression}
use ronny_email_worker.Search.{
  fts_query, search_where, joined, drop_operators, add_chunks, add_chunk, add_word, add_phrase,
  double_quotes, count_search_messages, search_messages,
}
use ronny_email_worker.Suggest.Refusal.{Refusal, ok, refused}
use ronny_email_worker.Suggest.Decide.{
  last_id, shown_through, refuse_unless_this_is_the_page_they_read, accept_proposed,
  accept_refreshed, accept_page, accept, withdraw,
}
use ronny_email_worker.Suggest.Decide.Acceptance.{Accepted, accept-Accepted, accept_unread}
use ronny_email_worker.Suggest.Decide.Endings.{Ended, withdraw_cases}
use ronny_email_worker.Suggest.Items.{
  add_messages, add_each, add_message, add_unseen, add_held, add_absent, live_placement, latest,
}
use ronny_email_worker.Suggest.Items.Placed.{IsNew}
use ronny_email_worker.Suggest.Items.Classes.{HoldsOnce, add_messages_lem}
use ronny_email_worker.Suggest.Grow.{
  add_to_bundle, refuse_growth, grow_in, grow_by, distinct, finish_growth,
}
use ronny_email_worker.Suggest.Grow.Growth.{Grows, add_to_bundle-Grows}
use ronny_email_worker.Suggest.Propose.{propose_bundle, resolve_query}
use ronny_email_worker.Suggest.Propose.Limits.{IsWithin, propose_bundle-IsWithin}
use ronny_email_worker.Suggest.Discard.{propose_discard}
use ronny_email_worker.Suggest.Discard.Emptiness.{Proposes, propose_discard-Proposes}
use ronny_email_worker.Witnesses.Data.{
  same_text, home, cache, db, item, empty_folder, waiting, spared, half_lost, all_lost, found,
  request,
}

check_message_iff_example :
    (check same_text cache (item SuggestionStatus.proposed) ≡ fresh)
    ↔ MessageHolds same_text cache (item SuggestionStatus.proposed)
check_message_iff_example =
    check_message_iff same_text cache (item SuggestionStatus.proposed) 10 refl

check_folder_iff_example :
    (check same_text cache (empty_folder 4 2) ≡ fresh) ↔ FolderHolds cache (empty_folder 4 2)
check_folder_iff_example = check_folder_iff same_text cache (empty_folder 4 2) refl

refresh_bundle-live_fresh_example :
    All
      (λ s. item_is_live s.status ≡ true → check same_text db.cache s ≡ fresh)
      (refresh_bundle same_text db half_lost).1.suggestions
refresh_bundle-live_fresh_example = refresh_bundle-live_fresh same_text db half_lost

refresh_bundle-stale_iff_example :
    let b' = (refresh_bundle same_text db all_lost).1 in
    (b'.status ≡ BundleStatus.stale) ↔ (
      All (λ s. item_is_live s.status ≡ false) b'.suggestions
      × (any (λ s. item_is_stale s.status) b'.suggestions ≡ true))
refresh_bundle-stale_iff_example = refresh_bundle-stale_iff same_text db all_lost refl

sweep_queue-IsCurrent_example :
    All (IsCurrent same_text db.cache) (sweep_queue same_text none db (half_lost ∷ all_lost ∷ [])).1
sweep_queue-IsCurrent_example = sweep_queue-IsCurrent same_text db (half_lost ∷ all_lost ∷ [])

fts_query-IsExpression_example : IsExpression (fts_query (codes "bill OR \"due NOT"))
fts_query-IsExpression_example = fts_query-IsExpression (codes "bill OR \"due NOT")

accept-Accepted_example : Accepted same_text db waiting 9 4 false
unfolding accept accept_page accept_refreshed accept_proposed
    refuse_unless_this_is_the_page_they_read refresh_bundle refresh_items refresh_item mark check
    check_in check_message check_placement check_premise placement_at get_container
    close_if_nothing_survived
accept-Accepted_example =
    accept-Accepted same_text db waiting 9 4 false (item SuggestionStatus.accepted ∷ []) refl

accept_unread_example :
    (accept same_text db half_lost 9 4 true).1 ≡ half_lost
    × (r : Refusal) × ((accept same_text db half_lost 9 4 true).2 ≡ refused r)
unfolding shown_through last_id
accept_unread_example = accept_unread same_text db half_lost 9 4 true refl (inr (omega arith))

add_messages_lem_example :
    let (a, _) = add_messages same_text spared 1 false db (10 ∷ 11 ∷ 10 ∷ []) in
    HoldsOnce a.items
    × (new_items : List Suggestion) × (a.items ≡ spared.suggestions ++ new_items)
    × (map (λ s. s.message_id) new_items ≡ map some (10 ∷ []))
    × All (IsNew same_text cache 1 6) new_items
unfolding add_messages add_each add_message add_unseen add_held add_absent live_placement latest
add_messages_lem_example =
    add_messages_lem same_text spared 1 false db (10 ∷ 11 ∷ 10 ∷ []) (λ m. ground arith)

add_to_bundle-Grows_example :
    let (_, grown, _) = add_to_bundle same_text found db spared home 5 (codes "bill") 20 in
    Grows spared.suggestions (IsNew same_text cache 1 6) 20 grown (
      ok (record {
        added = 10 ∷ [];
        already_in_target = [];
        not_in_any_folder = [];
        already_here = 11 ∷ [];
        excluded_here = 11 ∷ [];
      }))
unfolding add_to_bundle refresh_bundle refresh_items close_if_nothing_survived refresh_item
    refuse_growth grow_in grow_by resolve_query search_where fts_query joined drop_operators
    add_chunks add_chunk add_word add_phrase double_quotes words unwords strip ends_with
    count_search_messages search_messages distinct finish_growth add_messages add_each add_message
    add_unseen add_held add_absent live_placement latest
add_to_bundle-Grows_example =
    add_to_bundle-Grows same_text found db spared home 5 (codes "bill") 20 (λ m. ground arith)

propose_bundle-IsWithin_example :
    IsWithin home request (propose_bundle same_text found db 5 home request).1
propose_bundle-IsWithin_example = propose_bundle-IsWithin same_text found db 5 home request

propose_discard-Proposes_example :
    Proposes same_text db home (propose_discard db 5 home (2 ∷ 3 ∷ []) [] [] 7 20).1
propose_discard-Proposes_example =
    propose_discard-Proposes same_text db 5 home (2 ∷ 3 ∷ []) [] [] 7 20

withdraw_cases_example :
    Ended BundleStatus.withdrawn SuggestionStatus.withdrawn waiting (withdraw db waiting 5 []).1
      × (waiting.producer_id ≡ 5)
      × ((withdraw db waiting 5 []).2 ≡ ok tt)
    ⊎ ((bundle_is_proposed waiting.status ≡ false) ⊎ ¬ (waiting.producer_id ≡ 5))
      × ((withdraw db waiting 5 []).0 ≡ db)
      × ((withdraw db waiting 5 []).1 ≡ waiting)
      × (r : Refusal) × ((withdraw db waiting 5 []).2 ≡ refused r)
withdraw_cases_example = withdraw_cases db waiting 5 []
