-- ===== src/Staleness.antt =====
-- src/mailmind/suggest/staleness.py: did what a suggestion assumed stop being true? `digest` is
-- SHA-256 in hexadecimal, which `flags_hash` of src/mailmind/imap/sync.py calls.
pub mod Check
pub mod Refresh
pub mod Sweep
use Prim.Native.String.{String}
use ronny_email_worker.Prelude.{
  ℕ, ◌+◌, Bool, true, false, not, ◌&&◌, ◌||◌, Option, none, some, List, [], ◌∷◌, ◌++◌, ◌==◌, opt_eq,
  if◌then◌else◌, first, keep, take, count_of, is_none, is_empty, length, mem,
}
use ronny_email_worker.Text.{Text, text_eq, words, unwords, sorted}
use ronny_email_worker.Models.{
  Detail, Container, Placement, Suggestion, Bundle, Value, SuggestionStatus, BundleStatus,
  item_is_live, item_is_stale, bundle_is_proposed, bundle_is_stale,
}
use ronny_email_worker.Scope.{Cache, Db, get_container, audit}

-- `Freshness`: FRESH, or False with what changed.
pub data Freshness : Type 0 where
  fresh : Freshness
  moved : Detail → Freshness

-- The placement of a uid in a container, under a generation.
unfoldable pub placement_at : Cache → (container_id generation : ℕ) → Option ℕ → Option Placement
placement_at c container_id generation uid =
    first
      (λ p.
        p.container_id == container_id
        && p.container_generation == generation
        && opt_eq (some p.uid) uid)
      c.placements

-- The rows that `live_message_count` counts.
abbrev pub is_live_in : Container → Placement → Bool
is_live_in k p =
    p.container_id == k.id && p.container_generation == k.generation && is_none p.gone_at

unfoldable pub live_message_count : Cache → Container → ℕ
live_message_count c k = count_of (is_live_in k) c.placements

unfoldable pub check_container : Cache → Container → Suggestion → Freshness
check_container c k s =
    if not (is_none k.discarded_at)
    then moved (Detail.already_gone k.name)
    else if not (k.generation == s.premise_container_generation)
    then moved (Detail.folder_recreated k.name)
    else if not (live_message_count c k == 0)
    then moved (Detail.no_longer_empty k.name (live_message_count c k))
    else fresh

module _ (digest : Text → Text) where
  -- `flags_hash` of the words of a flags column; and of flags that are already apart.
  unfoldable pub flags_hash_of : List Text → Text
  flags_hash_of flags = take 32 (digest (unwords (sorted flags)))

  unfoldable pub flags_hash : Text → Text
  unfolding flags_hash_of
  flags_hash flags = flags_hash_of (words flags)

  unfoldable pub check_premise : Container → Suggestion → Placement → Freshness
  check_premise k s p = elim s.premise_modseq [
    | some modseq ↦
        if opt_eq p.modseq (some modseq) then fresh else moved (Detail.changed k.name p.flags)
    | none ↦
        if text_eq (flags_hash p.flags) s.premise_flags_hash
        then fresh
        else moved (Detail.flags_changed k.name p.flags)
  ]

  unfoldable pub check_placement : Container → Suggestion → Option Placement → Freshness
  check_placement k s none = moved (Detail.has_left k.name)
  check_placement k s (some p) =
      if is_none p.gone_at then check_premise k s p else moved (Detail.has_left k.name)

  unfoldable pub check_message : Cache → Container → Suggestion → Freshness
  check_message c k s =
      if not (k.generation == s.premise_container_generation)
      then moved (Detail.recreated k.name)
      else check_placement k s (placement_at c k.id s.premise_container_generation s.premise_uid)

  unfoldable pub check_in : Cache → Suggestion → Option Container → Freshness
  check_in c s none = moved Detail.folder_unknown
  check_in c s (some k) =
      if is_none s.message_id then check_container c k s else check_message c k s

  unfoldable pub check : Cache → Suggestion → Freshness
  unfolding check_in
  check c s = check_in c s (get_container c s.source_container_id)

  -- What the loop of `refresh_bundle` does with a verdict.
  unfoldable pub mark : Db → Suggestion → Freshness → Db × Suggestion
  mark db s fresh = (db, s)
  mark db s (moved d) = (
    audit "suggestion_stale" "service" "suggestion" none (some s.id)
        (("detail", Value.detail (some d)) ∷ []) db,
    record s { status = SuggestionStatus.stale; stale_detail = some d },
  )

  -- One round of that loop, with the verdict that it keeps under the item's id.
  unfoldable pub refresh_item : Db → Suggestion → Db × Suggestion × List (ℕ × Freshness)
  refresh_item db s =
      let verdict = check db.cache s in
      let (db', s') = mark db s verdict in
      if item_is_live s.status then (db', s', (s.id, verdict) ∷ []) else (db, s, [])

  unfoldable pub refresh_items : Db → List Suggestion → Db × List Suggestion × List (ℕ × Freshness)
  refresh_items db [] = (db, [], [])
  refresh_items db (s ∷ ss) =
      let (db_item, s', verdict) = refresh_item db s in
      let (db_after, ss', verdicts) = refresh_items db_item ss in
      (db_after, s' ∷ ss', verdict ++ verdicts)

-- `_close_if_nothing_survived`
unfoldable pub close_if_nothing_survived : Db → Bundle → Db × Bundle
close_if_nothing_survived db b =
    let live = keep (λ s. item_is_live s.status) b.suggestions in
    let died = keep (λ s. item_is_stale s.status) b.suggestions in
    if not (bundle_is_proposed b.status)
    then (db, b)
    else if not (is_empty live) || is_empty died
    then (db, b)
    else (
      audit "bundle_stale" "service" "bundle" none (some b.id)
          (("items", Value.num (length died)) ∷ []) db,
      record b { status = BundleStatus.stale },
    )

module _ (digest : Text → Text) where
  unfoldable pub refresh_bundle : Db → Bundle → Db × Bundle × List (ℕ × Freshness)
  refresh_bundle db b =
      let (db_items, items, verdicts) = refresh_items digest db b.suggestions in
      let (db_closed, b') = close_if_nothing_survived db_items (record b { suggestions = items }) in
      (db_closed, b', verdicts)

  -- The rows that `sweep_queue` selects; None stands for every account.
  abbrev pub is_swept : Option (List ℕ) → Bundle → Bool
  is_swept none b = bundle_is_proposed b.status
  is_swept (some ids) b = bundle_is_proposed b.status && mem b.account_id ids

  -- One round of the loop of `sweep_queue`, with what it adds to the count. A bundle that the query
  -- did not select is left alone. The checkpoint commits, which changes nothing that a scope sees.
  unfoldable pub sweep_bundle : Option (List ℕ) → Db → Bundle → Db × Bundle × ℕ
  sweep_bundle ids db b =
      let (db', b', _) = refresh_bundle db b in
      if is_swept ids b then (db', b', if bundle_is_stale b'.status then 1 else 0) else (db, b, 0)

  -- `sweep_queue` over the table of bundles, with how many it closed.
  unfoldable pub sweep_queue : Option (List ℕ) → Db → List Bundle → Db × List Bundle × ℕ
  sweep_queue ids db [] = (db, [], 0)
  sweep_queue ids db (b ∷ bs) =
      let (db_bundle, b', n) = sweep_bundle ids db b in
      let (db_after, bs', closed) = sweep_queue ids db_bundle bs in (db_after, b' ∷ bs', n + closed)
