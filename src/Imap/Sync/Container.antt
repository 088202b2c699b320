-- ===== src/Imap/Sync/Container.antt =====
-- One container at a time: `sync_container` of src/mailmind/imap/sync.py and what it calls.
use ronny_email_worker.Prelude.{
  ℕ, ◌+◌, Bool, true, false, ◌&&◌, Option, none, some, List, [], ◌∷◌, ◌++◌, map, ◌==◌,
  if◌then◌else◌, update_first, count_of, is_none, opt_eq, zero, suc, ◌-◌,
}
use ronny_email_worker.Text.{Text, sorted, unwords}
use ronny_email_worker.Models.{
  Account, Container, Placement, Suggestion, Bundle, Detail, SuggestionStatus, Value, item_is_live,
}
use ronny_email_worker.Scope.{audit}
use ronny_email_worker.Staleness.{placement_at, is_live_in}
use ronny_email_worker.Content.{Reader}
use ronny_email_worker.Caching.{Store, upsert_message, index_message, record_mechanical_assessment}
use ronny_email_worker.Imap.Backend.{MessageInfo}
use ronny_email_worker.Imap.Sync.Session.{save_in, with_cache}

pub record SyncReport : Type 0 where
  pub container : Text
  pub added : ℕ
  pub updated : ℕ
  pub vanished : ℕ
  pub identity_broken : Bool
  pub suggestions_killed : ℕ
  pub full : Bool

-- A placement that the folder's old generation leaves, and what `break_identity` makes of it.
abbrev pub end_placement : (now : ℕ) → Container → Placement → Placement
end_placement now k p = if is_live_in k p then record p { gone_at = some now } else p

-- The suggestions that rest on the old generation.
abbrev pub is_doomed : Container → Suggestion → Bool
is_doomed k s =
    s.source_container_id == k.id
    && s.premise_container_generation == k.generation
    && item_is_live s.status

abbrev pub doom : Container → (new_uidvalidity : ℕ) → Suggestion → Suggestion
doom k new_uidvalidity s =
    if is_doomed k s
    then record s {
      status = SuggestionStatus.stale;
      stale_detail = some (Detail.not_identified k.name new_uidvalidity);
    }
    else s

abbrev pub doom_in : Container → ℕ → Bundle → Bundle
doom_in k new_uidvalidity b = record b { suggestions = map (doom k new_uidvalidity) b.suggestions }

unfoldable pub doomed_count : Container → List Bundle → ℕ
doomed_count k [] = 0
doomed_count k (b ∷ bs) = count_of (is_doomed k) b.suggestions + doomed_count k bs

-- The folder under its next generation.
abbrev pub renewed : Container → (new_uidvalidity : ℕ) → Container
renewed k new_uidvalidity = record k {
  generation = k.generation + 1;
  uidvalidity = some new_uidvalidity;
  highestmodseq = none;
}

-- `break_identity`, with the folder as it then is and the suggestions that it killed.
unfoldable pub break_identity : Store → Container → (new_uidvalidity : ℕ) → Store × Container × ℕ
break_identity s k new_uidvalidity =
    let k' = renewed k new_uidvalidity in
    let killed = doomed_count k s.bundles in
    let ended =
      with_cache
        (λ c. save_in k' (record c { placements = map (end_placement s.db.now k) c.placements }))
        s in
    (
      record ended {
        db =
            audit "identity_broken" "service" "container" none (some k.id)
              (("uidvalidity", Value.num new_uidvalidity)
                ∷ ("generation", Value.num k'.generation)
                ∷ ("suggestions_killed", Value.num killed)
                ∷ [])
              ended.db;
        bundles = map (doom_in k new_uidvalidity) s.bundles;
      },
      k',
      killed,
    )

-- The row of a uid in a folder, under the folder's generation.
abbrev pub is_at : Container → (uid : ℕ) → Placement → Bool
is_at k uid p =
    p.container_id == k.id
    && p.container_generation == k.generation
    && opt_eq (some p.uid) (some uid)

-- `Placement(message_id=…, container_id=…, uid=…, container_generation=…)`
abbrev pub new_placement : (id message_id : ℕ) → Container → (uid now : ℕ) → Placement
new_placement id message_id k uid now = record {
  id = id;
  message_id = message_id;
  container_id = k.id;
  uid = uid;
  container_generation = k.generation;
  modseq = none;
  flags = [];
  internaldate = none;
  seen_at = now;
  gone_at = none;
}

-- The columns that every FETCH assigns.
abbrev pub observe : (now : ℕ) → MessageInfo → Placement → Placement
observe now info p = record p {
  modseq = info.modseq;
  flags = unwords (sorted info.flags);
  internaldate = info.internaldate;
  seen_at = now;
  gone_at = none;
}

-- The second half of `_absorb`: the placement of the message.
unfoldable pub place : Store → Container → MessageInfo → (message_id : ℕ) → Store × Bool
place s k info message_id =
    if is_none (placement_at s.db.cache k.id k.generation (some info.uid))
    then (
      record (with_cache
          (λ c. record c {
            placements =
                c.placements
                ++ observe s.db.now info
                    (new_placement s.next_placement message_id k info.uid s.db.now)
                  ∷ [];
          })
          s) { next_placement = s.next_placement + 1 },
      true,
    )
    else (
      with_cache
          (λ c. record c {
            placements = update_first (is_at k info.uid) (observe s.db.now info) c.placements;
          })
          s,
      false,
    )

-- `info.raw or info.headers or b""`
abbrev pub bytes_of : MessageInfo → Text
bytes_of info = elim info.raw [
  | some (c ∷ t) ↦ c ∷ t
  | _ ↦ elim info.headers [ none ↦ [] | some t ↦ t ]
]

-- `info.size or None`
abbrev pub size_of : ℕ → Option ℕ
size_of n = if n == 0 then none else some n

module _ (r : Reader) where
  -- The first half of `_absorb`: the message, with the row's id.
  unfoldable pub absorb_message : Store → Account → MessageInfo → Store × ℕ
  absorb_message s a info =
      let parsed = r.parse_message (bytes_of info) (is_none info.raw) in
      let (s', row, _) = upsert_message r s a.id parsed (size_of info.size) in
      (record_mechanical_assessment r (index_message r s' row) row parsed, row.id)

  -- `_absorb`, with whether it was new here.
  unfoldable pub absorb_one : Store → Account → Container → MessageInfo → Store × Bool
  absorb_one s a k info =
      let (s', message_id) = absorb_message s a info in place s' k info message_id

  -- The loop of `absorb`, with how many were added and how many updated.
  unfoldable pub absorb_all : Store → Account → Container → List MessageInfo → Store × ℕ × ℕ
  absorb_all s a k [] = (s, 0, 0)
  absorb_all s a k (info ∷ infos) =
      let (s_one, was_added) = absorb_one s a k info in
      let (s_all, added, updated) = absorb_all s_one a k infos in
      (
        s_all,
        (if was_added then added + 1 else added),
        (if was_added then updated else updated + 1),
      )

-- FETCH_BATCH
abbrev pub fetch_batch : ℕ
fetch_batch = 200

-- `present[start : start + FETCH_BATCH]` for each start: `batch` is the batch being filled, which has
-- `room` left.
unfoldable pub batches_from : (size room : ℕ) → (batch : List ℕ) → List ℕ → List (List ℕ)
batches_from size room [] [] = []
batches_from size room (b ∷ bs) [] = (b ∷ bs) ∷ []
batches_from size zero batch (u ∷ us) = batch ∷ batches_from size size (u ∷ []) us
batches_from size (suc room) batch (u ∷ us) = batches_from size room (batch ++ u ∷ []) us

unfoldable pub batches : List ℕ → List (List ℕ)
batches present = batches_from (fetch_batch - 1) fetch_batch [] present
