-- ===== src/Imap/Sync/Running.antt =====
-- The runs of src/mailmind/imap/sync.py: `sync_container`, `sync_account`, `fetch_and_cache_body` and
-- `messages_to_read`, call by call.
use Prim.Native.String.{String}
use ronny_email_worker.Prelude.{
  ℕ, ◌+◌, Bool, true, false, not, ◌&&◌, ◌||◌, Option, none, some, List, [], ◌∷◌, map, ◌==◌,
  if◌then◌else◌, count_of, is_none, mem,
}
use ronny_email_worker.Text.{text_mem, codes}
use ronny_email_worker.Models.{Account, Container, Placement, Value}
use ronny_email_worker.Scope.{audit}
use ronny_email_worker.Staleness.{is_live_in}
use ronny_email_worker.Content.{Reader}
use ronny_email_worker.Caching.{Store}
use ronny_email_worker.Imap.Backend.{Answer, returned, MessageInfo, SelectInfo, MailBackend}
use ronny_email_worker.Imap.Sync.Session.{
  Session, commit, with_store, ask, and_then, save_in, with_cache, with_db,
}
use ronny_email_worker.Imap.Sync.Container.{SyncReport, break_identity, absorb_all, batches}

-- A placement of the folder that the server does not list.
abbrev pub is_vanished : Container → (present : List ℕ) → Placement → Bool
is_vanished k present p = is_live_in k p && not (mem p.uid present)

abbrev pub vanish : (now : ℕ) → Container → (present : List ℕ) → Placement → Placement
vanish now k present p = if is_vanished k present p then record p { gone_at = some now } else p

-- `_mark_vanished`, once the uids are known.
unfoldable pub mark_vanished : Store → Container → (present : List ℕ) → Store × ℕ
mark_vanished s k present = (
  with_cache (λ c. record c { placements = map (vanish s.db.now k present) c.placements }) s,
  count_of (is_vanished k present) s.db.cache.placements,
)

-- `container.uidvalidity is not None and selected.uidvalidity != container.uidvalidity`
abbrev pub identity_broken : Container → SelectInfo → Bool
identity_broken k selected = elim k.uidvalidity [
  | none ↦ false
  | some v ↦ not (selected.uidvalidity == v)
]

-- What a run read: how much was added and updated, and the uids if it asked for them.
pub record Reading : Type 0 where
  pub added : ℕ
  pub updated : ℕ
  pub present : Option (List ℕ)

-- The columns that are assigned when the folder has been read.
abbrev pub watermarked : (now : ℕ) → (full : Bool) → SelectInfo → Container → Container
watermarked now full selected k = record k {
  uidvalidity = some selected.uidvalidity;
  uidnext = some selected.uidnext;
  highestmodseq = selected.highestmodseq;
  message_count = selected.message_count;
  last_incremental_sync_at = some now;
  last_full_sync_at = if full then some now else k.last_full_sync_at;
}

-- `attrs.asdict(report)`
abbrev pub report_payload : SyncReport → List (String × Value)
report_payload report =
    ("container", Value.text report.container)
    ∷ ("added", Value.num report.added)
    ∷ ("updated", Value.num report.updated)
    ∷ ("vanished", Value.num report.vanished)
    ∷ ("identity_broken", Value.flag report.identity_broken)
    ∷ ("suggestions_killed", Value.num report.suggestions_killed)
    ∷ ("full", Value.flag report.full)
    ∷ []

module _ {S : Type 0} (r : Reader) (backend : MailBackend S) where
  -- `use_condstore`: the server is asked for its capabilities only where the rest holds.
  unfoldable pub use_condstore :
      Session S → Container → (force_full : Bool) → SelectInfo → Session S × Answer Bool
  use_condstore s k force_full selected =
      if force_full || is_none k.highestmodseq || is_none selected.highestmodseq
      then (s, returned false)
      else and_then (ask s backend.capabilities)
          (λ s caps. (s, returned (text_mem (codes "CONDSTORE") caps)))

  -- `absorb` of one batch, which it commits.
  abbrev pub absorb : Session S → Account → Container → List MessageInfo → Session S × ℕ × ℕ
  absorb s a k infos =
      let (store, added, updated) = absorb_all r s.store a k infos in
      (commit (with_store s store), added, updated)

  -- The loop over the batches.
  unfoldable pub read_batches :
      Session S → Account → Container → List (List ℕ) → Session S × Answer (ℕ × ℕ)
  read_batches s a k [] = (s, returned (0, 0))
  read_batches s a k (batch ∷ more) =
      and_then (ask s (backend.fetch_envelopes k.name (map some batch))) (λ s infos.
        let (s', added, updated) = absorb s a k infos in
        and_then (read_batches s' a k more)
          (λ s rest. (s, returned (added + rest.0, updated + rest.1))))

  -- With CONDSTORE: what changed since the folder's watermark.
  unfoldable pub read_changed :
      Session S → Account → Container → (modseq : ℕ) → Session S × Answer Reading
  read_changed s a k modseq =
      and_then (ask s (backend.fetch_changed_since k.name modseq)) (λ s infos.
        let (s', added, updated) = absorb s a k infos in
        (s', returned (record { added = added; updated = updated; present = none })))

  -- Without: everything.
  unfoldable pub read_all : Session S → Account → Container → Session S × Answer Reading
  read_all s a k = and_then (ask s (backend.all_uids k.name)) (λ s present.
      and_then (read_batches s a k (batches present)) (λ s counts.
        (s, returned (record { added = counts.0; updated = counts.1; present = some present }))))

  unfoldable pub read : Session S → Account → Container → Bool → Session S × Answer Reading
  read s a k condstore = elim (if condstore then k.highestmodseq else none) [
    | none ↦ read_all s a k
    | some modseq ↦ read_changed s a k modseq
  ]

  -- The uids of `_mark_vanished`: those that were read, or those that are asked for now.
  unfoldable pub present_uids :
      Session S → Container → Option (List ℕ) → Session S × Answer (List ℕ)
  present_uids s k none = ask s (backend.all_uids k.name)
  present_uids s k (some present) = (s, returned present)

  -- The end of `sync_container`, once the uids are known.
  unfoldable pub finish_sync :
      Session S
      → Container
      → SelectInfo
      → (broken : Bool) → (killed : ℕ) → (full : Bool) → Reading
      → (present : List ℕ) → Session S × Answer SyncReport
  finish_sync s k selected broken killed full reading present =
      let (store, vanished) = mark_vanished s.store k present in
      let report : SyncReport = record {
        container = k.name;
        added = reading.added;
        updated = reading.updated;
        vanished = vanished;
        identity_broken = broken;
        suggestions_killed = killed;
        full = full;
      } in
      let saved = with_cache (save_in (watermarked store.db.now full selected k)) store in
      (
        with_store s (
            with_db saved (
              audit "container_synced" "service" "container" none (some k.id)
                (report_payload report) saved.db)),
        returned report,
      )

  -- `sync_container` from where the folder is selected and its identity settled.
  unfoldable pub sync_settled :
      Session S
      → Account
      → Container
      → SelectInfo
      → (force_full broken : Bool) → (killed : ℕ) → Session S × Answer SyncReport
  sync_settled s a k selected force_full broken killed =
      and_then (use_condstore s k force_full selected) (λ s condstore.
        and_then (read s a k condstore) (λ s reading.
          and_then (present_uids s k reading.present)
            (λ s present. finish_sync s k selected broken killed (not condstore) reading present)))

  unfoldable pub sync_selected :
      Session S
      → Account
      → Container
      → (force_full : Bool) → SelectInfo
      → Session S × Answer SyncReport
  sync_selected s a k force_full selected =
      let (store, renewed, killed) = break_identity s.store k selected.uidvalidity in
      if identity_broken k selected
      then sync_settled (with_store s store) a renewed selected true true killed
      else sync_settled s a k selected force_full false 0

  unfoldable pub sync_container :
      Session S → Account → Container → (force_full : Bool) → Session S × Answer SyncReport
  sync_container s a k force_full =
      and_then (ask s (backend.select k.name true))
        (λ s selected. sync_selected s a k force_full selected)
