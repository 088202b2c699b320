-- ===== src/Imap/Sync/Premises.antt =====
-- A sync of src/mailmind/imap/sync.py against the check of src/mailmind/suggest/staleness.py.
use ronny_email_worker.Prelude.{
  ℕ, ◌+◌, ◌≡◌, ap, sym, ◌∙◌, Bool, true, false, not, ◌&&◌, some, List, Memᴰ, ◌==◌, arith, All,
  All-Memᴰ, if◌then◌else◌, is_none, mem, first-holds, first-Memᴰ, opt_eq,
}
use ronny_email_worker.Text.{Text}
use ronny_email_worker.Models.{Account, Container, Placement, Suggestion}
use ronny_email_worker.Scope.{Cache, get_container}
use ronny_email_worker.Staleness.{fresh, check, placement_at}
use ronny_email_worker.Staleness.Check.{MessageHolds, check_message_iff}
use ronny_email_worker.Content.{Reader}
use ronny_email_worker.Imap.Backend.{returned, MailBackend}
use ronny_email_worker.Imap.Sync.Session.{Session}
use ronny_email_worker.Imap.Sync.Container.{SyncReport}
use ronny_email_worker.Imap.Sync.Running.{sync_container}
use ronny_email_worker.Imap.Sync.Vanishing.{Listed, sync_container-kept}

-- The row that `placement_at` finds.
placement_at-found :
    (c : Cache) (container_id generation u : ℕ) (p : Placement)
    → placement_at c container_id generation (some u) ≡ some p
    → ((p.container_id == container_id && p.container_generation == generation && p.uid == u)
        ≡ true)
      × Memᴰ p c.placements
unfolding placement_at
placement_at-found c container_id generation u p h =
    let test : Placement → Bool = λ p.
      p.container_id == container_id
      && p.container_generation == generation
      && opt_eq (some p.uid) (some u) in
    (first-holds test c.placements p h, first-Memᴰ test c.placements p h)

-- A premise that holds names a live placement of its folder.
holds-listed :
    (digest : Text → Text) (c : Cache) (s : Suggestion) (k_id g u : ℕ) (uids : List ℕ)
    → s.source_container_id ≡ k_id
    → s.premise_container_generation ≡ g
    → s.premise_uid ≡ some u
    → All
        (λ (p : Placement).
          (p.container_id == k_id
            && p.container_generation == g
            && is_none p.gone_at
            && not (mem p.uid uids))
          ≡ false)
        c.placements
    → MessageHolds digest c s
    → mem u uids ≡ true
unfolding get_container
holds-listed digest c s k_id g u uids source generation uid kept h =
    let known : (h.container.id == s.source_container_id) ≡ true =
      first-holds (λ (y : Container). y.id == s.source_container_id) c.containers h.container
        h.known in
    let placed : placement_at c h.container.id s.premise_container_generation (some u)
        ≡ some h.placement =
      ap (placement_at c h.container.id s.premise_container_generation) (sym uid) ∙ h.placed in
    let (at, row) =
      placement_at-found c h.container.id s.premise_container_generation u h.placement placed in
    let dead = All-Memᴰ _ c.placements h.placement kept row in
    ground (arith, known, at, dead, h.not_gone, source, generation)

module _ {S : Type 0} (r : Reader) (backend : MailBackend S) (digest : Text → Text) where
  -- After a sync an item is fresh only if the server listed its message: where a sync of the folder
  -- returns, the server listed some uids of the folder, and an item that was taken from the folder
  -- under its generation, about a message, is found stale unless its uid is one of them.
  pub sync_container-check :
      (s t : Session S) (a : Account) (k : Container) (force_full : Bool) (report : SyncReport)
      (item : Suggestion) (m u : ℕ)
      → sync_container r backend s a k force_full ≡ (t, returned report)
      → item.message_id ≡ some m
      → item.source_container_id ≡ k.id
      → item.premise_container_generation
        ≡ (if report.identity_broken then k.generation + 1 else k.generation)
      → item.premise_uid ≡ some u
      → check digest t.store.db.cache item ≡ fresh
      → (uids : List ℕ) × Listed r backend k.name uids × (mem u uids ≡ true)
  sync_container-check s t a k force_full report item m u h about source generation uid still =
      let (uids, listed, kept, _) = sync_container-kept r backend s t a k force_full report h in
      (
        uids,
        listed,
        holds-listed digest t.store.db.cache item k.id
            (if report.identity_broken then k.generation + 1 else k.generation) u uids source
            generation uid kept ((check_message_iff digest t.store.db.cache item m about).0 still),
      )
