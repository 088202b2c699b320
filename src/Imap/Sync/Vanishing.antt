-- ===== src/Imap/Sync/Vanishing.antt =====
-- What a sync of one folder in src/mailmind/imap/sync.py leaves live.
use ronny_email_worker.Prelude.{
  ℕ, ◌+◌, ◌≡◌, refl, ap, sym, ◌∙◌, Bool, true, false, not, ◌&&◌, Option, none, some, List, [], ◌∷◌,
  map, ◌==◌, arith, All, All-map, if◌then◌else◌, is_none, mem, Bool-cases, inl, inr, ==_refl,
}
use mathlib.Core.Path.{subst}
use ronny_email_worker.Text.{Text}
use ronny_email_worker.Models.{Account, Container, Placement}
use ronny_email_worker.Scope.{audit}
use ronny_email_worker.Content.{Reader}
use ronny_email_worker.Imap.Backend.{Answer, returned, raised, MailBackend, SelectInfo}
use ronny_email_worker.Imap.Sync.Session.{Session, and_then, ask, with_store}
use ronny_email_worker.Imap.Sync.Container.{SyncReport, break_identity, renewed}
use ronny_email_worker.Imap.Sync.Running.{
  Reading, is_vanished, vanish, mark_vanished, finish_sync, watermarked, present_uids, read,
  read_all, read_changed, sync_settled, sync_selected, sync_container, identity_broken,
}

placements_after :
    (now : ℕ) (k : Container) (present : List ℕ) (ps : List Placement)
    → All (λ p. is_vanished k present p ≡ false) (map (vanish now k present) ps)
placements_after now k present [] = tt
placements_after now k present (p ∷ ps) = (ground arith, placements_after now k present ps)

-- No row of a folder is of another generation than the row that is saved.
abbrev pub is_astray : (id generation : ℕ) → Container → Bool
is_astray id generation x = x.id == id && not (x.generation == generation)

save_in-generation :
    (k : Container) (xs : List Container)
    → All
        (λ x. is_astray k.id k.generation x ≡ false)
        (map (λ (x : Container). if x.id == k.id then k else x) xs)
save_in-generation k [] = tt
save_in-generation k (x ∷ xs) = (
  elim (Bool-cases (x.id == k.id)) [
    | inl e ↦ rw e (ground (arith, ==_refl k.generation))
    | inr e ↦ rw e (ground (arith, e))
  ],
  save_in-generation k xs,
)

-- A chain that returned has returned at each call.
pub and_then-returned :
    {S A B : Type 0} (x : Session S × Answer A) (next : Session S → A → Session S × Answer B)
    (s : Session S) (b : B)
    → and_then x next ≡ (s, returned b)
    → (t : Session S) × (a : A) × (x ≡ (t, returned a)) × (next t a ≡ (s, returned b))
unfolding and_then
and_then-returned (t, raised e) next s b h = ground arith
and_then-returned (t, returned a) next s b h = (t, a, refl, h)

pub returned-injective : {A : Type 0} (a b : A) → returned a ≡ returned b → a ≡ b
returned-injective a b h = ground (arith, h)

module _ {S : Type 0} (r : Reader) (backend : MailBackend S) where
  -- The server listed these uids of the folder, when it was asked in some state.
  pub Listed : Text → List ℕ → Type 0
  Listed name uids = (server : S) × ((backend.all_uids name server).1 ≡ returned uids)

  ask-returned :
      {A : Type 0} (s t : Session S) (call : S → S × Answer A) (a : A)
      → ask s call ≡ (t, returned a)
      → (call s.server).1 ≡ returned a
  ask-returned s t call a h = ap (λ x. x.1) h

  read_all-Listed :
      (s t : Session S) (a : Account) (k : Container) (reading : Reading)
      → read_all r backend s a k ≡ (t, returned reading)
      → (uids : List ℕ) × (reading.present ≡ some uids) × Listed k.name uids
  unfolding read_all Listed
  read_all-Listed s t a k reading h =
      let (s_asked, uids, asked, rest) =
        and_then-returned (ask s (backend.all_uids k.name)) _ t reading h in
      let (s_read, counts, done, same) = and_then-returned _ _ t reading rest in
      (
        uids,
        sym (ap (λ (x : Reading). x.present) (returned-injective _ reading (ap (λ x. x.1) same))),
        (s.server, ask-returned s s_asked (backend.all_uids k.name) uids asked),
      )

  read_changed-present :
      (s t : Session S) (a : Account) (k : Container) (modseq : ℕ) (reading : Reading)
      → read_changed r backend s a k modseq ≡ (t, returned reading)
      → reading.present ≡ none
  unfolding read_changed
  read_changed-present s t a k modseq reading h =
      let (s_asked, infos, asked, same) = and_then-returned _ _ t reading h in
      sym (ap (λ (x : Reading). x.present) (returned-injective _ reading (ap (λ x. x.1) same)))

  -- The uids that a reading brings are those that the server listed.
  read-Listed :
      (s t : Session S) (a : Account) (k : Container) (condstore : Bool) (reading : Reading)
      (uids : List ℕ)
      → read r backend s a k condstore ≡ (t, returned reading)
      → reading.present ≡ some uids
      → Listed k.name uids
  unfolding read
  read-Listed s t a k condstore reading uids h e =
      by_watermark (if condstore then k.highestmodseq else none) h
    where
      by_watermark :
          (o : Option ℕ)
          → elim o [
            | none ↦ read_all r backend s a k
            | some modseq ↦ read_changed r backend s a k modseq
          ]
            ≡ (t, returned reading)
          → Listed k.name uids
      by_watermark none h =
          let (listed, f, shown) = read_all-Listed s t a k reading h in
          let same : listed ≡ uids = ground (arith, e, f) in
          subst (λ uids. Listed k.name uids) same shown
      by_watermark (some modseq) h =
          let f = read_changed-present s t a k modseq reading h in ground (arith, e, f)

  present-Listed :
      (s t : Session S) (k : Container) (o : Option (List ℕ)) (uids : List ℕ)
      → ((shown : List ℕ) → o ≡ some shown → Listed k.name shown)
      → present_uids r backend s k o ≡ (t, returned uids)
      → Listed k.name uids
  unfolding present_uids Listed
  present-Listed s t k none uids f h = (s.server, ask-returned s t (backend.all_uids k.name) uids h)
  present-Listed s t k (some shown) uids f h =
      subst (λ uids. Listed k.name uids) (returned-injective shown uids (ap (λ x. x.1) h))
        (f shown refl)

  -- What the theorem below says of a session: the server listed some uids of the folder, a placement
  -- that is live under the generation has one of them, and the folder's row is of that generation.
  abbrev Kept : Container → Session S → Type 0
  Kept k t =
      (uids : List ℕ) × Listed k.name uids
      × All (λ p. is_vanished k uids p ≡ false) t.store.db.cache.placements
      × All (λ x. is_astray k.id k.generation x ≡ false) t.store.db.cache.containers

  finish-kept :
      (s t : Session S) (k : Container) (selected : SelectInfo) (broken : Bool) (killed : ℕ)
      (full : Bool) (reading : Reading) (uids : List ℕ) (report : SyncReport)
      → finish_sync r backend s k selected broken killed full reading uids ≡ (t, returned report)
      → All (λ p. is_vanished k uids p ≡ false) t.store.db.cache.placements
        × All (λ x. is_astray k.id k.generation x ≡ false) t.store.db.cache.containers
        × (report.identity_broken ≡ broken)
        × (report.container ≡ k.name)
  unfolding finish_sync mark_vanished audit
  finish-kept s t k selected broken killed full reading uids report h =
      let state = ap (λ x. x.0) h in
      let value = returned-injective _ report (ap (λ x. x.1) h) in
      (
        subst
            (λ (x : Session S). All (λ p. is_vanished k uids p ≡ false) x.store.db.cache.placements)
            state (placements_after s.store.db.now k uids s.store.db.cache.placements),
        subst
            (λ (x : Session S).
              All (λ c. is_astray k.id k.generation c ≡ false) x.store.db.cache.containers)
            state
            (save_in-generation (watermarked s.store.db.now full selected k)
              s.store.db.cache.containers),
        sym (ap (λ (x : SyncReport). x.identity_broken) value),
        sym (ap (λ (x : SyncReport). x.container) value),
      )

  settled-Kept :
      (s t : Session S) (a : Account) (k : Container) (selected : SelectInfo)
      (force_full broken : Bool) (killed : ℕ) (report : SyncReport)
      → sync_settled r backend s a k selected force_full broken killed ≡ (t, returned report)
      → Kept k t × (report.identity_broken ≡ broken) × (report.container ≡ k.name)
  unfolding sync_settled
  settled-Kept s t a k selected force_full broken killed report h =
      let (s_caps, condstore, asked, rest) = and_then-returned _ _ t report h in
      let (s_read, reading, done, more) = and_then-returned _ _ t report rest in
      let (s_uids, uids, shown, last) = and_then-returned _ _ t report more in
      let kept =
        finish-kept s_uids t k selected broken killed (not condstore) reading uids report last in
      (
        (
          uids,
          present-Listed s_read s_uids k reading.present uids
              (λ listed e. read-Listed s_caps s_read a k condstore reading listed done e) shown,
          kept.0,
          kept.1,
        ),
        kept.2,
        kept.3,
      )

  -- The folder as a report leaves it: under the next generation if its identity broke.
  abbrev at_generation : Container → Bool → Container
  at_generation k broken = record k {
    generation = if broken then k.generation + 1 else k.generation;
  }

  selected-Kept :
      (s t : Session S) (a : Account) (k : Container) (force_full : Bool) (selected : SelectInfo)
      (report : SyncReport)
      → sync_selected r backend s a k force_full selected ≡ (t, returned report)
      → Kept (at_generation k report.identity_broken) t
        × (report.identity_broken ≡ identity_broken k selected)
        × (report.container ≡ k.name)
  unfolding sync_selected break_identity
  selected-Kept s t a k force_full selected report h =
      by_identity (identity_broken k selected) refl h
    where
      by_identity :
          (broken : Bool)
          → identity_broken k selected ≡ broken
          → (if broken
              then sync_settled r backend
                  (with_store s (break_identity s.store k selected.uidvalidity).0)
                  a
                  (renewed k selected.uidvalidity)
                  selected
                  true
                  true
                  (break_identity s.store k selected.uidvalidity).2
              else sync_settled r backend s a k selected force_full false 0)
            ≡ (t, returned report)
          → Kept (at_generation k report.identity_broken) t
            × (report.identity_broken ≡ identity_broken k selected)
            × (report.container ≡ k.name)
      by_identity true e h =
          let (kept, told, named) =
            settled-Kept _ t a (renewed k selected.uidvalidity) selected true true _ report h in
          (subst (λ b. Kept (at_generation k b) t) (sym told) kept, told ∙ sym e, named)
      by_identity false e h =
          let (kept, told, named) = settled-Kept _ t a k selected force_full false _ report h in
          (subst (λ b. Kept (at_generation k b) t) (sym told) kept, told ∙ sym e, named)

  pub sync_container-named :
      (s t : Session S) (a : Account) (k : Container) (force_full : Bool) (report : SyncReport)
      → sync_container r backend s a k force_full ≡ (t, returned report)
      → report.container ≡ k.name
  unfolding sync_container
  sync_container-named s t a k force_full report h =
      let (s_selected, selected, asked, rest) = and_then-returned _ _ t report h in
      (selected-Kept s_selected t a k force_full selected report rest).2

  -- A sync that returns leaves nothing live that has left: the server listed some uids of the folder,
  -- and every placement of the folder that is live under its generation has one of them. That is the
  -- generation that the folder's row has afterwards: the next one if the report says that the identity
  -- broke, and otherwise the one it had.
  pub sync_container-kept :
      (s t : Session S) (a : Account) (k : Container) (force_full : Bool) (report : SyncReport)
      → sync_container r backend s a k force_full ≡ (t, returned report)
      → (uids : List ℕ) × Listed k.name uids
        × All
            (λ p.
              (p.container_id == k.id
                && p.container_generation
                  == (if report.identity_broken then k.generation + 1 else k.generation)
                && is_none p.gone_at
                && not (mem p.uid uids))
              ≡ false)
            t.store.db.cache.placements
        × All
            (λ x.
              (x.id == k.id
                && not (
                    x.generation
                    == (if report.identity_broken then k.generation + 1 else k.generation)))
              ≡ false)
            t.store.db.cache.containers
  unfolding sync_container
  sync_container-kept s t a k force_full report h =
      let (s_selected, selected, asked, rest) = and_then-returned _ _ t report h in
      let (uids, listed, kept, current) =
        (selected-Kept s_selected t a k force_full selected report rest).0 in
      (
        uids,
        listed,
        All-map _ _ t.store.db.cache.placements (λ (p : Placement) e. ground (arith, e)) kept,
        current,
      )
