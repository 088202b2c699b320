-- ===== src/Imap/Sync/Absorbing.antt =====
-- What `_absorb` of src/mailmind/imap/sync.py leaves of one FETCH result.
use ronny_email_worker.Prelude.{
  ℕ, ◌≡◌, ◌≢◌, refl, ap, ◌∙◌, false, none, some, [], ◌∷◌, ==_refl, arith, first, Option-cases, inl,
  inr, is_none, length, first-update_first, first-append_none, first-append_other,
  first-update_first_other, length-update_first,
}
use ronny_email_worker.Text.{sorted, unwords}
use ronny_email_worker.Models.{Account, Container, Placement}
use ronny_email_worker.Staleness.{placement_at}
use ronny_email_worker.Content.{Reader}
use ronny_email_worker.Caching.{
  Store, upsert_message, insert_message, index_message, record_mechanical_assessment,
}
use ronny_email_worker.Imap.Backend.{MessageInfo}
use ronny_email_worker.Imap.Sync.Container.{
  place, observe, new_placement, is_at, absorb_message, absorb_one,
}

-- What was known of the uid, or the new row.
abbrev was_at : Store → Container → MessageInfo → ℕ → Placement
was_at s k info message_id = elim (placement_at s.db.cache k.id k.generation (some info.uid)) [
  | none ↦ new_placement s.next_placement message_id k info.uid s.db.now
  | some p ↦ p
]

pub placement_at-place :
    (s : Store) (k : Container) (info : MessageInfo) (message_id : ℕ)
    → placement_at (place s k info message_id).0.db.cache k.id k.generation (some info.uid)
      ≡ some (observe s.db.now info (was_at s k info message_id))
unfolding place placement_at
placement_at-place s k info message_id =
    let rows = s.db.cache.placements in
    let made =
      observe s.db.now info (new_placement s.next_placement message_id k info.uid s.db.now) in
    elim (Option-cases (first (is_at k info.uid) rows)) [
      | inl e ↦ ground (
        arith,
        e,
        first-append_none (is_at k info.uid) rows (made ∷ []) e,
        ==_refl k.id,
        ==_refl k.generation,
        ==_refl info.uid,
      )
      | inr (p, e) ↦
          ground (
            arith,
            e,
            first-update_first (is_at k info.uid) (observe s.db.now info) rows (λ x. refl),
          )
    ]

place-new :
    (s : Store) (k : Container) (info : MessageInfo) (message_id : ℕ)
    → (place s k info message_id).1
      ≡ is_none (placement_at s.db.cache k.id k.generation (some info.uid))
unfolding place
place-new s k info message_id = ground arith

place-length :
    (s : Store) (k : Container) (info : MessageInfo) (message_id : ℕ)
    → (place s k info message_id).1 ≡ false
    → length (place s k info message_id).0.db.cache.placements ≡ length s.db.cache.placements
unfolding place
place-length s k info message_id h =
    ground
      (arith, length-update_first (is_at k info.uid) (observe s.db.now info) s.db.cache.placements)

-- Another uid of the folder is as it was.
place-other :
    (s : Store) (k : Container) (info : MessageInfo) (message_id u : ℕ)
    → u ≢ info.uid
    → placement_at (place s k info message_id).0.db.cache k.id k.generation (some u)
      ≡ placement_at s.db.cache k.id k.generation (some u)
unfolding place placement_at
place-other s k info message_id u other =
    let rows = s.db.cache.placements in
    let made =
      observe s.db.now info (new_placement s.next_placement message_id k info.uid s.db.now) in
    ground (
      arith,
      first-append_other (is_at k u) rows made (ground (arith, other)),
      first-update_first_other (is_at k info.uid) (is_at k u) (observe s.db.now info) rows
          (λ x e. ground (arith, e, other)) (λ x e. ground (arith, e, other)),
    )

module _ (r : Reader) where
  -- The message, its index row and its findings leave the mailboxes as they are.
  absorb_message-db :
      (s : Store) (a : Account) (info : MessageInfo) → (absorb_message r s a info).0.db ≡ s.db
  unfolding absorb_message upsert_message insert_message index_message record_mechanical_assessment
  absorb_message-db s a info = ground arith

  -- What the server said of a uid is what is found under it: after `_absorb` the folder's placement
  -- of the uid is live and has the flags, sorted, the modseq and the date of the FETCH; the other
  -- uids of the folder are found as they were; and absorbing it again adds no placement.
  pub absorb_roundtrip :
      (s : Store) (a : Account) (k : Container) (info : MessageInfo) (u : ℕ)
      → u ≢ info.uid
      → let after = (absorb_one r s a k info).0 in
        ((p : Placement) × (placement_at after.db.cache k.id k.generation (some info.uid) ≡ some p)
          × (p.gone_at ≡ none)
          × (p.flags ≡ unwords (sorted info.flags))
          × (p.modseq ≡ info.modseq)
          × (p.internaldate ≡ info.internaldate))
        × (placement_at after.db.cache k.id k.generation (some u)
            ≡ placement_at s.db.cache k.id k.generation (some u))
        × ((absorb_one r after a k info).1 ≡ false)
        × (length (absorb_one r after a k info).0.db.cache.placements
            ≡ length after.db.cache.placements)
  unfolding absorb_one
  absorb_roundtrip s a k info u other =
      let (s_message, message_id) = absorb_message r s a info in
      let found = placement_at-place s_message k info message_id in
      let after = (place s_message k info message_id).0 in
      let again = absorb_message r after a info in
      let old : placement_at again.0.db.cache k.id k.generation (some info.uid)
          ≡ some (observe s_message.db.now info (was_at s_message k info message_id)) =
        ap (λ db. placement_at db.cache k.id k.generation (some info.uid))
          (absorb_message-db after a info)
        ∙ found in
      let not_new : (place again.0 k info again.1).1 ≡ false =
        place-new again.0 k info again.1 ∙ ap is_none old in
      (
        (
          observe s_message.db.now info (was_at s_message k info message_id),
          found,
          refl,
          refl,
          refl,
          refl,
        ),
        place-other s_message k info message_id u other
            ∙ ap (λ db. placement_at db.cache k.id k.generation (some u))
                (absorb_message-db s a info),
        not_new,
        place-length again.0 k info again.1 not_new
            ∙ ap (λ db. length db.cache.placements) (absorb_message-db after a info),
      )
