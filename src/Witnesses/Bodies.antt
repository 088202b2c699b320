-- ===== src/Witnesses/Bodies.antt =====
-- The theorems on the cache of messages and bodies, at three letters and three bodies.
use ronny_email_worker.Prelude.{
  ℕ, ◌≤◌, ◌≡◌, ◌⊎◌, refl, false, not, ◌&&◌, none, some, [], ◌∷◌, length, arith, any, first, leb,
  ◌==◌,
}
use ronny_email_worker.Text.{text_eq, codes}
use ronny_email_worker.Models.{Message, MessageBody, Finding}
use ronny_email_worker.Content.{content_key}
use ronny_email_worker.Caching.{
  Store, is_address, mechanical_assessment, upsert_message, has_key, new_message, fill,
}
use ronny_email_worker.Caching.Evicting.{total_bytes, evict_bodies}
use ronny_email_worker.Caching.Eviction.{evict_bodies-fits}
use ronny_email_worker.Caching.Contact.{first_contact_lem}
use ronny_email_worker.Caching.Rows.{upsert_message-once}
use ronny_email_worker.Witnesses.Reading.{parsed, reader, store}

-- A body of ten bytes.
abbrev body : ℕ → MessageBody
body n = record {
  id = n;
  message_id = n;
  text_plain = none;
  text_from_html = none;
  links = [];
  attachments = [];
  bytes_stored = 10;
  cached_at = n;
  last_read_at = n;
}

abbrev with_bodies : Store
with_bodies = record store { bodies = body 2 ∷ body 1 ∷ body 3 ∷ [] }

evict_bodies-fits_example :
    (total_bytes (evict_bodies with_bodies 15).0.bodies ≤ 15)
    × ((leb (total_bytes with_bodies.bodies) 15 ≡ false)
        ⊎ (evict_bodies with_bodies 15 ≡ (with_bodies, 0)))
evict_bodies-fits_example = evict_bodies-fits with_bodies 15

upsert_message-once_example :
    let (after, row, created) = upsert_message reader store 1 (parsed (codes "x")) none in
    (first (has_key 1 (content_key reader (parsed (codes "x")))) after.messages ≡ some row)
    × ((upsert_message reader after 1 (parsed (codes "x")) (some 5)).2 ≡ false)
    × (length (upsert_message reader after 1 (parsed (codes "x")) (some 5)).0.messages
        ≡ length after.messages)
    × ((upsert_message reader after 1 (parsed (codes "x")) (some 5)).0.addresses ≡ after.addresses)
    × ((upsert_message reader after 1 (parsed (codes "x")) (some 5)).1.id ≡ row.id)
upsert_message-once_example = upsert_message-once reader store 1 (parsed (codes "x")) none (some 5)

abbrev letter : ℕ → Message
letter id = fill (parsed (codes "x")) none (new_message id 1 (codes "x") 60)

-- The second letter from an address, of three that are cached.
first_contact_lem_example :
    any
      (λ (f : Finding). text_eq f.code (codes "first_contact"))
      (mechanical_assessment reader
        (record store { messages = letter 1 ∷ letter 2 ∷ letter 3 ∷ [] })
        (letter 2)
        (parsed (codes "x"))).findings
    ≡ not (
        any
          (λ (m : Message). m.account_id == 1 && is_address (codes "a@example") m.from_address)
          (letter 1 ∷ []))
first_contact_lem_example =
    first_contact_lem reader (record store { messages = letter 1 ∷ letter 2 ∷ letter 3 ∷ [] })
      (letter 2) (parsed (codes "x")) 97 (codes "@example") (letter 1 ∷ [])
      (letter 2 ∷ letter 3 ∷ []) refl (λ h. ground arith) refl (omega arith, tt)
      (omega arith, (omega arith, tt))
