-- ===== src/Caching/Evicting.antt =====
-- `evict_bodies` of src/mailmind/db/cache.py.
use ronny_email_worker.Prelude.{
  ℕ, ◌+◌, ◌-◌, not, List, [], ◌∷◌, ◌==◌, leb, if◌then◌else◌, keep, any, length,
}
use ronny_email_worker.Models.{MessageBody}
use ronny_email_worker.Caching.{Store}

-- `coalesce(sum(bytes_stored), 0)`
unfoldable pub total_bytes : List MessageBody → ℕ
total_bytes [] = 0
total_bytes (b ∷ bs) = b.bytes_stored + total_bytes bs

-- `order_by(last_read_at.asc())`. Rows read at one time stand in the order of the table.
unfoldable pub insert_body : MessageBody → List MessageBody → List MessageBody
insert_body b [] = b ∷ []
insert_body b (x ∷ xs) =
    let later = insert_body b xs in
    if leb b.last_read_at x.last_read_at then b ∷ x ∷ xs else x ∷ later

unfoldable pub by_last_read : List MessageBody → List MessageBody
by_last_read [] = []
by_last_read (b ∷ bs) = insert_body b (by_last_read bs)

-- The loop: the bodies that are deleted, in the order in which they are.
unfoldable pub evicted : (total budget_bytes : ℕ) → List MessageBody → List MessageBody
evicted total budget_bytes [] = []
evicted total budget_bytes (b ∷ bs) =
    let later = evicted (total - b.bytes_stored) budget_bytes bs in
    if leb total budget_bytes then [] else b ∷ later

unfoldable pub evict_bodies : Store → (budget_bytes : ℕ) → Store × ℕ
evict_bodies s budget_bytes =
    let total = total_bytes s.bodies in
    let gone = evicted total budget_bytes (by_last_read s.bodies) in
    if leb total budget_bytes then (s, 0) else (
      record s {
        bodies =
            keep (λ (b : MessageBody). not (any (λ (g : MessageBody). g.id == b.id) gone)) s.bodies;
      },
      length gone,
    )
