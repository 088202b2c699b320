-- ===== src/Caching/Rows.antt =====
-- The rows that src/mailmind/db/cache.py keeps of a message, and what `known_sender` counts.
use ronny_email_worker.Prelude.{
  ℕ, ◌≤◌, ◌<◌, ◌≡◌, refl, ap, ◌∙◌, Bool, true, false, not, ◌&&◌, Option, some, inl, inr, List, [],
  ◌∷◌, ◌++◌, arith, All, Option-cases, first, any, keep, count_of, length, ltb, ◌==◌, ==_refl,
  first-append_none, first-update_first, length-update_first,
}
use ronny_email_worker.Text.{Text, text_eq_iff}
use ronny_email_worker.Models.{Message, ParsedMessage, IndexEntry}
use ronny_email_worker.Content.{Reader, content_key}
use ronny_email_worker.Caching.{
  Store, has_key, fill, new_message, is_address, upsert_message, insert_message, index_message,
  index_entry, record_mechanical_assessment, is_mechanical_of, mechanical_assessment, known_sender,
}

-- Rows that are replaced by one that is selected are that one.
count-replaced {ℓ} :
    {A : Type ℓ} (p : A → Bool) (xs : List A) (y : A)
    → p y ≡ true
    → count_of p (keep (λ x. not (p x)) xs ++ y ∷ []) ≡ 1
count-replaced p [] y h = ground (arith, h)
count-replaced p (x ∷ xs) y h = ground (arith, count-replaced p xs y h)

keep-replaced {ℓ} :
    {A : Type ℓ} (p : A → Bool) (xs : List A) (y : A)
    → p y ≡ true
    → keep (λ x. not (p x)) (keep (λ x. not (p x)) xs ++ y ∷ []) ≡ keep (λ x. not (p x)) xs
keep-replaced p [] y h = ground (arith, h)
keep-replaced p (x ∷ xs) y h = ground (arith, keep-replaced p xs y h)

-- The senders of the rows that were there first.
any-later :
    (account_id before : ℕ) (address : Text) (rows more : List Message)
    → All (λ (m : Message). m.id < before) rows
    → All (λ (m : Message). before ≤ m.id) more
    → any
        (λ (m : Message).
          m.account_id == account_id && is_address address m.from_address && ltb m.id before)
        (rows ++ more)
      ≡ any (λ (m : Message). m.account_id == account_id && is_address address m.from_address) rows
any-later account_id before address [] [] h k = refl
any-later account_id before address [] (m ∷ more) h k =
    ground (arith, any-later account_id before address [] more tt k.1, k.0)
any-later account_id before address (m ∷ rows) more h k =
    ground (arith, any-later account_id before address rows more h.1 k, h.0)

module _ (r : Reader) where
  -- `first_contact` does not drift: where the rows before a message have smaller ids and those after
  -- it, its own included, do not, the sender is known exactly if a row before it is from the address,
  -- however many messages from it have been cached since.
  pub known_sender-earlier :
      (s : Store) (account_id id : ℕ) (address : Text) (rows more : List Message)
      → s.messages ≡ rows ++ more
      → All (λ (m : Message). m.id < id) rows
      → All (λ (m : Message). id ≤ m.id) more
      → known_sender s account_id address id
        ≡ any
            (λ (m : Message). m.account_id == account_id && is_address address m.from_address)
            rows
  unfolding known_sender
  known_sender-earlier s account_id id address rows more e h k =
      ap
        (any (λ (m : Message).
          m.account_id == account_id && is_address address m.from_address && ltb m.id id))
        e
      ∙ any-later account_id id address rows more h k

  upsert-found :
      (s : Store) (account_id : ℕ) (p : ParsedMessage) (size : Option ℕ)
      → first
          (has_key account_id (content_key r p))
          (upsert_message r s account_id p size).0.messages
        ≡ some (upsert_message r s account_id p size).1
  unfolding upsert_message insert_message
  upsert-found s account_id p size =
      let key = content_key r p in
      let made = fill p size (new_message s.next_message account_id key s.db.now) in
      elim (Option-cases (first (has_key account_id key) s.messages)) [
        | inl e ↦ ground (
          arith,
          e,
          first-append_none (has_key account_id key) s.messages (made ∷ []) e,
          ==_refl account_id,
          (text_eq_iff key key).1 refl,
        )
        | inr (row, e) ↦ ground (
          arith,
          e,
          first-update_first (has_key account_id key) (fill p size) s.messages (λ x. refl),
        )
      ]

  upsert-known :
      (s : Store) (account_id : ℕ) (p : ParsedMessage) (size : Option ℕ) (row : Message)
      → first (has_key account_id (content_key r p)) s.messages ≡ some row
      → ((upsert_message r s account_id p size).2 ≡ false)
        × (length (upsert_message r s account_id p size).0.messages ≡ length s.messages)
        × ((upsert_message r s account_id p size).0.addresses ≡ s.addresses)
        × ((upsert_message r s account_id p size).1.id ≡ row.id)
  unfolding upsert_message
  upsert-known s account_id p size row e = ground (
    arith,
    e,
    length-update_first (has_key account_id (content_key r p)) (fill p size) s.messages,
  )

  -- A message is kept once: the row that `upsert_message` returns is the one that its content key then
  -- finds, and the same message again, whatever its size is said to be, creates nothing, adds no row
  -- and no address, and gives the row of the same id.
  pub upsert_message-once :
      (s : Store) (account_id : ℕ) (p : ParsedMessage) (size again : Option ℕ)
      → let (after, row, created) = upsert_message r s account_id p size in
        (first (has_key account_id (content_key r p)) after.messages ≡ some row)
        × ((upsert_message r after account_id p again).2 ≡ false)
        × (length (upsert_message r after account_id p again).0.messages ≡ length after.messages)
        × ((upsert_message r after account_id p again).0.addresses ≡ after.addresses)
        × ((upsert_message r after account_id p again).1.id ≡ row.id)
  upsert_message-once s account_id p size again =
      let found = upsert-found s account_id p size in
      let (after, row, created) = upsert_message r s account_id p size in
      let same = upsert-known after account_id p again row found in
      (found, same.0, same.1, same.2, same.3)

  -- What the service itself finds of a message is replaced, never added to: afterwards the message has
  -- one mechanical assessment and one row in the index, and every other assessment, a producer's of
  -- this message included, and every other index row is as it was.
  recorded_once :
      (s : Store) (row : Message) (p : ParsedMessage)
      → let after = record_mechanical_assessment r (index_message r s row) row p in
        (count_of (is_mechanical_of r row) after.assessments ≡ 1)
        × (keep (λ a. not (is_mechanical_of r row a)) after.assessments
            ≡ keep (λ a. not (is_mechanical_of r row a)) s.assessments)
        × (count_of (λ (e : IndexEntry). e.message_id == row.id) after.index ≡ 1)
        × (keep (λ (e : IndexEntry). not (e.message_id == row.id)) after.index
            ≡ keep (λ (e : IndexEntry). not (e.message_id == row.id)) s.index)
  unfolding record_mechanical_assessment index_message
  recorded_once s row p =
      let made = mechanical_assessment r (index_message r s row) row p in
      let entry = index_entry r row in
      let own = ==_refl row.id in
      (
        count-replaced (is_mechanical_of r row) s.assessments made (ground (arith, own)),
        keep-replaced (is_mechanical_of r row) s.assessments made (ground (arith, own)),
        count-replaced (λ (e : IndexEntry). e.message_id == row.id) s.index entry own,
        keep-replaced (λ (e : IndexEntry). e.message_id == row.id) s.index entry own,
      )
