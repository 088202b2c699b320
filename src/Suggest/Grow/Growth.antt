-- ===== src/Suggest/Grow/Growth.antt =====
-- What `add_to_bundle` of src/mailmind/suggest/model.py makes of a bundle.
use mathlib.Core.List.{append-nil}
use ronny_email_worker.Prelude.{
  ℕ, ◌+◌, ◌≤◌, ◌≡◌, refl, ap, ◌∙◌, Bool, true, false, Option, none, some, List, [], ◌∷◌, ◌++◌, map,
  ltb, if◌then◌else◌, is_some, is_empty, keep, All, length, arith,
}
use ronny_email_worker.Text.{Text}
use ronny_email_worker.Models.{Account, Placement, Suggestion, Bundle, health_is_down}
use ronny_email_worker.Scope.{Db, Cache}
use ronny_email_worker.Search.{FtsRow}
use ronny_email_worker.Staleness.{refresh_bundle}
use ronny_email_worker.Staleness.Refresh.{refreshed, refresh_bundle-items}
use ronny_email_worker.Suggest.Refusal.{Refusal, Result, ok, refused}
use ronny_email_worker.Suggest.Items.{
  Added, Adding, add_absent, add_unseen, add_message, add_each, add_messages, live_placement, start,
}
use ronny_email_worker.Suggest.Items.Placed.{IsNew}
use ronny_email_worker.Suggest.Items.Classes.{about, HoldsOnce, same_length, add_messages_lem}
use ronny_email_worker.Suggest.Propose.{resolve_query, record_query}
use ronny_email_worker.Suggest.Grow.{
  holds, arriving, refuse_growth, finish_growth, grow_by, grow_in, add_to_bundle,
}
use ronny_email_worker.Suggest.Grow.Room.{add_messages-arriving}

holds-append :
    (ss ts : List Suggestion)
    → length (keep (λ s. is_some s.message_id) (ss ++ ts))
      ≤ length (keep (λ s. is_some s.message_id) ss) + length ts
holds-append [] [] = omega arith
holds-append [] (t ∷ ts) = ground (arith, holds-append [] ts)
holds-append (s ∷ ss) ts = ground (arith, holds-append ss ts)

no-items :
    (ts : List Suggestion) (ms : List ℕ) → length ts ≡ length ms → is_empty ms ≡ true → ts ≡ []
no-items [] ms h e = refl
no-items (t ∷ ts) [] h e = ground arith
no-items (t ∷ ts) (m ∷ ms) h e = ground arith

-- What growing does to the items `old` of a bundle, which new items join.
abbrev pub Grows :
    (old : List Suggestion)
    → (New : Suggestion → Type 0) → (max_size : ℕ) → Bundle
    → Result Added
    → Type 0
Grows old New max_size b (refused _) = b.suggestions ≡ old
Grows old New max_size b (ok a) =
    (holds b ≤ max_size)
    × (1 ≤ length a.added)
    × HoldsOnce b.suggestions
    × (new_items : List Suggestion) × (b.suggestions ≡ old ++ new_items)
    × (map (λ s. s.message_id) new_items ≡ map some a.added)
    × All New new_items

module _ (digest : Text → Text) (bundle : Bundle) (account_id : ℕ)
    (existing : List Suggestion) where
  add_absent_never :
      (a : Adding) (m : ℕ) (o : Option Placement)
      → (add_absent digest bundle account_id false a m o).1 ≡ none
  unfolding add_absent
  add_absent_never a m o = ground arith

  add_message_never :
      (a : Adding) (m : ℕ) → (add_message digest bundle account_id false existing a m).1 ≡ none
  unfolding add_message add_unseen
  add_message_never a m = ground (
    arith,
    add_absent_never (record a { seen = m ∷ a.seen }) m (live_placement a.db.cache account_id m),
  )

  add_each_never :
      (a : Adding) (ms : List ℕ) → (add_each digest bundle account_id false existing a ms).1 ≡ none
  unfolding add_each
  add_each_never a [] = refl
  add_each_never a (m ∷ ms) =
      rw (add_each, add_message_never a m)
        (add_each_never (add_message digest bundle account_id false existing a m).0 ms)

add_messages_never :
    (digest : Text → Text) (bundle : Bundle) (account_id : ℕ) (db : Db) (ms : List ℕ)
    → (add_messages digest bundle account_id false db ms).1 ≡ none
unfolding add_messages
add_messages_never digest bundle account_id db ms =
    add_each_never digest bundle account_id bundle.suggestions
      (start digest bundle account_id false db) ms

about-refreshed :
    (digest : Text → Text) (c : Cache) (m : ℕ) (ss : List Suggestion)
    → about m (map (refreshed digest c) ss) ≡ about m ss
about-refreshed digest c m [] = refl
about-refreshed digest c m (s ∷ ss) = ground (arith, about-refreshed digest c m ss)

if-Grows :
    (old : List Suggestion) (New : Suggestion → Type 0) (max_size : ℕ) (c : Bool)
    (x y : Db × Bundle × Result Added)
    → (c ≡ true → Grows old New max_size x.1 x.2)
    → (c ≡ false → Grows old New max_size y.1 y.2)
    → let (_, b, answer) = if◌then◌else◌ {A = Db × Bundle × Result Added} c x y in
      Grows old New max_size b answer
if-Grows old New max_size true x y hx hy = hx refl
if-Grows old New max_size false x y hx hy = hy refl

module _ (digest : Text → Text) (found : Text → List FtsRow) where
  -- The adding, and what `finish_growth` makes of it.
  finish_growth-Grows :
      (b : Bundle) (producer_id : ℕ) (query : Text) (matched max_size : ℕ)
      (New : Suggestion → Type 0) (a : Adding)
      → holds b + length a.added.added ≤ max_size
      → HoldsOnce a.items
      → (new_items : List Suggestion) → a.items ≡ b.suggestions ++ new_items
      → map (λ s. s.message_id) new_items ≡ map some a.added.added
      → All New new_items
      → let (_, b', answer) = finish_growth b producer_id query matched (a, none) in
        Grows b.suggestions New max_size b' answer
  unfolding finish_growth record_query
  finish_growth-Grows b producer_id query matched max_size New a fits once new_items parts each
        are_new =
      if-Grows b.suggestions New max_size (is_empty a.added.added) _ _
        (λ e.
          parts
          ∙ ap (λ l. b.suggestions ++ l)
              (no-items new_items a.added.added (same_length new_items a.added.added each) e)
          ∙ append-nil b.suggestions)
        (λ e. (
          rw parts (
              omega (
                arith,
                fits,
                same_length new_items a.added.added each,
                holds-append b.suggestions new_items,
              )),
          ground arith,
          once,
          new_items,
          parts,
          each,
          are_new,
        ))

  finish_growth-never :
      (b : Bundle) (producer_id : ℕ) (query : Text) (matched max_size : ℕ)
      (New : Suggestion → Type 0) (p : Adding × Option Refusal)
      → p.1 ≡ none
      → (let (_, b', answer) = finish_growth b producer_id query matched (p.0, none) in
          Grows b.suggestions New max_size b' answer)
      → let (_, b', answer) = finish_growth b producer_id query matched p in
        Grows b.suggestions New max_size b' answer
  finish_growth-never b producer_id query matched max_size New (a, none) e h = h
  finish_growth-never b producer_id query matched max_size New (a, some r) e h =
      absurd (ground arith)

  grow_by-Grows :
      (db : Db) (b : Bundle) (producer_id : ℕ) (account : Account) (query : Text) (max_size : ℕ)
      (r : Result (ℕ × List ℕ))
      → HoldsOnce b.suggestions
      → let (_, b', answer) = grow_by digest found db b producer_id account query max_size r in
        Grows b.suggestions (IsNew digest db.cache account.id db.next_suggestion) max_size b' answer
  unfolding grow_by
  grow_by-Grows db b producer_id account query max_size (refused r) h = refl
  grow_by-Grows db b producer_id account query max_size (ok (matched, ids)) h =
      if-Grows b.suggestions (IsNew digest db.cache account.id db.next_suggestion) max_size
        (ltb max_size (holds b + arriving ids b)) _ _ (λ _. refl)
        (λ e.
          let added = add_messages digest b account.id false db ids in
          let (once, new_items, parts, each, are_new) =
            add_messages_lem digest b account.id false db ids h in
          finish_growth-never b producer_id query matched max_size
            (IsNew digest db.cache account.id db.next_suggestion) added
            (add_messages_never digest b account.id db ids)
            (finish_growth-Grows b producer_id query matched max_size
              (IsNew digest db.cache account.id db.next_suggestion) added.0
              (ground (arith, add_messages-arriving digest b account.id false db ids)) once
              new_items parts each are_new))

  grow_in-Grows :
      (db : Db) (b : Bundle) (producer_id : ℕ) (query : Text) (max_size : ℕ) (account : Account)
      → HoldsOnce b.suggestions
      → let (_, b', answer) = grow_in digest found db b producer_id query max_size account in
        Grows b.suggestions (IsNew digest db.cache account.id db.next_suggestion) max_size b' answer
  unfolding grow_in
  grow_in-Grows db b producer_id query max_size account h =
      if-Grows b.suggestions (IsNew digest db.cache account.id db.next_suggestion) max_size
        (health_is_down account.health) _ _ (λ _. refl)
        (λ _.
          grow_by-Grows db b producer_id account query max_size
            (resolve_query digest found db.cache account query max_size) h)

  -- `add_to_bundle` on a bundle in which no message has two items, against the items as its refresh
  -- leaves them. If it is refused, they stay. If it succeeds, then the bundle holds at most
  -- `max_size` messages; at least one message is reported as added; the items are the old ones, in
  -- their order, and then new, proposed items with new ids, whose messages are those reported as
  -- added, in that order and one for one; the premise of each is a placement of its message that has
  -- not gone, in a folder of the account under that folder's generation, and the generation of
  -- the folder's row; and still no message has two items.
  pub add_to_bundle-Grows :
      (db : Db) (b : Bundle) (account : Account) (producer_id : ℕ) (query : Text) (max_size : ℕ)
      → HoldsOnce b.suggestions
      → let (refreshed_db, b', _) = refresh_bundle digest db b in
        let (_, grown, answer) =
          add_to_bundle digest found db b account producer_id query max_size in
        Grows b'.suggestions
          (IsNew digest refreshed_db.cache account.id refreshed_db.next_suggestion)
          max_size
          grown
          answer
  unfolding add_to_bundle
  add_to_bundle-Grows db b account producer_id query max_size h =
      by_refusal (refuse_growth b' producer_id) refl
    where
      db' : Db
      db' = (refresh_bundle digest db b).0

      b' : Bundle
      b' = (refresh_bundle digest db b).1

      once : HoldsOnce b'.suggestions
      once m =
          rw ((refresh_bundle-items digest db b).1, about-refreshed digest db.cache m b.suggestions)
            (h m)

      by_refusal :
          (o : Option Refusal)
          → refuse_growth b' producer_id ≡ o
          → let (_, grown, answer) =
              add_to_bundle digest found db b account producer_id query max_size in
            Grows b'.suggestions
              (IsNew digest db'.cache account.id db'.next_suggestion)
              max_size
              grown
              answer
      by_refusal none e =
          rw (add_to_bundle, e) (grow_in-Grows db' b' producer_id query max_size account once)
      by_refusal (some r) e = rw (add_to_bundle, e) refl
