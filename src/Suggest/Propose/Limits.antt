-- ===== src/Suggest/Propose/Limits.antt =====
-- What `propose_bundle` of src/mailmind/suggest/model.py lets through.
use ronny_email_worker.Prelude.{
  ℕ, zero, suc, ◌≡◌, refl, ap, ◌+◌, ◌≤◌, Bool, true, false, not, Option, none, some, List, [], ◌∷◌,
  is_none, is_empty, if◌then◌else◌, any, keep, take, map, All, All-map, arith, Bool-cases,
  Option-cases, inl, inr, length, ltb, ◌==◌,
}
use ronny_email_worker.Text.{Text}
use ronny_email_worker.Models.{Account, Container, Bundle, SuggestionStatus, BundleStatus}
use ronny_email_worker.Scope.{Cache, Db}
use ronny_email_worker.Search.{
  FtsRow, rows_of, search_where, fts_query, search_messages, count_search_messages,
}
use ronny_email_worker.Suggest.Refusal.{
  Refusal, Result, ok, refused, nothing_to_search_for, nothing_matches, too_many_match,
}
use ronny_email_worker.Suggest.Items.{Adding, is_about, add_messages}
use ronny_email_worker.Suggest.Items.Placed.{IsNew}
use ronny_email_worker.Suggest.Items.Classes.{HoldsOnce, same_length, add_messages_lem}
use ronny_email_worker.Suggest.Grow.{distinct}
use ronny_email_worker.Suggest.Grow.Room.{add_messages-arriving}
use ronny_email_worker.Suggest.Request.{Request, refuse_request, find_target}
use ronny_email_worker.Suggest.Propose.{
  record_query, new_bundle, finish_proposal, resolve_query, find_messages, propose_found,
  propose_towards, propose_bundle,
}

length-keep : (p : ℕ → Bool) (ns : List ℕ) → length (keep p ns) ≤ length ns
length-keep p [] = omega arith
length-keep p (n ∷ ns) = ground (arith, length-keep p ns)

length-distinct : (ns : List ℕ) → length (distinct ns) ≤ length ns
unfolding distinct
length-distinct [] = omega arith
length-distinct (n ∷ ns) = ground (arith, length-distinct ns)

length-take : (n : ℕ) (ms : List FtsRow) → length (take n ms) ≤ n
length-take zero ms = omega arith
length-take (suc n) [] = omega arith
length-take (suc n) (m ∷ ms) = omega (arith, length-take n ms)

length-map : (f : FtsRow → ℕ) (rows : List FtsRow) → length (map f rows) ≡ length rows
length-map f [] = refl
length-map f (row ∷ rows) = ap suc (length-map f rows)

search_messages-le :
    (found : Text → List FtsRow) (c : Cache) (query : Text) (ids : Option (List ℕ)) (limit : ℕ)
    → length (search_messages found c query ids limit) ≤ limit
unfolding search_messages
search_messages-le found c query ids limit =
    let rows = rows_of found (search_where found c query ids) in
    omega (arith, length-map (λ r. r.message_id) (take limit rows), length-take limit rows)

-- A proposal that goes through.
abbrev pub IsWithin : Account → Request → Result Bundle → Type 0
IsWithin account q (refused _) = Unit
IsWithin account q (ok b) =
    (b.status ≡ BundleStatus.proposed)
    × (b.account_id ≡ account.id)
    × (b.operation ≡ q.operation)
    × (length b.suggestions ≤ q.max_size)
    × HoldsOnce b.suggestions
    × All (λ s. s.status ≡ SuggestionStatus.proposed) b.suggestions

-- At most so many messages were named or found.
abbrev AtMost : ℕ → Result (ℕ × List ℕ) → Type 0
AtMost n (refused _) = Unit
AtMost n (ok (_, ids)) = length ids ≤ n

finish_proposal-IsWithin :
    (account : Account) (producer_id : ℕ) (q : Request) (matched : ℕ) (target : Option Container)
    (db : Db) (p : Adding × Option Refusal)
    → length p.0.items ≤ q.max_size
    → HoldsOnce p.0.items
    → All (λ s. s.status ≡ SuggestionStatus.proposed) p.0.items
    → IsWithin account q
        (finish_proposal producer_id q matched target
          (new_bundle db account producer_id q target)
          p).1
unfolding finish_proposal record_query
finish_proposal-IsWithin account producer_id q matched target db (a, some r) fits once proposed = tt
finish_proposal-IsWithin account producer_id q matched target db (a, none) fits once proposed =
    elim (Option-cases q.query) [
      | inl e ↦ rw (finish_proposal, e) (refl, refl, refl, fits, once, proposed)
      | inr (query, e) ↦ elim (Bool-cases (is_empty a.added.added)) [
        | inl empty ↦ rw (finish_proposal, e, empty) tt
        | inr more ↦ rw (finish_proposal, e, more) (refl, refl, refl, fits, once, proposed)
      ]
    ]

module _ (digest : Text → Text) (found : Text → List FtsRow) where
  resolve_query-AtMost :
      (c : Cache) (account : Account) (query : Text) (max_size : ℕ)
      → AtMost max_size (resolve_query digest found c account query max_size)
  unfolding resolve_query
  resolve_query-AtMost c account query max_size =
      by_tests (is_none (fts_query query)) (count_search_messages found c query ids == 0)
        (ltb max_size (count_search_messages found c query ids))
    where
      ids : Option (List ℕ)
      ids = some (account.id ∷ [])

      by_tests :
          (p r t : Bool)
          → AtMost max_size (
              if p
              then refused (nothing_to_search_for query)
              else if r
              then refused (nothing_matches query)
              else if t
              then refused (too_many_match (count_search_messages found c query ids) query max_size)
              else ok (
                count_search_messages found c query ids,
                search_messages found c query ids max_size,
              ))
      by_tests true r t = tt
      by_tests false true t = tt
      by_tests false false true = tt
      by_tests false false false = search_messages-le found c query ids max_size

  find_messages-AtMost :
      (c : Cache) (account : Account) (q : Request)
      → refuse_request account q ≡ none
      → AtMost q.max_size (find_messages digest found c account q)
  unfolding find_messages refuse_request
  find_messages-AtMost c account q h = elim (Option-cases q.query) [
    | inl e ↦ rw (find_messages, e) (ground arith)
    | inr (query, e) ↦ rw (find_messages, e) (resolve_query-AtMost c account query q.max_size)
  ]

  propose_found-IsWithin :
      (db : Db) (producer_id : ℕ) (account : Account) (q : Request) (target : Option Container)
      (r : Result (ℕ × List ℕ))
      → AtMost q.max_size r
      → IsWithin account q (propose_found digest found db producer_id account q target r).1
  unfolding propose_found
  propose_found-IsWithin db producer_id account q target (refused r) h = tt
  propose_found-IsWithin db producer_id account q target (ok (matched, ids)) h =
      let b = new_bundle db account producer_id q target in
      let db' = record db { next_bundle = db.next_bundle + 1 } in
      let (once, new_items, parts, each, are_new) =
        add_messages_lem digest b account.id (is_none q.query) db' ids (λ m. omega arith) in
      finish_proposal-IsWithin account producer_id q matched target db
        (add_messages digest b account.id (is_none q.query) db' ids)
        (ground (
          arith,
          ap length parts,
          same_length new_items _ each,
          add_messages-arriving digest b account.id (is_none q.query) db' ids,
          length-keep (λ m. not (any (is_about m) b.suggestions)) (distinct ids),
          length-distinct ids,
        ))
        once
        (rw parts (
          All-map (IsNew digest db.cache account.id db.next_suggestion)
            (λ s. s.status ≡ SuggestionStatus.proposed) new_items (λ s k. k.0) are_new))

  propose_towards-IsWithin :
      (producer_id : ℕ) (account : Account) (q : Request) (p : Db × Result (Option Container))
      → refuse_request account q ≡ none
      → IsWithin account q (propose_towards digest found producer_id account q p).1
  unfolding propose_towards
  propose_towards-IsWithin producer_id account q (db, refused r) h = tt
  propose_towards-IsWithin producer_id account q (db, ok target) h =
      propose_found-IsWithin db producer_id account q target
        (find_messages digest found db.cache account q) (find_messages-AtMost db.cache account q h)

  -- A proposal that `propose_bundle` lets through is a bundle of the account, waiting to be reviewed,
  -- for the operation that was asked for. It has at most `max_size` items, each of them proposed, and
  -- no message has two of them; whether its messages were named, twice or not, or found.
  pub propose_bundle-IsWithin :
      (db : Db) (producer_id : ℕ) (account : Account) (q : Request)
      → IsWithin account q (propose_bundle digest found db producer_id account q).1
  unfolding propose_bundle
  propose_bundle-IsWithin db producer_id account q =
      elim (Option-cases (refuse_request account q)) [
        | inl e ↦
            rw (propose_bundle, e)
              (propose_towards-IsWithin producer_id account q (find_target db account q) e)
        | inr (r, e) ↦ rw (propose_bundle, e) tt
      ]
