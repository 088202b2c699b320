-- ===== src/Suggest/Items/Classes.antt =====
-- `_add_messages` of src/mailmind/suggest/model.py: what the loop does to the bundle's items. The
-- unique constraint on (bundle_id, message_id) lets a bundle hold a message once.
use mathlib.Core.Path.{subst}
use mathlib.Core.List.{map-append, append-nil, append_assoc}
use ronny_email_worker.Prelude.{
  suc, ℕ, ◌+◌, ◌≤◌, ◌≡◌, refl, sym, ap, ◌∙◌, Bool, true, false, Option, none, some, List, [], ◌∷◌,
  ◌++◌, ==_iff, opt_eq, if◌then◌else◌, first, mem, All, All-append, count_of, length, map, arith,
  Bool-cases, inl, inr,
}
use ronny_email_worker.Text.{Text}
use ronny_email_worker.Models.{Container, Placement, Suggestion, Bundle, item_is_excluded}
use ronny_email_worker.Scope.{Db, Cache}
use ronny_email_worker.Suggest.Refusal.{Refusal}
use ronny_email_worker.Suggest.Items.Placed.{Placed, IsNew, live_placement-Placed, folder_known}
use ronny_email_worker.Suggest.Items.{
  live_placement, Added, Adding, is_about, new_item, generation_of, add_absent, add_held,
  add_unseen, add_message, add_each, start, add_messages,
}

-- How many items are about a message.
abbrev pub about : ℕ → List Suggestion → ℕ
about m = count_of (is_about m)

-- No message has two items.
abbrev pub HoldsOnce : List Suggestion → Type 0
HoldsOnce ss = (m : ℕ) → about m ss ≤ 1

-- What the loop keeps up: the items are the existing ones and then new, proposed items, with ids from
-- `low` on, whose messages are the ids that it reports as added; no message has two items; and a
-- message not yet seen has no new item.
pub record Kept (digest : Text → Text) (account_id : ℕ) (cache : Cache) (existing : List Suggestion)
    (low : ℕ) (a : Adding) : Type 0 where
  pub new_items : List Suggestion
  pub appended : a.items ≡ existing ++ new_items
  pub one_each : map (λ s. s.message_id) new_items ≡ map some a.added.added
  pub are_new : All (IsNew digest cache account_id low) new_items
  pub same_cache : a.db.cache ≡ cache
  pub next : low ≤ a.db.next_suggestion
  pub once : HoldsOnce a.items
  pub unseen : (m : ℕ) → mem m a.seen ≡ false → about m a.items ≡ about m existing

about-first : (m : ℕ) (ss : List Suggestion) → first (is_about m) ss ≡ none → about m ss ≡ 0
about-first m [] h = refl
about-first m (s ∷ ss) h = ground (arith, about-first m ss)

about-snoc :
    (m : ℕ) (ss : List Suggestion) (s : Suggestion)
    → about m (ss ++ s ∷ []) ≡ about m ss + about m (s ∷ [])
about-snoc m [] s = omega arith
about-snoc m (t ∷ ts) s = ground (arith, about-snoc m ts s)

-- As many items as ids.
pub same_length :
    (ss : List Suggestion) (ms : List ℕ)
    → map (λ (s : Suggestion). s.message_id) ss ≡ map some ms
    → length ss ≡ length ms
same_length [] [] h = refl
same_length [] (m ∷ ms) h = ground arith
same_length (s ∷ ss) [] h = ground arith
same_length (s ∷ ss) (m ∷ ms) h = ap suc (same_length ss ms (ground (arith, h)))

module _ (digest : Text → Text) (bundle : Bundle) (account_id : ℕ) (assert_each : Bool)
    (cache : Cache) (existing : List Suggestion) (low : ℕ) where
  -- A new item for a message that has been seen only now and has none.
  added-Kept :
      (a : Adding) (m : ℕ) (p : Placement) (added : Added)
      → Kept digest account_id cache existing low a
      → mem m a.seen ≡ false
      → about m existing ≡ 0
      → added.added ≡ a.added.added ++ m ∷ []
      → Placed cache account_id m p
      → Kept digest account_id cache existing low (record {
        db = record a.db { next_suggestion = a.db.next_suggestion + 1 };
        items = a.items ++ new_item digest bundle account_id assert_each a.db m p ∷ [];
        seen = m ∷ a.seen;
        added = added;
      })
  added-Kept a m p added k not_seen none_here grown placed =
      let item = new_item digest bundle account_id assert_each a.db m p in
      let (folder, known) = folder_known cache account_id m p placed in
      let generation =
        ap (λ c. generation_of c p) k.same_cache
        ∙ ap (λ (o : Option Container). elim o [ none ↦ 0 | some x ↦ x.generation ]) known in
      record {
        new_items = k.new_items ++ item ∷ [];
        appended =
            ap (λ l. l ++ item ∷ []) k.appended ∙ append_assoc existing k.new_items (item ∷ []);
        one_each =
            map-append (λ (s : Suggestion). s.message_id) k.new_items (item ∷ [])
            ∙ ap (λ l. l ++ some m ∷ []) k.one_each
            ∙ sym (map-append some a.added.added (m ∷ []))
            ∙ ap (map some) (sym grown);
        are_new = All-append _ k.new_items (item ∷ []) k.are_new (
          (refl, k.next, m, p, folder, refl, placed, known, refl, generation, refl, refl, refl),
          tt,
        );
        same_cache = k.same_cache;
        next = omega (arith, k.next);
        once = λ n.
            ground (arith, about-snoc n a.items item, k.once n, k.unseen m not_seen, ==_iff m n);
        unseen = λ n h. ground (arith, about-snoc n a.items item, k.unseen n, ==_iff n m);
      }

  -- A message that is only seen.
  seen-Kept :
      (a : Adding) (m : ℕ) (added : Added)
      → Kept digest account_id cache existing low a
      → added.added ≡ a.added.added
      → Kept digest account_id cache existing low (record a { seen = m ∷ a.seen; added = added })
  seen-Kept a m added k same = record {
    new_items = k.new_items;
    appended = k.appended;
    one_each = rw same k.one_each;
    are_new = k.are_new;
    same_cache = k.same_cache;
    next = k.next;
    once = k.once;
    unseen = λ n h. ground (arith, k.unseen n);
  }

  if-Kept :
      (b : Bool) (x y : Adding × Option Refusal)
      → Kept digest account_id cache existing low x.0
      → Kept digest account_id cache existing low y.0
      → Kept digest account_id cache existing low
          (if◌then◌else◌ {A = Adding × Option Refusal} b x y).0
  if-Kept true x y hx hy = hx
  if-Kept false x y hx hy = hy

  add_absent-Kept :
      (a : Adding) (m : ℕ) (o : Option Placement)
      → Kept digest account_id cache existing low a
      → mem m a.seen ≡ false
      → about m existing ≡ 0
      → ((p : Placement) → o ≡ some p → Placed cache account_id m p)
      → Kept digest account_id cache existing low
          (add_absent digest bundle account_id assert_each (record a { seen = m ∷ a.seen }) m o).0
  unfolding add_absent
  add_absent-Kept a m none k h e placed =
      if-Kept assert_each _ _ (seen-Kept a m a.added k refl) (seen-Kept a m _ k refl)
  add_absent-Kept a m (some p) k h e placed =
      if-Kept (opt_eq (some p.container_id) bundle.target_container_id) _ _
        (if-Kept assert_each _ _ (seen-Kept a m a.added k refl) (seen-Kept a m _ k refl))
        (added-Kept a m p _ k h e refl (placed p refl))

  add_held-Kept :
      (a : Adding) (m : ℕ) (s : Suggestion)
      → Kept digest account_id cache existing low a
      → Kept digest account_id cache existing low
          (add_held digest bundle account_id assert_each (record a { seen = m ∷ a.seen }) m s)
  unfolding add_held
  add_held-Kept a m s k = by_status (item_is_excluded s.status)
    where
      by_status :
          (b : Bool)
          → Kept digest account_id cache existing low (
              if b
              then record a {
                seen = m ∷ a.seen;
                added = record a.added {
                  already_here = a.added.already_here ++ m ∷ [];
                  excluded_here = a.added.excluded_here ++ m ∷ [];
                };
              }
              else record a {
                seen = m ∷ a.seen;
                added = record a.added { already_here = a.added.already_here ++ m ∷ [] };
              })
      by_status true = seen-Kept a m _ k refl
      by_status false = seen-Kept a m _ k refl

  add_unseen-Kept :
      (a : Adding) (m : ℕ) (o : Option Suggestion)
      → first (is_about m) existing ≡ o
      → Kept digest account_id cache existing low a
      → mem m a.seen ≡ false
      → Kept digest account_id cache existing low
          (add_unseen digest bundle account_id assert_each existing
            (record a { seen = m ∷ a.seen })
            m).0
  unfolding add_unseen
  add_unseen-Kept a m none e k h =
      rw (add_unseen, e)
        (add_absent-Kept a m (live_placement a.db.cache account_id m) k h (about-first m existing e)
          (λ p f.
            subst (λ c. Placed c account_id m p) k.same_cache
              (live_placement-Placed a.db.cache account_id m p f)))
  add_unseen-Kept a m (some s) e k h = rw (add_unseen, e) (add_held-Kept a m s k)

  add_message-Kept :
      (a : Adding) (m : ℕ)
      → Kept digest account_id cache existing low a
      → Kept digest account_id cache existing low
          (add_message digest bundle account_id assert_each existing a m).0
  unfolding add_message
  add_message-Kept a m k = elim (Bool-cases (mem m a.seen)) [
    | inl e ↦ rw (add_message, e) k
    | inr e ↦ rw (add_message, e) (add_unseen-Kept a m (first (is_about m) existing) refl k e)
  ]

  add_each-Kept :
      (a : Adding) (ms : List ℕ)
      → Kept digest account_id cache existing low a
      → Kept digest account_id cache existing low
          (add_each digest bundle account_id assert_each existing a ms).0
  unfolding add_each
  add_each-Kept a [] k = k
  add_each-Kept a (m ∷ ms) k =
      by_refusal (add_message digest bundle account_id assert_each existing a m).1
        (add_message-Kept a m k)
        (add_each-Kept (add_message digest bundle account_id assert_each existing a m).0 ms
          (add_message-Kept a m k))
    where
      a' : Adding
      a' = (add_message digest bundle account_id assert_each existing a m).0

      rest : Adding × Option Refusal
      rest = add_each digest bundle account_id assert_each existing a' ms

      by_refusal :
          (o : Option Refusal)
          → Kept digest account_id cache existing low a'
          → Kept digest account_id cache existing low rest.0
          → Kept digest account_id cache existing low
              (elim o as (λ _. Adding × Option Refusal) [ some r ↦ (a', some r) | none ↦ rest ]).0
      by_refusal none k k' = k'
      by_refusal (some r) k k' = k

pub add_messages-Kept :
    (digest : Text → Text) (bundle : Bundle) (account_id : ℕ) (assert_each : Bool) (db : Db)
    (ms : List ℕ)
    → HoldsOnce bundle.suggestions
    → Kept digest account_id db.cache bundle.suggestions db.next_suggestion
        (add_messages digest bundle account_id assert_each db ms).0
unfolding add_messages
add_messages-Kept digest bundle account_id assert_each db ms h =
    add_each-Kept digest bundle account_id assert_each db.cache bundle.suggestions
      db.next_suggestion (start digest bundle account_id assert_each db) ms
      (record {
        new_items = [];
        appended = sym (append-nil bundle.suggestions);
        one_each = refl;
        are_new = tt;
        same_cache = refl;
        next = omega arith;
        once = h;
        unseen = λ m _. refl;
      })

-- `_add_messages` on a bundle in which no message has two items, whatever ids it is given, ids that
-- come twice included, and also when it stops at a refusal: the items are those that were there,
-- unchanged and in their order, and then new items, proposed and with new ids, whose messages are the
-- ids that it reports as added, in that order and one for one; the premise of each is a placement of
-- its message that has not gone, in a folder of the account under that folder's generation, and the
-- generation of the folder's row; and again no message has two items.
pub add_messages_lem :
    (digest : Text → Text) (bundle : Bundle) (account_id : ℕ) (assert_each : Bool) (db : Db)
    (ms : List ℕ)
    → HoldsOnce bundle.suggestions
    → let (a, _) = add_messages digest bundle account_id assert_each db ms in
      HoldsOnce a.items
      × (new_items : List Suggestion) × (a.items ≡ bundle.suggestions ++ new_items)
      × (map (λ s. s.message_id) new_items ≡ map some a.added.added)
      × All (IsNew digest db.cache account_id db.next_suggestion) new_items
add_messages_lem digest bundle account_id assert_each db ms h =
    let k = add_messages-Kept digest bundle account_id assert_each db ms h in
    (k.once, k.new_items, k.appended, k.one_each, k.are_new)
