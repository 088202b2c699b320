-- ===== src/Suggest/Discard/Emptiness.antt =====
-- What `propose_discard` of src/mailmind/suggest/model.py lets through.
use ronny_email_worker.Prelude.{
  ℕ, ◌≡◌, refl, ap, ◌∙◌, ◌⊎◌, inl, inr, ◌+◌, Bool, true, false, Option, none, some, List, [], ◌∷◌,
  is_empty, if◌then◌else◌, mem, All, arith, Option-cases, ◌==◌, ==_iff, ==_refl, length, ltb, first,
}
use ronny_email_worker.Text.{Text}
use ronny_email_worker.Models.{Account, Container, Suggestion, Bundle, health_is_down}
use ronny_email_worker.Scope.{Cache, Db, get_container}
use ronny_email_worker.Staleness.{fresh, live_message_count, check_container, check_in, check}
use ronny_email_worker.Suggest.Names.{is_inbox_name}
use ronny_email_worker.Suggest.Refusal.{Refusal, Result, ok, refused}
use ronny_email_worker.Suggest.Discard.{
  outside, refuse_full, refuse_special, refuse_undiscardable, refuse_any, own_container, also,
  wanted, folder_items, names_of, add_discard, discard_wanted, propose_discard,
}

-- A folder that may go, together with the folders called `going`.
abbrev pub MayGo : Cache → Account → List Text → Container → Type 0
MayGo c account going k =
    (k.discarded_at ≡ none)
    × (is_inbox_name k.name ≡ false)
    × ((k.special_use ≡ none) ⊎ (k.special_use ≡ some []))
    × (live_message_count c k ≡ 0)
    × (is_empty (outside c account.id k going) ≡ true)

refuse_full_lem :
    (c : Cache) (account : Account) (k : Container) (going : List Text)
    → refuse_full c account k going ≡ none
    → (live_message_count c k ≡ 0) × (is_empty (outside c account.id k going) ≡ true)
unfolding refuse_full
refuse_full_lem c account k going h = ground (arith, ==_iff (live_message_count c k) 0)

refuse_special_lem :
    (c : Cache) (account : Account) (k : Container) (going : List Text) (special : Option Text)
    → refuse_special c account k going special ≡ none
    → ((special ≡ none) ⊎ (special ≡ some [])) × (refuse_full c account k going ≡ none)
unfolding refuse_special
refuse_special_lem c account k going none h = (inl refl, h)
refuse_special_lem c account k going (some []) h = (inr refl, h)
refuse_special_lem c account k going (some (u ∷ us)) h = absurd (ground arith)

refuse_undiscardable_lem :
    (c : Cache) (account : Account) (k : Container) (going : List Text)
    → refuse_undiscardable c account k going ≡ none
    → MayGo c account going k
unfolding refuse_undiscardable
refuse_undiscardable_lem c account k going h =
    let special : refuse_special c account k going k.special_use ≡ none = ground arith in
    let (plain, full) = refuse_special_lem c account k going k.special_use special in
    let (empty, alone) = refuse_full_lem c account k going full in
    (ground arith, ground arith, plain, empty, alone)

refuse_any_lem :
    (c : Cache) (account : Account) (ks : List Container) (going : List Text)
    → refuse_any c account ks going ≡ none
    → All (MayGo c account going) ks
unfolding refuse_any
refuse_any_lem c account [] going h = tt
refuse_any_lem c account (k ∷ ks) going h =
    elim (Option-cases (refuse_undiscardable c account k going)) [
      | inl e ↦ (
        refuse_undiscardable_lem c account k going e,
        refuse_any_lem c account ks going (ground arith),
      )
      | inr (r, e) ↦ absurd (ground arith)
    ]

first-id :
    (ks : List Container) (id : ℕ) (k : Container) → first (λ j. j.id == id) ks ≡ some k → k.id ≡ id
first-id [] id k h = ground arith
first-id (j ∷ ks) id k h = ground (arith, first-id ks id k)

own_container_lem :
    (account : Account) (id : ℕ) (o : Option Container) (k : Container)
    → own_container account id o ≡ ok k
    → (o ≡ some k) × (k.account_id ≡ account.id)
unfolding own_container
own_container_lem account id none k h = absurd (ground arith)
own_container_lem account id (some j) k h = ground (arith, ==_iff j.account_id account.id)

-- A folder of the account, as the cache has it under its id.
abbrev pub IsOwn : Cache → Account → Container → Type 0
IsOwn c account k = (get_container c k.id ≡ some k) × (k.account_id ≡ account.id)

own_container-IsOwn :
    (c : Cache) (account : Account) (id : ℕ) (k : Container)
    → own_container account id (get_container c id) ≡ ok k
    → IsOwn c account k
unfolding get_container
own_container-IsOwn c account id k h =
    let (here, own) = own_container_lem account id (get_container c id) k h in
    (ap (get_container c) (first-id c.containers id k here) ∙ here, own)

abbrev AllOwn : Cache → Account → Result (List Container) → Type 0
AllOwn c account (ok ks) = All (IsOwn c account) ks
AllOwn c account (refused r) = Unit

also-AllOwn :
    (c : Cache) (account : Account) (k : Container) (r : Result (List Container))
    → IsOwn c account k
    → AllOwn c account r
    → AllOwn c account (also k r)
also-AllOwn c account k (ok ks) hk h = (hk, h)
also-AllOwn c account k (refused r) hk h = tt

wanted-AllOwn :
    (c : Cache) (account : Account) (seen ids : List ℕ)
    → AllOwn c account (wanted c account seen ids)
unfolding wanted
wanted-AllOwn c account seen [] = tt
wanted-AllOwn c account seen (id ∷ ids) =
    by_seen (mem id seen) (own_container account id (get_container c id)) refl
      (wanted-AllOwn c account seen ids) (wanted-AllOwn c account (id ∷ seen) ids)
  where
    skip : Result (List Container)
    skip = wanted c account seen ids

    rest : Result (List Container)
    rest = wanted c account (id ∷ seen) ids

    by_seen :
        (b : Bool) (r : Result Container)
        → own_container account id (get_container c id) ≡ r
        → AllOwn c account skip
        → AllOwn c account rest
        → AllOwn c account (
            if b then skip else elim r as (λ _. Result (List Container)) [
              | refused why ↦ refused why
              | ok k ↦ also k rest
            ])
    by_seen true r e hs hr = hs
    by_seen false (refused why) e hs hr = tt
    by_seen false (ok k) e hs hr =
        also-AllOwn c account k rest (own_container-IsOwn c account id k e) hr

-- An item for a folder that may go holds at once.
folder_item-fresh :
    (digest : Text → Text) (c : Cache) (account : Account) (going : List Text) (k : Container)
    (s : Suggestion)
    → IsOwn c account k
    → MayGo c account going k
    → s.source_container_id ≡ k.id
    → s.message_id ≡ none
    → s.premise_container_generation ≡ k.generation
    → check digest c s ≡ fresh
unfolding check check_in check_container live_message_count
folder_item-fresh digest c account going k s (here, _) (stays, _, _, empty, _) at about as_of =
    rw (check, at, here, about, as_of, stays, empty, ==_refl k.generation) refl

folder_items-fresh :
    (digest : Text → Text) (c : Cache) (account : Account) (going : List Text) (id bundle_id : ℕ)
    (ks : List Container)
    → All (IsOwn c account) ks
    → All (MayGo c account going) ks
    → All (λ s. check digest c s ≡ fresh) (folder_items id bundle_id ks)
unfolding folder_items
folder_items-fresh digest c account going id bundle_id [] own may = tt
folder_items-fresh digest c account going id bundle_id (k ∷ ks) own may = (
  folder_item-fresh digest c account going k _ own.0 may.0 refl refl refl,
  folder_items-fresh digest c account going (id + 1) bundle_id ks own.1 may.1,
)

-- What a discard that goes through proposes.
abbrev pub Proposes : (Text → Text) → Db → Account → Result Bundle → Type 0
Proposes digest db account (refused r) = Unit
Proposes digest db account (ok b) =
    (ks : List Container) × (b.suggestions ≡ folder_items db.next_suggestion db.next_bundle ks)
    × All (IsOwn db.cache account) ks
    × All (MayGo db.cache account (names_of ks)) ks
    × All (λ s. check digest db.cache s ≡ fresh) b.suggestions

discard_wanted-Proposes :
    (digest : Text → Text) (db : Db) (producer_id : ℕ) (account : Account) (summary reason : Text)
    (expiry_days : ℕ) (r : Result (List Container))
    → AllOwn db.cache account r
    → Proposes digest db account
        (discard_wanted db producer_id account summary reason expiry_days r).1
unfolding discard_wanted add_discard
discard_wanted-Proposes digest db producer_id account summary reason expiry_days (refused r) own =
    tt
discard_wanted-Proposes digest db producer_id account summary reason expiry_days (ok ks) own =
    by_refusal (refuse_any db.cache account ks (names_of ks)) refl
  where
    by_refusal :
        (o : Option Refusal)
        → refuse_any db.cache account ks (names_of ks) ≡ o
        → Proposes digest db account
            (discard_wanted db producer_id account summary reason expiry_days (ok ks)).1
    by_refusal (some r) e = rw (discard_wanted, e) tt
    by_refusal none e =
        let may = refuse_any_lem db.cache account ks (names_of ks) e in
        rw (discard_wanted, e)
          (
            ks,
            refl,
            own,
            may,
            folder_items-fresh digest db.cache account (names_of ks) db.next_suggestion
                db.next_bundle ks own may,
          )

-- A discard that `propose_discard` lets through has one item for each of some folders. Each of them
-- is a folder of the account that is not gone, is not the inbox, has no special use, holds no live
-- message, and has no folder under it that is not among them; and each item holds at once.
pub propose_discard-Proposes :
    (digest : Text → Text) (db : Db) (producer_id : ℕ) (account : Account) (container_ids : List ℕ)
    (summary reason : Text) (expiry_days max_size : ℕ)
    → Proposes digest db account
        (propose_discard db producer_id account container_ids summary reason expiry_days max_size).1
unfolding propose_discard
propose_discard-Proposes digest db producer_id account container_ids summary reason expiry_days
      max_size =
    by_tests _ _ _ (is_empty container_ids) (ltb max_size (length container_ids))
      (health_is_down account.health)
      (discard_wanted-Proposes digest db producer_id account summary reason expiry_days
        (wanted db.cache account [] container_ids)
        (wanted-AllOwn db.cache account [] container_ids))
  where
    done : Db × Result Bundle
    done =
        discard_wanted db producer_id account summary reason expiry_days
          (wanted db.cache account [] container_ids)

    by_tests :
        (x y z : Refusal) (p q h : Bool)
        → Proposes digest db account done.1
        → Proposes digest db account
            (if◌then◌else◌ {A = Db × Result Bundle} p
              (db, refused x)
              (if q then (db, refused y) else if h then (db, refused z) else done)).1
    by_tests x y z true q h k = tt
    by_tests x y z false true h k = tt
    by_tests x y z false false true k = tt
    by_tests x y z false false false k = k
