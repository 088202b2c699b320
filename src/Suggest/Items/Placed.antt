-- ===== src/Suggest/Items/Placed.antt =====
-- What an item that `_add_messages` of src/mailmind/suggest/model.py makes rests on: the placement that
-- `_live_placement` has found.
use mathlib.Core.List.Memᴰ.{head, tail}
use ronny_email_worker.Prelude.{
  ℕ, ◌≤◌, ◌≡◌, refl, ap, ◌∙◌, Bool, true, false, Option, none, some, List, [], ◌∷◌, ◌&&◌, ◌==◌,
  ==_iff, Memᴰ, any, first, keep, ltb, if◌then◌else◌, arith, Bool-cases, inl, inr,
}
use ronny_email_worker.Text.{Text}
use ronny_email_worker.Models.{Container, Placement, Suggestion, SuggestionStatus}
use ronny_email_worker.Scope.{Cache, get_container}
use ronny_email_worker.Staleness.{flags_hash}
use ronny_email_worker.Suggest.Items.{live_placement, is_live_placement, latest}

-- A placement of a message that has not gone, in a folder of the account under its generation.
abbrev pub Placed : Cache → (account_id message_id : ℕ) → Placement → Type 0
Placed c account_id message_id p =
    Memᴰ p c.placements
    × (p.message_id ≡ message_id)
    × (p.gone_at ≡ none)
    × (any
          (λ (k : Container).
            k.id == p.container_id
            && k.account_id == account_id
            && p.container_generation == k.generation)
          c.containers
        ≡ true)

-- A proposed item with an id from `low` on, whose premise is such a placement of its message.
abbrev pub IsNew : (Text → Text) → Cache → (account_id low : ℕ) → Suggestion → Type 0
IsNew digest c account_id low s =
    (s.status ≡ SuggestionStatus.proposed)
    × (low ≤ s.id)
    × (m : ℕ) × (p : Placement) × (k : Container) × (s.message_id ≡ some m)
    × Placed c account_id m p
    × (get_container c p.container_id ≡ some k)
    × (s.source_container_id ≡ p.container_id)
    × (s.premise_container_generation ≡ k.generation)
    × (s.premise_uid ≡ some p.uid)
    × (s.premise_modseq ≡ p.modseq)
    × (s.premise_flags_hash ≡ flags_hash digest p.flags)

latest-Memᴰ : (ps : List Placement) (p : Placement) → latest ps ≡ some p → Memᴰ p ps
unfolding latest
latest-Memᴰ [] p h = ground arith
latest-Memᴰ (q ∷ ps) p h = by_rest (latest ps) (λ e. latest-Memᴰ ps p e) h
  where
    by_rest :
        (o : Option Placement)
        → (o ≡ some p → Memᴰ p ps)
        → elim o as (λ _. Option Placement) [
          | none ↦ some q
          | some r ↦ if ltb q.seen_at r.seen_at then some r else some q
        ]
          ≡ some p
        → Memᴰ p (q ∷ ps)
    by_rest none rest e = head (ground (arith, e))
    by_rest (some r) rest e = elim (Bool-cases (ltb q.seen_at r.seen_at)) [
      | inl f ↦ tail (rest (ground (arith, e, f)))
      | inr f ↦ head (ground (arith, e, f))
    ]

Memᴰ-keep :
    (f : Placement → Bool) (ps : List Placement) (p : Placement)
    → Memᴰ p (keep f ps)
    → Memᴰ p ps × (f p ≡ true)
Memᴰ-keep f [] p h = elim h [ ]
Memᴰ-keep f (q ∷ ps) p h = by_test (f q) refl h (λ m. Memᴰ-keep f ps p m)
  where
    by_test :
        (v : Bool)
        → f q ≡ v
        → Memᴰ p (if v then q ∷ keep f ps else keep f ps)
        → (Memᴰ p (keep f ps) → Memᴰ p ps × (f p ≡ true))
        → Memᴰ p (q ∷ ps) × (f p ≡ true)
    by_test true e (head same) rest = (head same, ap f same ∙ e)
    by_test true e (tail m) rest = (tail (rest m).0, (rest m).1)
    by_test false e m rest = (tail (rest m).0, (rest m).1)

pub live_placement-Placed :
    (c : Cache) (account_id m : ℕ) (p : Placement)
    → live_placement c account_id m ≡ some p
    → Placed c account_id m p
unfolding live_placement
live_placement-Placed c account_id m p h =
    let (row, live) =
      Memᴰ-keep (is_live_placement c account_id m) c.placements p (latest-Memᴰ _ p h) in
    (
      row,
      (==_iff p.message_id m).0 (ground (arith, live)),
      ground (arith, live),
      ground (arith, live),
    )

any-first :
    (p q : Container → Bool) (ks : List Container)
    → ((k : Container) → q k ≡ true → p k ≡ true)
    → any q ks ≡ true
    → (k : Container) × (first p ks ≡ some k)
any-first p q [] f h = ground arith
any-first p q (x ∷ xs) f h = elim (Bool-cases (p x)) [
  | inl e ↦ (x, rw e refl)
  | inr e ↦ let (k, found) = any-first p q xs f (ground (arith, e, f x)) in (k, rw e found)
]

-- The folder of such a placement is a row that its id finds.
pub folder_known :
    (c : Cache) (account_id m : ℕ) (p : Placement)
    → Placed c account_id m p
    → (k : Container) × (get_container c p.container_id ≡ some k)
unfolding get_container
folder_known c account_id m p (_, _, _, h) =
    any-first (λ (k : Container). k.id == p.container_id) _ c.containers (λ k e. ground (arith, e))
      h
