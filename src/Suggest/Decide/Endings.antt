-- ===== src/Suggest/Decide/Endings.antt =====
-- How a proposal ends without being accepted: `exclude`, `reject`, `withdraw` and `expire_due` of
-- src/mailmind/suggest/model.py.
use ronny_email_worker.Prelude.{
  ℕ, suc, ◌≡◌, refl, ◌⊎◌, inl, inr, true, false, Option, some, List, [], ◌∷◌, map, arith,
  Bool-cases, ◌==◌, count_of, ap,
}
use ronny_email_worker.Text.{Text}
use ronny_email_worker.Models.{
  Suggestion, Bundle, SuggestionStatus, BundleStatus, item_is_proposed, bundle_is_proposed,
}
use ronny_email_worker.Scope.{Db}
use ronny_email_worker.Suggest.Refusal.{
  Refusal, ok, refused, not_awaiting_review, withdrawn_by_another, cannot_be_withdrawn,
}
use ronny_email_worker.Suggest.Decide.{become, reject, withdraw, is_due, expire, expire_due}

-- Nobody decided about an item again: it had been proposed and has the ending's status, or it is as
-- it was.
abbrev pub EndedAs : SuggestionStatus → List Suggestion → List Suggestion → Type 0
EndedAs status [] [] = Unit {0}
EndedAs status (s ∷ ss) (t ∷ ts) =
    ((item_is_proposed s.status ≡ true) × (t ≡ record s { status = status })
      ⊎ (item_is_proposed s.status ≡ false) × (t ≡ s))
    × EndedAs status ss ts
EndedAs status _ _ = ⊥

become-EndedAs :
    (status : SuggestionStatus) (ss : List Suggestion) → EndedAs status ss (map (become status) ss)
become-EndedAs status [] = tt
become-EndedAs status (s ∷ ss) = (ground arith, become-EndedAs status ss)

-- What an ending has done to a bundle that was under review.
pub record Ended (status : BundleStatus) (items : SuggestionStatus) (b b' : Bundle) : Type 0 where
  pub was_proposed : bundle_is_proposed b.status ≡ true
  pub now_is : b'.status ≡ status
  pub items_ended : EndedAs items b.suggestions b'.suggestions

-- A rejection either goes through on a bundle under review, turns every item still proposed into a
-- rejected one, leaves the others alone and names the reviewer; or changes nothing at all.
reject_cases :
    (db : Db) (b : Bundle) (reviewer : ℕ) (reason : Option Text)
    → Ended BundleStatus.rejected SuggestionStatus.rejected b (reject db b reviewer reason).1
        × ((reject db b reviewer reason).1.decided_by_id ≡ some reviewer)
        × ((reject db b reviewer reason).2 ≡ ok tt)
      ⊎ (bundle_is_proposed b.status ≡ false)
        × ((reject db b reviewer reason).0 ≡ db)
        × ((reject db b reviewer reason).1 ≡ b)
        × ((reject db b reviewer reason).2 ≡ refused (not_awaiting_review b.status))
unfolding reject
reject_cases db b reviewer reason = elim (Bool-cases (bundle_is_proposed b.status)) [
  | inl e ↦ inl (
    record {
      was_proposed = e;
      now_is = rw e;
      items_ended = rw e (become-EndedAs SuggestionStatus.rejected b.suggestions);
    },
    rw e,
    rw e,
  )
  | inr e ↦ inr (e, rw e, rw e, rw e)
]

-- A withdrawal goes through exactly for the producer that made the bundle, on a bundle under review.
-- Then every item still proposed is withdrawn and the others are left alone; otherwise nothing
-- changes at all.
pub withdraw_cases :
    (db : Db) (b : Bundle) (producer : ℕ) (reason : Text)
    → Ended BundleStatus.withdrawn SuggestionStatus.withdrawn b (withdraw db b producer reason).1
        × (b.producer_id ≡ producer)
        × ((withdraw db b producer reason).2 ≡ ok tt)
      ⊎ ((bundle_is_proposed b.status ≡ false) ⊎ ¬ (b.producer_id ≡ producer))
        × ((withdraw db b producer reason).0 ≡ db)
        × ((withdraw db b producer reason).1 ≡ b)
        × (r : Refusal) × ((withdraw db b producer reason).2 ≡ refused r)
unfolding withdraw
withdraw_cases db b producer reason = elim (Bool-cases (b.producer_id == producer)) [
  | inr other ↦ inr (inr (ground arith), rw other, rw other, withdrawn_by_another, rw other)
  | inl mine ↦ elim (Bool-cases (bundle_is_proposed b.status)) [
    | inr e ↦ inr (inl e, rw (mine, e), rw (mine, e), cannot_be_withdrawn b.status, rw (mine, e))
    | inl e ↦ inl (
      record {
        was_proposed = e;
        now_is = rw (mine, e);
        items_ended = rw (mine, e) (become-EndedAs SuggestionStatus.withdrawn b.suggestions);
      },
      ground arith,
      rw (mine, e),
    )
  ]
]

-- What `expire_due` makes of each bundle: a due one has ended, any other is as it was.
abbrev pub Expired : ℕ → List Bundle → List Bundle → Type 0
Expired now [] [] = Unit {0}
Expired now (b ∷ bs) (c ∷ cs) =
    ((is_due now b ≡ true) × Ended BundleStatus.expired SuggestionStatus.expired b c
      ⊎ (is_due now b ≡ false) × (c ≡ b))
    × Expired now bs cs
Expired now _ _ = ⊥

expire_cases :
    (now : ℕ) (db : Db) (b : Bundle)
    → (is_due now b ≡ true)
    → Ended BundleStatus.expired SuggestionStatus.expired b (expire db b).1
unfolding expire
expire_cases now db b e = record {
  was_proposed = ground arith;
  now_is = refl;
  items_ended = become-EndedAs SuggestionStatus.expired b.suggestions;
}

-- Expiry ends exactly the bundles under review whose time is up, leaves every other bundle as it was,
-- and returns how many it ended.
expire_due_lem :
    (now : ℕ) (db : Db) (bs : List Bundle)
    → Expired now bs (expire_due now db bs).1
      × ((expire_due now db bs).2 ≡ count_of (is_due now) bs)
unfolding expire_due
expire_due_lem now db [] = (tt, refl)
expire_due_lem now db (b ∷ bs) = elim (Bool-cases (is_due now b)) [
  | inl e ↦
      let (rest, n) = expire_due_lem now (expire db b).0 bs in
      rw e ((inl (refl, expire_cases now db b e), rest), ap suc n)
  | inr e ↦ let (rest, n) = expire_due_lem now db bs in rw e ((inr (refl, refl), rest), n)
]
