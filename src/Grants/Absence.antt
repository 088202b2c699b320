-- ===== src/Grants/Absence.antt =====
-- What the guards of src/mailmind/mcp/server.py let out of the accounts of a grant and of
-- others.
use ronny_email_worker.Prelude.{
  ℕ, ◌≡◌, ◌↔◌, refl, true, false, Option, none, some, List, arith, mem, ◌==◌, first, Option-cases,
  Bool-cases, inl, inr,
}
use ronny_email_worker.Models.{Container, Message, Bundle}
use ronny_email_worker.Scope.{Cache, get_container}
use ronny_email_worker.Grants.{
  View, NotPermitted, within, container, message, no_message, bundle, no_container, no_bundle,
}

module _ {A : Type 0} (v : View) (account_of : A → ℕ) (why : NotPermitted) where
  -- A row of an account outside the grant is answered as one that is absent.
  within_outside :
      (a : A)
      → mem (account_of a) v.account_ids ≡ false
      → within v account_of why (some a) ≡ within v account_of why none
  unfolding within
  within_outside a h = ground arith

  within_agree :
      (o p : Option A)
      → ((a : A) → mem (account_of a) v.account_ids ≡ true → (o ≡ some a) ↔ (p ≡ some a))
      → within v account_of why o ≡ within v account_of why p
  unfolding within
  within_agree none none h = refl
  within_agree none (some b) h = elim (Bool-cases (mem (account_of b) v.account_ids)) [
    | inl e ↦ ground (arith, e, (h b e).1 refl)
    | inr e ↦ ground (arith, e)
  ]
  within_agree (some a) p h = elim (Bool-cases (mem (account_of a) v.account_ids)) [
    | inl e ↦ let same : p ≡ some a = (h a e).0 refl in ground (arith, same)
    | inr e ↦ elim (Option-cases p) [
      | inl f ↦ ground (arith, e, f)
      | inr (b, f) ↦ elim (Bool-cases (mem (account_of b) v.account_ids)) [
        | inl m ↦ let same : some a ≡ some b = (h b m).1 f in ground (arith, e, m, same)
        | inr m ↦ ground (arith, e, f, m)
      ]
    ]
  ]

-- What a tool is answered depends on nothing outside the grant: where two caches, two tables of
-- messages and two of bundles hold the same rows of an id among those of the grant's accounts,
-- `_container`, `_message` and `_bundle` answer alike on both, whatever they hold of other accounts.
pub guards_outside :
    (c d : Cache) (ms ns : List Message) (bs cs : List Bundle) (v : View) (id : ℕ)
    → ((k : Container)
        → mem k.account_id v.account_ids ≡ true
        → (get_container c id ≡ some k) ↔ (get_container d id ≡ some k))
    → ((m : Message)
        → mem m.account_id v.account_ids ≡ true
        → (first (λ (m : Message). m.id == id) ms ≡ some m)
          ↔ (first (λ (m : Message). m.id == id) ns ≡ some m))
    → ((b : Bundle)
        → mem b.account_id v.account_ids ≡ true
        → (first (λ b. b.id == id) bs ≡ some b) ↔ (first (λ b. b.id == id) cs ≡ some b))
    → (container c v id ≡ container d v id)
      × (message ms v id ≡ message ns v id)
      × (bundle bs v id ≡ bundle cs v id)
unfolding container message bundle
guards_outside c d ms ns bs cs v id h i k = (
  within_agree v (λ k. k.account_id) (no_container id) (get_container c id) (get_container d id) h,
  within_agree v (λ (m : Message). m.account_id) (no_message id)
      (first (λ (m : Message). m.id == id) ms) (first (λ (m : Message). m.id == id) ns) i,
  within_agree v (λ b. b.account_id) (no_bundle id) (first (λ b. b.id == id) bs)
      (first (λ b. b.id == id) cs) k,
)
