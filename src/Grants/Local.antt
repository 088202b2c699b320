-- ===== src/Grants/Local.antt =====
-- `local_context` of src/mailmind/mcp/server.py: the view of a server that a person started over a
-- pipe. `hash` and `mint` are as in Oauth.
use ronny_email_worker.Prelude.{
  ℕ, ◌+◌, ◌≡◌, refl, true, Option, none, some, List, [], ◌∷◌, ◌++◌, Memᴰ, map, ◌==◌, if◌then◌else◌,
  ltb, first, keep, Option-cases, Bool-cases, inl, inr, ◌⊎◌, ==_iff, arith,
}
use mathlib.Core.Path.{subst}
use mathlib.Core.List.Memᴰ.{head, tail}
use ronny_email_worker.Text.{Text, text_eq}
use ronny_email_worker.Models.{
  Account, Capability, capability_value, Grant, Producer, ProducerKind, Value,
}
use ronny_email_worker.Scope.{Db, audit}
use ronny_email_worker.Grants.{View, view, is_live}

-- The tables of who may ask, and how many texts have been minted.
pub record Issuer : Type 0 where
  pub db : Db
  pub producers : List Producer
  pub grants : List Grant
  pub next_producer : ℕ
  pub next_grant : ℕ
  pub minted : ℕ

-- `order_by(created_at.desc())`, the first; of those made at one time, the first in the table.
unfoldable pub newest : List Grant → Option Grant
newest [] = none
newest (g ∷ gs) =
    let later = newest gs in
    elim later [ none ↦ some g | some h ↦ if ltb g.created_at h.created_at then some h else some g ]

abbrev pub grants_of : (producer_id : ℕ) → List Grant → List Grant
grants_of producer_id = keep (λ (g : Grant). g.producer_id == producer_id)

abbrev pub new_producer : (id : ℕ) → Text → Producer
new_producer id name = record {
  id = id;
  kind = ProducerKind.agent;
  name = name;
  current_account_id = none;
}

-- The producer of a name, who is made if there is none.
unfoldable pub producer_named : Issuer → Text → Issuer × Producer
producer_named s name = elim (first (λ (p : Producer). text_eq p.name name) s.producers) [
  | some p ↦ (s, p)
  | none ↦ (
    record s {
      producers = s.producers ++ new_producer s.next_producer name ∷ [];
      next_producer = s.next_producer + 1;
    },
    new_producer s.next_producer name,
  )
]

module _ (hash : Text → Text) (mint : ℕ → Text) where
  -- Every capability, over every account.
  abbrev pub whole_grant : Issuer → (producer_id : ℕ) → Grant
  whole_grant s producer_id = record {
    id = s.next_grant;
    producer_id = producer_id;
    token_hash = hash (mint s.minted);
    capabilities =
        map capability_value (Capability.observe ∷ Capability.suggest ∷ Capability.assess ∷ []);
    client_id = none;
    created_at = s.db.now;
    expires_at = none;
    revoked_at = none;
    accounts = map (λ (a : Account). a.id) s.db.cache.accounts;
  }

  unfoldable pub mint_whole : Issuer → Producer → Issuer
  mint_whole s p = record s {
    db =
        audit "grant_minted" "person" "grant" none (some s.next_grant)
          (("producer", Value.text p.name) ∷ ("transport", Value.word "stdio") ∷ []) s.db;
    grants = s.grants ++ whole_grant s p.id ∷ [];
    next_grant = s.next_grant + 1;
    minted = s.minted + 1;
  }

  -- The newest grant of the producer, if it is live, and else a new one.
  unfoldable pub grant_for : Issuer → Producer → Issuer × Grant
  grant_for s p = elim (newest (grants_of p.id s.grants)) [
    | none ↦ (mint_whole s p, whole_grant s p.id)
    | some g ↦ if is_live s.db.now (some g) then (s, g) else (mint_whole s p, whole_grant s p.id)
  ]

  unfoldable pub local_context : Issuer → (producer_name : Text) → Issuer × View
  local_context s producer_name =
      let (s_named, p) = producer_named s producer_name in
      let (s_granted, g) = grant_for s_named p in (s_granted, view g)

-- The newest grant of a producer is one of the producer's.
newest-own :
    (producer_id : ℕ) (gs : List Grant) (g : Grant)
    → newest (grants_of producer_id gs) ≡ some g
    → ((g.producer_id == producer_id) ≡ true) × Memᴰ g gs
unfolding newest
newest-own producer_id [] g h = ground arith
newest-own producer_id (x ∷ xs) g h = elim (Bool-cases (x.producer_id == producer_id)) [
  | inr e ↦ let rest = newest-own producer_id xs g (ground (arith, e)) in (rest.0, tail rest.1)
  | inl e ↦ elim (Option-cases (newest (grants_of producer_id xs))) [
    | inl f ↦
        let same : some x ≡ some g = ground (arith, e, f) in
        (ground (arith, same, e), head (ground (arith, same)))
    | inr (later, f) ↦
        let rest = newest-own producer_id xs later f in
        elim (Bool-cases (ltb x.created_at later.created_at)) [
          | inl b ↦
              let same : later ≡ g = ground (arith, e, f, b) in
              (
                subst (λ (y : Grant). (y.producer_id == producer_id) ≡ true) same rest.0,
                tail (subst (λ (y : Grant). Memᴰ y xs) same rest.1),
              )
          | inr b ↦
              let same : some x ≡ some g = ground (arith, e, f, b) in
              (ground (arith, same, e), head (ground (arith, same)))
        ]
  ]
]

module _ (hash : Text → Text) (mint : ℕ → Text) where
  -- A server over a pipe acts under a live grant of its own producer, which the service keeps; unless
  -- that grant is one that was there, it is a new one over every account.
  grant_for_lem :
      (s : Issuer) (p : Producer)
      → let (after, g) = grant_for hash mint s p in
        (is_live s.db.now (some g) ≡ true)
        × (g.producer_id ≡ p.id)
        × (((after ≡ s) × Memᴰ g s.grants)
            ⊎ (after.grants ≡ s.grants ++ whole_grant hash mint s p.id ∷ []))
  unfolding grant_for mint_whole is_live
  grant_for_lem s p = elim (Option-cases (newest (grants_of p.id s.grants))) [
    | inl e ↦ rw (grant_for, e) (refl, refl, inr refl)
    | inr (g, e) ↦ elim (Bool-cases (is_live s.db.now (some g))) [
      | inl f ↦
          let own = newest-own p.id s.grants g e in
          rw (grant_for, e, f) (f, (==_iff g.producer_id p.id).0 own.0, inl (refl, own.1))
      | inr f ↦ rw (grant_for, e, f) (refl, refl, inr refl)
    ]
  ]
