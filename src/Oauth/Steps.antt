-- ===== src/Oauth/Steps.antt =====
-- The authorization server as a state machine: any order of its operations, src/mailmind/mcp/oauth.py,
-- with whatever else the service does to the grants and the rest of its tables between them.
use ronny_email_worker.Prelude.{
  ℕ, ◌+◌, ◌≤◌, first-holds, first-any-false, ◌&&◌, ◌≡◌, refl, Bool, true, false, some, List, [],
  ◌∷◌, arith, first, any, any-update_first, any-append_one, any-update_first_only, count_of,
  is_some, Option-cases, inl, inr,
}
use ronny_email_worker.Text.{Text, text_eq}
use ronny_email_worker.Models.{Grant, OauthAuthorization}
use ronny_email_worker.Scope.{Db}
use ronny_email_worker.Oauth.Rows.{
  Auth, AuthorizationParams, ClientInfo, TokenPair, code_spent, code_ttl, issued,
}
use ronny_email_worker.Oauth.Codes.{
  authorize, exchange_authorization_code, find_code, has_code, issue, redeemable_grant,
  register_client, use_code,
}
use ronny_email_worker.Oauth.Tokens.{exchange_refresh_token, revoke_token}
use ronny_email_worker.Oauth.Agreeing.{consent}
use ronny_email_worker.Oauth.Spending.{is_unredeemable, unredeemable_refused}

-- One operation of the server. `elsewhere` is what the rest of the service does: time passes, and
-- grants are made and revoked.
pub data Event : Type 0 where
  registers : ClientInfo → Event
  authorizes : (client_id : Text) → AuthorizationParams → Event
  exchanges : (code : Text) → Event
  refreshes revokes : (token : Text) → Event
  consents :
      (request : OauthAuthorization) (producer_id : ℕ) (capabilities : List Text)
      → (account_ids : List ℕ) → Event
  elsewhere : (db : Db) → (grants : List Grant) → (next_grant : ℕ) → Event

module _ (hash : Text → Text) (mint : ℕ → Text) where
  unfoldable step : Auth → Event → Auth
  step a (registers i) = register_client hash mint a i
  step a (authorizes client_id p) = (authorize hash mint a client_id p).0
  step a (exchanges code) = (exchange_authorization_code hash mint a code).0
  step a (refreshes token) = (exchange_refresh_token hash mint a token).0
  step a (revokes token) = revoke_token hash mint a token
  step a (consents request producer_id capabilities account_ids) =
      (consent hash mint a request producer_id capabilities account_ids).0
  step a (elsewhere db grants next_grant) = record a {
    db = db;
    grants = grants;
    next_grant = next_grant;
  }

  unfoldable pub steps : Auth → List Event → Auth
  unfolding step
  steps a [] = a
  steps a (e ∷ es) = steps (step a e) es

  -- A request that the code redeems.
  abbrev redeems : Text → OauthAuthorization → Bool
  redeems code row = has_code hash mint code row && is_some (redeemable_grant hash mint row)

  -- No request redeems the code, and none that is agreed to later will have it.
  abbrev IsSpent : Text → Auth → Type 0
  IsSpent code a =
      (any (redeems code) a.requests ≡ false)
      × ((n : ℕ) → a.minted ≤ n → text_eq (hash (mint n)) (hash code) ≡ false)

  use_code-IsSpent :
      (code other : Text) (a : Auth) → IsSpent code a → IsSpent code (use_code hash mint a other)
  use_code-IsSpent code other a h = (
    any-update_first (redeems code) (has_code hash mint other)
        (λ row. record row { used_at = some a.db.now }) a.requests (λ x e. ground arith) h.0,
    h.1,
  )

  -- All that `IsSpent` reads of a state: its requests, and how much is minted.
  IsSpent-later :
      (code : Text) (a b : Auth)
      → IsSpent code a
      → any (redeems code) b.requests ≡ false
      → a.minted ≤ b.minted
      → IsSpent code b
  IsSpent-later code a b h k le = (k, λ n m. h.1 n (omega arith))

  exchange-later :
      (code other : Text) (a : Auth)
      → IsSpent code a
      → let b = (exchange_authorization_code hash mint a other).0 in
        (any (redeems code) b.requests ≡ false) × (a.minted ≤ b.minted)
  unfolding exchange_authorization_code issue
  exchange-later code other a h = ground (arith, h.0, (use_code-IsSpent code other a h).0)

  refresh-later :
      (token : Text) (a : Auth)
      → let b = (exchange_refresh_token hash mint a token).0 in
        (b.requests ≡ a.requests) × (a.minted ≤ b.minted)
  unfolding exchange_refresh_token issue
  refresh-later token a = ground arith

  revoke-later :
      (token : Text) (a : Auth)
      → let b = revoke_token hash mint a token in (b.requests ≡ a.requests) × (b.minted ≡ a.minted)
  unfolding revoke_token
  revoke-later token a = ground arith

  -- Any step leaves a spent code spent.
  step-IsSpent : (code : Text) (a : Auth) (e : Event) → IsSpent code a → IsSpent code (step a e)
  unfolding step register_client authorize consent
  step-IsSpent code a (registers i) h = h
  step-IsSpent code a (authorizes client_id p) h =
      (any-append_one (redeems code) a.requests _ h.0 refl, λ n le. h.1 n (omega arith))
  step-IsSpent code a (exchanges other) h =
      let (off, le) = exchange-later code other a h in
      IsSpent-later code a (exchange_authorization_code hash mint a other).0 h off le
  step-IsSpent code a (refreshes token) h =
      let (same, le) = refresh-later token a in
      IsSpent-later code a (exchange_refresh_token hash mint a token).0 h (rw same h.0) le
  step-IsSpent code a (revokes token) h =
      let (same, eq) = revoke-later token a in
      IsSpent-later code a (revoke_token hash mint a token) h (rw same h.0) (omega (arith, eq))
  step-IsSpent code a (consents request producer_id capabilities account_ids) h = (
    any-update_first (redeems code) (λ row. text_eq row.request_id request.request_id)
        (λ row. record row {
          grant_id = some a.next_grant;
          code_hash = some (hash (mint (a.minted + 1)));
          code_expires_at = some (a.db.now + code_ttl);
        })
        a.requests (λ x e. ground (arith, h.1 (a.minted + 1) (omega arith))) h.0,
    λ n le. h.1 n (omega arith),
  )
  step-IsSpent code a (elsewhere db grants next_grant) h = h

  steps-IsSpent :
      (code : Text) (a : Auth) (es : List Event) → IsSpent code a → IsSpent code (steps a es)
  unfolding steps
  steps-IsSpent code a [] h = h
  steps-IsSpent code a (e ∷ es) h = steps-IsSpent code (step a e) es (step-IsSpent code a e h)

  -- The exchange of a code that one request at most has spends it.
  exchange-any :
      (a : Auth) (code : Text) (pair : TokenPair)
      → count_of (has_code hash mint code) a.requests ≤ 1
      → (exchange_authorization_code hash mint a code).1 ≡ issued pair
      → let b = (exchange_authorization_code hash mint a code).0 in
        (any (redeems code) b.requests ≡ false) × (a.minted ≤ b.minted)
  unfolding exchange_authorization_code issue
  exchange-any a code pair once done =
      let spent : any (redeems code) (use_code hash mint a code).requests ≡ false =
        any-update_first_only (redeems code) (has_code hash mint code)
          (λ row. record row { used_at = some a.db.now }) a.requests (λ x e. ground (arith, e))
          (λ x. ground arith) once in
      ground (arith, spent, done)

  -- What no request redeems is answered that it is spent.
  any-is_unredeemable :
      (a : Auth) (code : Text)
      → any (redeems code) a.requests ≡ false
      → is_unredeemable hash mint a code ≡ true
  unfolding find_code
  any-is_unredeemable a code h = elim (Option-cases (first (has_code hash mint code) a.requests)) [
    | inl e ↦ ground (arith, e)
    | inr (row, e) ↦
        let off = first-any-false (has_code hash mint code) (redeems code) a.requests row e h in
        let met = first-holds (has_code hash mint code) a.requests row e in
        ground (arith, e, off, met)
  ]

  -- A replay is refused at any later time: when the exchange of a code that one request at most has
  -- issued a pair, and none of the texts minted later hashes to what the code hashes to, then after
  -- any further operations of the server, in any order, with whatever else happens to grants, clock
  -- and tables, the code is refused again and nothing changes.
  pub replay_refused :
      (a : Auth) (code : Text) (pair : TokenPair) (es : List Event)
      → count_of (has_code hash mint code) a.requests ≤ 1
      → ((n : ℕ) → a.minted ≤ n → text_eq (hash (mint n)) (hash code) ≡ false)
      → (exchange_authorization_code hash mint a code).1 ≡ issued pair
      → exchange_authorization_code hash mint
          (steps (exchange_authorization_code hash mint a code).0 es)
          code
        ≡ (steps (exchange_authorization_code hash mint a code).0 es, code_spent)
  replay_refused a code pair es once fresh done =
      let b = (exchange_authorization_code hash mint a code).0 in
      let (off, le) = exchange-any a code pair once done in
      let spent = steps-IsSpent code b es (off, λ n m. fresh n (omega arith)) in
      unredeemable_refused hash mint (steps b es) code
        (any-is_unredeemable (steps b es) code spent.0)
