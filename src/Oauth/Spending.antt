-- ===== src/Oauth/Spending.antt =====
-- `exchange_authorization_code` and `exchange_refresh_token` in src/mailmind/mcp/oauth.py, when
-- they are called again.
use ronny_email_worker.Prelude.{
  ℕ, not, ◌≡◌, refl, Bool, true, false, none, some, List, [], ◌∷◌, inl, inr, ◌+◌, ◌++◌, arith, ap,
  first-update_first, first-append_some, Option-cases,
}
use ronny_email_worker.Text.{Text}
use ronny_email_worker.Models.{OauthToken, OauthTokenKind, is_refresh}
use ronny_email_worker.Oauth.Rows.{
  Auth, TokenPair, access_ttl, code_spent, issued, live_token, refresh_spent, refresh_ttl,
}
use ronny_email_worker.Oauth.Codes.{
  exchange_authorization_code, find_code, has_code, issue, load_authorization_code, new_token,
  redeemable_grant, use_code,
}
use ronny_email_worker.Oauth.Tokens.{
  exchange_refresh_token, find_token, is_token, load_refresh_token, revoke_first,
}

module _ (hash : Text → Text) (mint : ℕ → Text) where
  -- What an exchange of a row makes of the requests.
  find_code-use_code :
      (a : Auth) (code : Text)
      → find_code hash mint (use_code hash mint a code) code ≡ elim (find_code hash mint a code) [
        | none ↦ none
        | some row ↦ some (record row { used_at = some a.db.now })
      ]
  unfolding find_code
  find_code-use_code a code =
      first-update_first (has_code hash mint code) (λ row. record row { used_at = some a.db.now })
        a.requests (λ row. refl)

  -- A code that is not redeemable: it names no row, or one that is used or has no grant.
  abbrev pub is_unredeemable : Auth → Text → Bool
  is_unredeemable a code = elim (find_code hash mint a code) [
    | none ↦ true
    | some row ↦ elim (redeemable_grant hash mint row) [ none ↦ true | some _ ↦ false ]
  ]

  exchange-is_unredeemable :
      (a : Auth) (code : Text)
      → is_unredeemable (exchange_authorization_code hash mint a code).0 code ≡ true
  unfolding exchange_authorization_code issue find_code
  exchange-is_unredeemable a code = ground (arith, find_code-use_code a code)

  pub unredeemable_refused :
      (a : Auth) (code : Text)
      → is_unredeemable a code ≡ true
      → exchange_authorization_code hash mint a code ≡ (a, code_spent)
  unfolding exchange_authorization_code
  unredeemable_refused a code h = ground arith

  unredeemable_absent :
      (a : Auth) (client_id code : Text)
      → is_unredeemable a code ≡ true
      → load_authorization_code hash mint a client_id code ≡ none
  unfolding load_authorization_code
  unredeemable_absent a client_id code h = ground arith

  -- A code is redeemed at most once: after an exchange of it, whatever that came to, a second
  -- exchange changes nothing and is answered that the code is spent, and no client loads it.
  exchange_code_twice :
      (a : Auth) (client_id code : Text)
      → (exchange_authorization_code hash mint (exchange_authorization_code hash mint a code).0 code
          ≡ ((exchange_authorization_code hash mint a code).0, code_spent))
        × (load_authorization_code hash mint
              (exchange_authorization_code hash mint a code).0
              client_id
              code
            ≡ none)
  exchange_code_twice a client_id code =
      let later = (exchange_authorization_code hash mint a code).0 in
      let spent = exchange-is_unredeemable a code in
      (unredeemable_refused later code spent, unredeemable_absent later client_id code spent)

  -- What a rotation makes of the refresh tokens.
  find_token-revoke_first :
      (a : Auth) (kind : OauthTokenKind → Bool) (token : Text)
      → find_token hash mint (revoke_first hash mint a kind token) kind token
        ≡ elim (find_token hash mint a kind token) [
          | none ↦ none
          | some row ↦ some (record row { revoked_at = some a.db.now })
        ]
  unfolding find_token
  find_token-revoke_first a kind token =
      first-update_first (is_token hash mint kind token)
        (λ row. record row { revoked_at = some a.db.now }) a.tokens (λ row. refl)

  -- A refresh token that is spent: it names a row, and the row is not live.
  abbrev is_spent : Auth → Text → Bool
  is_spent a token = not (live_token a.db.now (find_token hash mint a is_refresh token))

  spent-append :
      (a : Auth) (token : Text) (kind : OauthTokenKind → Bool) (row : OauthToken)
      (more : List OauthToken)
      → find_token hash mint a kind token ≡ some row
      → find_token hash mint (record a { tokens = a.tokens ++ more }) kind token ≡ some row
  unfolding find_token
  spent-append a token kind row more =
      first-append_some (is_token hash mint kind token) a.tokens more row

  find_revoked :
      (a : Auth) (kind : OauthTokenKind → Bool) (token : Text) (row : OauthToken)
      → find_token hash mint a kind token ≡ some row
      → find_token hash mint (revoke_first hash mint a kind token) kind token
        ≡ some (record row { revoked_at = some a.db.now })
  find_revoked a kind token row e = ground (arith, find_token-revoke_first a kind token, e)

  rotated-is_spent :
      (a : Auth) (token : Text) (row : OauthToken)
      → find_token hash mint a is_refresh token ≡ some row
      → is_spent
          (issue hash mint (revoke_first hash mint a is_refresh token) row.grant_id row.client_id).0
          token
        ≡ true
  unfolding issue live_token find_token
  rotated-is_spent a token row e =
      let gone = revoke_first hash mint a is_refresh token in
      let made : OauthTokenKind → Text → ℕ → OauthToken =
        λ kind minted. new_token hash mint gone kind minted row.grant_id row.client_id in
      ap (λ o. not (live_token a.db.now o))
        (spent-append gone token is_refresh (record row { revoked_at = some a.db.now })
          (made OauthTokenKind.access (mint a.minted) access_ttl
            ∷ made OauthTokenKind.refresh (mint (a.minted + 1)) refresh_ttl
            ∷ [])
          (find_revoked a is_refresh token row e))

  refresh-is_spent :
      (a : Auth) (token : Text) (pair : TokenPair)
      → (exchange_refresh_token hash mint a token).1 ≡ issued pair
      → is_spent (exchange_refresh_token hash mint a token).0 token ≡ true
  unfolding exchange_refresh_token
  refresh-is_spent a token pair h = elim (Option-cases (find_token hash mint a is_refresh token)) [
    | inl e ↦ ground (arith, e)
    | inr (row, e) ↦ ground (arith, e, rotated-is_spent a token row e)
  ]

  spent_refused :
      (a : Auth) (client_id token : Text)
      → is_spent a token ≡ true
      → (exchange_refresh_token hash mint a token ≡ (a, refresh_spent))
        × (load_refresh_token hash mint a client_id token ≡ none)
  unfolding exchange_refresh_token load_refresh_token live_token
  spent_refused a client_id token h = ground arith

  -- A refresh token is rotated: when its exchange issues a pair, a second exchange of it changes
  -- nothing and is answered that the token is spent, and no client loads it.
  pub exchange_refresh_twice :
      (a : Auth) (client_id token : Text) (pair : TokenPair)
      → (exchange_refresh_token hash mint a token).1 ≡ issued pair
      → (exchange_refresh_token hash mint (exchange_refresh_token hash mint a token).0 token
          ≡ ((exchange_refresh_token hash mint a token).0, refresh_spent))
        × (load_refresh_token hash mint (exchange_refresh_token hash mint a token).0 client_id token
            ≡ none)
  exchange_refresh_twice a client_id token pair h =
      spent_refused (exchange_refresh_token hash mint a token).0 client_id token
        (refresh-is_spent a token pair h)
