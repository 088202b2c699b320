-- ===== src/Oauth/Consent.antt =====
-- From a person's consent to a bearer token: `consent`, then `exchange_authorization_code`, then
-- `load_access_token`, in src/mailmind/mcp/oauth.py.
use ronny_email_worker.Prelude.{
  ℕ, ◌+◌, ◌≡◌, refl, ap, ◌∙◌, none, some, List, [], ◌∷◌, arith, first, first-append_none,
  first-update_first_new, ◌==◌, ==_refl,
}
use ronny_email_worker.Text.{Text, text_eq, text_eq_iff}
use ronny_email_worker.Models.{OauthAuthorization, is_access}
use ronny_email_worker.Scope.{audit}
use ronny_email_worker.Grants.{view, is_live}
use ronny_email_worker.Oauth.Rows.{
  Auth, TokenPair, access_ttl, code_ttl, get_grant, issued, only_scope,
}
use ronny_email_worker.Oauth.Codes.{
  code_of, exchange_authorization_code, find_code, hand_out, has_code, issue,
  load_authorization_code, use_code,
}
use ronny_email_worker.Oauth.Tokens.{find_token, load_access_token}
use ronny_email_worker.Oauth.Agreeing.{consent, consented}
use ronny_email_worker.Oauth.Issuing.{issue-load}

module _ (hash : Text → Text) (mint : ℕ → Text) where
  -- The request, once it is agreed to.
  abbrev pub agreed : Auth → OauthAuthorization → OauthAuthorization
  agreed a request = record request {
    grant_id = some a.next_grant;
    code_hash = some (hash (mint (a.minted + 1)));
    code_expires_at = some (a.db.now + code_ttl);
  }

  module _ (a : Auth) (request : OauthAuthorization) (producer_id : ℕ) (capabilities : List Text)
      (account_ids : List ℕ) where
    abbrev agree : Auth × Text
    agree = consent hash mint a request producer_id capabilities account_ids

    find_agreed :
        first (λ row. text_eq row.request_id request.request_id) a.requests ≡ some request
        → find_code hash mint a (mint (a.minted + 1)) ≡ none
        → find_code hash mint agree.0 agree.1 ≡ some (agreed a request)
    unfolding find_code consent
    find_agreed h k =
        first-update_first_new (λ row. text_eq row.request_id request.request_id)
          (has_code hash mint (mint (a.minted + 1)))
          (λ row. record row {
            grant_id = some a.next_grant;
            code_hash = some (hash (mint (a.minted + 1)));
            code_expires_at = some (a.db.now + code_ttl);
          })
          a.requests request h k
          ((text_eq_iff (hash (mint (a.minted + 1))) (hash (mint (a.minted + 1)))).1 refl)

    get_agreed :
        get_grant a.grants a.next_grant ≡ none
        → get_grant agree.0.grants a.next_grant
          ≡ some (consented hash mint a producer_id capabilities account_ids request.client_id)
    unfolding get_grant consent
    get_agreed h =
        let made = consented hash mint a producer_id capabilities account_ids request.client_id in
        first-append_none (λ g. g.id == a.next_grant) a.grants (made ∷ []) h
        ∙ ground (arith, ==_refl a.next_grant)

    exchange_agreed :
        first (λ row. text_eq row.request_id request.request_id) a.requests ≡ some request
        → request.used_at ≡ none
        → find_code hash mint a (mint (a.minted + 1)) ≡ none
        → exchange_authorization_code hash mint agree.0 agree.1
          ≡ hand_out hash mint
              (issue hash mint (use_code hash mint agree.0 agree.1) a.next_grant request.client_id)
    unfolding exchange_authorization_code
    exchange_agreed h fresh k = ground (arith, find_agreed h k, fresh)

    load_agreed :
        first (λ row. text_eq row.request_id request.request_id) a.requests ≡ some request
        → request.used_at ≡ none
        → find_code hash mint a (mint (a.minted + 1)) ≡ none
        → load_authorization_code hash mint agree.0 request.client_id agree.1
          ≡ some (code_of hash mint agree.1 (agreed a request))
    unfolding load_authorization_code
    load_agreed h fresh k =
        ground
          (arith, find_agreed h k, fresh, (text_eq_iff request.client_id request.client_id).1 refl)

    -- What a person consents to is what the client gets: where the request is one of the table and
    -- not used, and the texts and the id that are drawn next are not in use, the code that `consent`
    -- returns loads for the request's client, its exchange issues a pair, and the pair's access token
    -- is accepted with the view of the new grant, with the producer, the capabilities and the
    -- accounts that were agreed to and no others.
    pub consent_roundtrip :
        first (λ row. text_eq row.request_id request.request_id) a.requests ≡ some request
        → request.used_at ≡ none
        → find_code hash mint a (mint (a.minted + 1)) ≡ none
        → find_token hash mint a is_access (mint (a.minted + 2)) ≡ none
        → get_grant a.grants a.next_grant ≡ none
        → (load_authorization_code hash mint agree.0 request.client_id agree.1
            ≡ some (code_of hash mint agree.1 (agreed a request)))
          × ((pair : TokenPair) × ((exchange_authorization_code hash mint agree.0 agree.1).1
                ≡ issued pair)
              × (load_access_token hash mint
                    (exchange_authorization_code hash mint agree.0 agree.1).0
                    pair.access_token
                  ≡ some (record {
                    token = pair.access_token;
                    client_id = request.client_id;
                    scopes = only_scope ∷ [];
                    expires_at = some (a.db.now + access_ttl);
                    grant_view = record {
                      grant_id = a.next_grant;
                      producer_id = producer_id;
                      capabilities = capabilities;
                      account_ids = account_ids;
                    };
                  })))
    unfolding consent view is_live issue find_token audit
    consent_roundtrip h fresh k new_token new_grant =
        let done = exchange_agreed h fresh k in
        let made = consented hash mint a producer_id capabilities account_ids request.client_id in
        (
          load_agreed h fresh k,
          (
            (issue hash mint (use_code hash mint agree.0 agree.1) a.next_grant request.client_id).1,
            ap (λ s. s.1) done,
            ap
                  (λ s.
                    load_access_token hash mint s.0
                      (issue hash mint (use_code hash mint agree.0 agree.1) a.next_grant
                        request.client_id).1.access_token)
                  done
                ∙ issue-load hash mint (use_code hash mint agree.0 agree.1) a.next_grant
                    request.client_id made new_token (get_agreed new_grant) refl,
          ),
        )
