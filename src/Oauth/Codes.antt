-- ===== src/Oauth/Codes.antt =====
-- Clients, requests and codes: the first half of src/mailmind/mcp/oauth.py. `hash` is `hash_token`,
-- SHA-256 in hexadecimal; `mint n` is the n-th text that the secrets module hands out.
use ronny_email_worker.Prelude.{
  ℕ, ◌+◌, Bool, false, not, Option, none, some, [], ◌∷◌, ◌++◌, if◌then◌else◌, first, update_first,
  is_some, is_none, is_empty,
}
use ronny_email_worker.Text.{Text, text_eq, codes}
use ronny_email_worker.Models.{OauthAuthorization, OauthToken, OauthTokenKind, Value}
use ronny_email_worker.Scope.{audit}
use ronny_email_worker.Content.{text_or_empty}
use ronny_email_worker.Oauth.Rows.{
  Auth, AuthorizationCode, AuthorizationParams, ClientInfo, Exchanged, TokenPair, access_ttl,
  code_spent, issued, only_scope, refresh_ttl, request_ttl,
}

module _ (hash : Text → Text) (mint : ℕ → Text) where
  -- The hash of a secret that is there and not empty.
  abbrev pub secret_hash : Option Text → Option Text
  secret_hash none = none
  secret_hash (some []) = none
  secret_hash (some (c ∷ t)) = some (hash (c ∷ t))

  -- `token_endpoint_auth_method or "none"`
  abbrev pub auth_method : Option Text → Text
  auth_method none = codes "none"
  auth_method (some []) = codes "none"
  auth_method (some (c ∷ t)) = c ∷ t

  unfoldable pub register_client : Auth → ClientInfo → Auth
  register_client a i = record a {
    db =
        audit "oauth_client_registered" "service" "oauth_client" none none
          (("client_id", Value.text i.client_id)
            ∷ (
              "client_name_claimed",
              elim i.client_name [ none ↦ Value.null | some t ↦ Value.text t ],
            )
            ∷ [])
          a.db;
    clients =
        a.clients
        ++ record {
          client_id = i.client_id;
          client_secret_hash = secret_hash i.client_secret;
          client_name = text_or_empty i.client_name;
          redirect_uris = i.redirect_uris;
          grant_types = i.grant_types;
          response_types = i.response_types;
          scope = i.scope;
          token_endpoint_auth_method = auth_method i.token_endpoint_auth_method;
        }
          ∷ [];
  }

  -- `authorize`, with the id that the consent page is found under.
  unfoldable pub authorize : Auth → (client_id : Text) → AuthorizationParams → Auth × Text
  authorize a client_id p = (
    record a {
      requests =
          a.requests
          ++ record {
            request_id = mint a.minted;
            client_id = client_id;
            redirect_uri = p.redirect_uri;
            redirect_uri_provided_explicitly = p.redirect_uri_provided_explicitly;
            state = p.state;
            code_challenge = p.code_challenge;
            scopes = if is_empty p.scopes then only_scope ∷ [] else p.scopes;
            resource = p.resource;
            expires_at = some (a.db.now + request_ttl);
            grant_id = none;
            code_hash = none;
            code_expires_at = none;
            used_at = none;
          }
            ∷ [];
      minted = a.minted + 1;
    },
    mint a.minted,
  )

  -- The row that a code names.
  abbrev pub has_code : Text → OauthAuthorization → Bool
  has_code code row = elim row.code_hash [ none ↦ false | some h ↦ text_eq h (hash code) ]

  unfoldable pub find_code : Auth → Text → Option OauthAuthorization
  find_code a code = first (has_code code) a.requests

  -- `used_at is None` and a grant, which is what makes a code redeemable.
  abbrev pub redeemable_grant : OauthAuthorization → Option ℕ
  redeemable_grant row = if is_none row.used_at then row.grant_id else none

  abbrev pub code_of : Text → OauthAuthorization → AuthorizationCode
  code_of code row = record {
    code = code;
    scopes = row.scopes;
    expires_at = elim row.code_expires_at [ none ↦ 0 | some at ↦ at ];
    client_id = row.client_id;
    code_challenge = row.code_challenge;
    redirect_uri = row.redirect_uri;
    redirect_uri_provided_explicitly = row.redirect_uri_provided_explicitly;
    resource = row.resource;
  }

  unfoldable pub load_authorization_code : Auth → (client_id code : Text) → Option AuthorizationCode
  load_authorization_code a client_id code = elim (find_code a code) [
    | none ↦ none
    | some row ↦
        if not (text_eq row.client_id client_id)
        then none
        else if is_some (redeemable_grant row)
        then some (code_of code row)
        else none
  ]

  abbrev pub new_token :
      Auth
      → OauthTokenKind
      → (token : Text) → (grant_id : ℕ) → (client_id : Text) → (ttl : ℕ) → OauthToken
  new_token a kind token grant_id client_id ttl = record {
    token_hash = hash token;
    kind = kind;
    grant_id = grant_id;
    client_id = client_id;
    expires_at = some (a.db.now + ttl);
    revoked_at = none;
  }

  -- `_issue`
  unfoldable pub issue : Auth → (grant_id : ℕ) → (client_id : Text) → Auth × TokenPair
  issue a grant_id client_id =
      let access = mint a.minted in
      let refresh = mint (a.minted + 1) in
      (
        record a {
          tokens =
              a.tokens
              ++ new_token a OauthTokenKind.access access grant_id client_id access_ttl
                ∷ new_token a OauthTokenKind.refresh refresh grant_id client_id refresh_ttl
                ∷ [];
          minted = a.minted + 2;
        },
        record {
          access_token = access;
          expires_in = access_ttl;
          scope = only_scope;
          refresh_token = refresh;
        },
      )

  abbrev pub hand_out : Auth × TokenPair → Auth × Exchanged
  hand_out (a, pair) = (a, issued pair)

  abbrev pub use_code : Auth → Text → Auth
  use_code a code = record a {
    requests =
        update_first (has_code code) (λ row. record row { used_at = some a.db.now }) a.requests;
  }

  unfoldable pub exchange_authorization_code : Auth → (code : Text) → Auth × Exchanged
  exchange_authorization_code a code = elim (find_code a code) [
    | none ↦ (a, code_spent)
    | some row ↦ elim (redeemable_grant row) [
      | none ↦ (a, code_spent)
      | some grant_id ↦ hand_out (issue (use_code a code) grant_id row.client_id)
    ]
  ]
