-- ===== src/Witnesses/Logins.antt =====
-- The theorems on grants and on the authorization server, at examples.
use ronny_email_worker.Prelude.{ℕ, ◌+◌, ◌≡◌, refl, true, none, some, List, [], ◌∷◌, arith, Memᴰ}
use ronny_email_worker.Text.{Text, codes}
use ronny_email_worker.Models.{Container, Grant, OauthAuthorization, OauthToken, OauthTokenKind}
use ronny_email_worker.Scope.{Cache, get_container}
use ronny_email_worker.Grants.{view, is_live, container, message, bundle}
use ronny_email_worker.Grants.Absence.{guards_outside}
use ronny_email_worker.Oauth.Rows.{
  Auth, TokenPair, access_ttl, code_spent, get_grant, issued, live_token, only_scope, refresh_spent,
}
use ronny_email_worker.Oauth.Codes.{
  code_of, exchange_authorization_code, find_code, issue, load_authorization_code,
}
use ronny_email_worker.Oauth.Tokens.{
  access_of, exchange_refresh_token, find_token, load_access_token, load_by_row, load_refresh_token,
  revoke_token,
}
use ronny_email_worker.Oauth.Agreeing.{consent}
use ronny_email_worker.Oauth.Steps.{Event, exchanges, refreshes, elsewhere, steps, replay_refused}
use ronny_email_worker.Oauth.Spending.{exchange_refresh_twice}
use ronny_email_worker.Oauth.Access.{Names, load_access_token-backed, revoke_token-refused}
use ronny_email_worker.Oauth.Consent.{agreed, consent_roundtrip}
use ronny_email_worker.Witnesses.Data.{same_text, folder, cache, db, waiting}

-- A secret for each number.
abbrev minted_text : ℕ → Text
minted_text n = n ∷ []

abbrev asked : OauthAuthorization
asked = record {
  request_id = codes "r";
  client_id = codes "agent";
  redirect_uri = codes "https://agent.example";
  redirect_uri_provided_explicitly = true;
  state = none;
  code_challenge = codes "c";
  scopes = only_scope ∷ [];
  resource = none;
  expires_at = some 700;
  grant_id = none;
  code_hash = none;
  code_expires_at = none;
  used_at = none;
}

abbrev granted : Grant
granted = record {
  id = 4;
  producer_id = 5;
  token_hash = codes "own";
  capabilities = codes "observe" ∷ [];
  client_id = some (codes "agent");
  created_at = 90;
  expires_at = none;
  revoked_at = none;
  accounts = 1 ∷ [];
}

-- The request before and after consent, and the tokens 1 and 2 of the grant.
abbrev token : OauthTokenKind → ℕ → OauthToken
token kind n = record {
  token_hash = minted_text n;
  kind = kind;
  grant_id = 4;
  client_id = codes "agent";
  expires_at = some 200;
  revoked_at = none;
}

abbrev auth : Auth
auth = record {
  db = db;
  clients = [];
  requests = asked ∷ [];
  tokens = token OauthTokenKind.access 1 ∷ token OauthTokenKind.refresh 2 ∷ [];
  grants = granted ∷ [];
  next_grant = 5;
  minted = 3;
}

abbrev agreed_auth : Auth
agreed_auth = record auth {
  requests = record asked { grant_id = some 4; code_hash = some (codes "code") } ∷ [];
}

abbrev pair_of : ℕ → TokenPair
pair_of n = record {
  access_token = minted_text n;
  expires_in = access_ttl;
  scope = only_scope;
  refresh_token = minted_text (n + 1);
}

-- What follows: a rotation, another grant, and an attempt with another code.
abbrev events : List Event
events = refreshes (minted_text 2) ∷ elsewhere db [] 9 ∷ exchanges (codes "other") ∷ []

replay_refused_example :
    let later =
      steps same_text minted_text
        (exchange_authorization_code same_text minted_text agreed_auth (codes "code")).0
        events in
    exchange_authorization_code same_text minted_text later (codes "code") ≡ (later, code_spent)
unfolding exchange_authorization_code find_code issue
replay_refused_example =
    replay_refused same_text minted_text agreed_auth (codes "code") (pair_of 3) events (omega arith)
      (λ n h. ground arith) refl

exchange_refresh_twice_example :
    let later = (exchange_refresh_token same_text minted_text auth (minted_text 2)).0 in
    (exchange_refresh_token same_text minted_text later (minted_text 2) ≡ (later, refresh_spent))
    × (load_refresh_token same_text minted_text later (codes "agent") (minted_text 2) ≡ none)
unfolding exchange_refresh_token find_token live_token get_grant issue
exchange_refresh_twice_example =
    exchange_refresh_twice same_text minted_text auth (codes "agent") (minted_text 2) (pair_of 3)
      refl

load_access_token-backed_example :
    (g : Grant) × Memᴰ g auth.grants
    × (is_live 100 (some g) ≡ true)
    × Names same_text minted_text auth (minted_text 1) g
    × (view granted ≡ view g)
unfolding load_access_token find_token live_token load_by_row get_grant is_live
load_access_token-backed_example =
    load_access_token-backed same_text minted_text auth (minted_text 1)
      (access_of same_text minted_text (minted_text 1) (codes "agent") (some 200) granted) refl

revoke_token-refused_example :
    load_access_token same_text minted_text
      (revoke_token same_text minted_text auth (minted_text 1))
      (minted_text 1)
    ≡ none
unfolding find_token
revoke_token-refused_example =
    revoke_token-refused same_text minted_text auth (minted_text 1) (token OauthTokenKind.access 1)
      refl refl refl

-- A folder of another account.
abbrev foreign : Container
foreign = record (folder 7 (codes "Theirs")) { account_id = 2 }

abbrev fuller : Cache
fuller = record cache { containers = foreign ∷ cache.containers }

guards_outside_example :
    (container cache (view granted) 7 ≡ container fuller (view granted) 7)
    × (message [] (view granted) 7 ≡ message [] (view granted) 7)
    × (bundle [] (view granted) 7
        ≡ bundle (record waiting { id = 7; account_id = 2 } ∷ []) (view granted) 7)
unfolding view get_container
guards_outside_example =
    guards_outside cache fuller [] [] [] (record waiting { id = 7; account_id = 2 } ∷ [])
      (view granted) 7 (λ k h. ground arith) (λ m h. ground arith) (λ b h. ground arith)

consent_roundtrip_example :
    (load_authorization_code same_text minted_text
        (consent same_text minted_text auth asked 5 (codes "observe" ∷ []) (1 ∷ 3 ∷ [])).0
        (codes "agent")
        (minted_text 4)
      ≡ some
          (code_of same_text minted_text (minted_text 4) (agreed same_text minted_text auth asked)))
    × ((pair : TokenPair) × ((exchange_authorization_code same_text minted_text
            (consent same_text minted_text auth asked 5 (codes "observe" ∷ []) (1 ∷ 3 ∷ [])).0
            (minted_text 4)).1
          ≡ issued pair)
        × (load_access_token same_text minted_text
              (exchange_authorization_code same_text minted_text
                (consent same_text minted_text auth asked 5 (codes "observe" ∷ []) (1 ∷ 3 ∷ [])).0
                (minted_text 4)).0
              pair.access_token
            ≡ some (record {
              token = pair.access_token;
              client_id = codes "agent";
              scopes = only_scope ∷ [];
              expires_at = some 3700;
              grant_view = record {
                grant_id = 5;
                producer_id = 5;
                capabilities = codes "observe" ∷ [];
                account_ids = 1 ∷ 3 ∷ [];
              };
            })))
unfolding find_code find_token get_grant consent
consent_roundtrip_example =
    consent_roundtrip same_text minted_text auth asked 5 (codes "observe" ∷ []) (1 ∷ 3 ∷ []) refl
      refl refl refl refl
