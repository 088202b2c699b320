-- ===== src/Oauth/Rows.antt =====
-- What src/mailmind/mcp/oauth.py works on: its tables, and the values of the protocol.
use Prim.Native.Nat.{◌*◌}
use ronny_email_worker.Prelude.{
  ℕ, Bool, true, false, ◌&&◌, Option, none, some, List, [], ◌∷◌, ◌==◌, first, is_none,
}
use ronny_email_worker.Text.{Text, text_eq, codes}
use ronny_email_worker.Models.{Grant, OauthClient, OauthAuthorization, OauthToken, OauthTokenKind}
use ronny_email_worker.Scope.{Db}
use ronny_email_worker.Content.{text_or_none}
use ronny_email_worker.Grants.{View, is_unexpired}

-- The tables that the server works on, and how many texts have been minted.
pub record Auth : Type 0 where
  pub db : Db
  pub clients : List OauthClient
  pub requests : List OauthAuthorization
  pub tokens : List OauthToken
  pub grants : List Grant
  pub next_grant : ℕ
  pub minted : ℕ

-- ACCESS_TTL, REFRESH_TTL, REQUEST_TTL, CODE_TTL, in seconds.
abbrev pub access_ttl : ℕ
access_ttl = 3600

abbrev pub refresh_ttl : ℕ
refresh_ttl = 30 * 86400

abbrev pub request_ttl : ℕ
request_ttl = 10 * 60

abbrev pub code_ttl : ℕ
code_ttl = 5 * 60

-- SCOPE
abbrev pub only_scope : Text
only_scope = codes "mailmind"

-- `_live_token`
unfoldable pub live_token : (now : ℕ) → Option OauthToken → Bool
live_token now none = false
live_token now (some row) = is_none row.revoked_at && is_unexpired now row.expires_at

-- `OAuthClientInformationFull`, as far as it is read.
pub record ClientInfo : Type 0 where
  pub client_id : Text
  pub client_secret : Option Text
  pub client_name : Option Text
  pub redirect_uris : List Text
  pub grant_types : List Text
  pub response_types : List Text
  pub scope : Option Text
  pub token_endpoint_auth_method : Option Text

-- `AuthorizationParams`. No scopes is the empty list, as None is to `or`.
pub record AuthorizationParams : Type 0 where
  pub redirect_uri : Text
  pub redirect_uri_provided_explicitly : Bool
  pub state : Option Text
  pub code_challenge : Text
  pub scopes : List Text
  pub resource : Option Text

-- `AuthorizationCode`. An expiry that is missing is the epoch, the time 0.
pub record AuthorizationCode : Type 0 where
  pub code : Text
  pub scopes : List Text
  pub expires_at : ℕ
  pub client_id : Text
  pub code_challenge : Text
  pub redirect_uri : Text
  pub redirect_uri_provided_explicitly : Bool
  pub resource : Option Text

-- `RefreshToken`
pub record RefreshToken : Type 0 where
  pub token : Text
  pub client_id : Text
  pub scopes : List Text
  pub expires_at : Option ℕ

-- `GrantAccessToken`
pub record AccessToken : Type 0 where
  pub token : Text
  pub client_id : Text
  pub scopes : List Text
  pub expires_at : Option ℕ
  pub grant_view : View

-- The `OAuthToken` of the protocol: the pair that is handed out.
pub record TokenPair : Type 0 where
  pub access_token : Text
  pub expires_in : ℕ
  pub scope : Text
  pub refresh_token : Text

-- What an exchange comes to: a pair, or a `TokenError`.
pub data Exchanged : Type 0 where
  issued : TokenPair → Exchanged
  code_spent refresh_spent grant_gone : Exchanged

-- `client_id or "cli"`
abbrev pub or_cli : Option Text → Text
or_cli none = codes "cli"
or_cli (some []) = codes "cli"
or_cli (some (c ∷ t)) = c ∷ t

-- `_client_info`
unfoldable pub client_info : OauthClient → ClientInfo
client_info row = record {
  client_id = row.client_id;
  client_secret = none;
  client_name = text_or_none row.client_name;
  redirect_uris = row.redirect_uris;
  grant_types = row.grant_types;
  response_types = row.response_types;
  scope = row.scope;
  token_endpoint_auth_method = some row.token_endpoint_auth_method;
}

unfoldable pub get_client : Auth → Text → Option ClientInfo
get_client a client_id = elim (first (λ row. text_eq row.client_id client_id) a.clients) [
  | none ↦ none
  | some row ↦ some (client_info row)
]

-- The grant of an id.
unfoldable pub get_grant : List Grant → ℕ → Option Grant
get_grant gs id = first (λ g. g.id == id) gs

-- Either kind of token.
abbrev pub any_kind : OauthTokenKind → Bool
any_kind k = true
