-- ===== src/Models/Agents.antt =====
-- The rows of src/mailmind/db/models.py on who may ask: producers, grants, and the walk that makes a
-- grant over OAuth. A token is kept as its hash.
use ronny_email_worker.Prelude.{ℕ, Bool, true, false, Option, List}
use ronny_email_worker.Text.{Text, codes}

pub data ProducerKind : Type 0 where
  agent service person : ProducerKind

pub record Producer : Type 0 where
  pub id : ℕ
  pub kind : ProducerKind
  pub name : Text
  pub current_account_id : Option ℕ

pub data Capability : Type 0 where
  observe suggest assess : Capability

-- `capability.value`
abbrev pub capability_value : Capability → Text
capability_value Capability.observe = codes "observe"
capability_value Capability.suggest = codes "suggest"
capability_value Capability.assess = codes "assess"

-- `accounts` holds the account ids of the grant's `GrantAccount` rows.
pub record Grant : Type 0 where
  pub id : ℕ
  pub producer_id : ℕ
  pub token_hash : Text
  pub capabilities : List Text
  pub client_id : Option Text
  pub created_at : ℕ
  pub expires_at : Option ℕ
  pub revoked_at : Option ℕ
  pub accounts : List ℕ

pub record OauthClient : Type 0 where
  pub client_id : Text
  pub client_secret_hash : Option Text
  pub client_name : Text
  pub redirect_uris : List Text
  pub grant_types : List Text
  pub response_types : List Text
  pub scope : Option Text
  pub token_endpoint_auth_method : Text

pub record OauthAuthorization : Type 0 where
  pub request_id : Text
  pub client_id : Text
  pub redirect_uri : Text
  pub redirect_uri_provided_explicitly : Bool
  pub state : Option Text
  pub code_challenge : Text
  pub scopes : List Text
  pub resource : Option Text
  pub expires_at : Option ℕ
  pub grant_id : Option ℕ
  pub code_hash : Option Text
  pub code_expires_at : Option ℕ
  pub used_at : Option ℕ

pub data OauthTokenKind : Type 0 where
  access refresh : OauthTokenKind

abbrev pub is_access : OauthTokenKind → Bool
is_access OauthTokenKind.access = true
is_access OauthTokenKind.refresh = false

abbrev pub is_refresh : OauthTokenKind → Bool
is_refresh OauthTokenKind.access = false
is_refresh OauthTokenKind.refresh = true

pub record OauthToken : Type 0 where
  pub token_hash : Text
  pub kind : OauthTokenKind
  pub grant_id : ℕ
  pub client_id : Text
  pub expires_at : Option ℕ
  pub revoked_at : Option ℕ
