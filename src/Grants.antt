-- ===== src/Grants.antt =====
-- The guards of src/mailmind/mcp/server.py: what a grant lets a tool reach. A tool's guard answers
-- with the row or with the refusal that the caller is told.
pub mod Absence
pub mod Local
use ronny_email_worker.Prelude.{
  ℕ, Bool, false, not, ◌&&◌, ◌||◌, Option, none, some, List, [], ◌∷◌, ◌==◌, if◌then◌else◌, first,
  mem, ltb, is_none,
}
use ronny_email_worker.Text.{Text, text_mem}
use ronny_email_worker.Models.{
  Account, Container, Message, Bundle, Grant, Capability, capability_value,
}
use ronny_email_worker.Scope.{Cache, get_account, get_container}

-- `_view`: the whole of what a caller may do.
pub record View : Type 0 where
  pub grant_id : ℕ
  pub producer_id : ℕ
  pub capabilities : List Text
  pub account_ids : List ℕ

unfoldable pub view : Grant → View
view g = record {
  grant_id = g.id;
  producer_id = g.producer_id;
  capabilities = g.capabilities;
  account_ids = g.accounts;
}

-- `expires_at is None or expires_at > now`
abbrev pub is_unexpired : (now : ℕ) → Option ℕ → Bool
is_unexpired now none = Bool.true
is_unexpired now (some at) = ltb now at

-- `_live`
unfoldable pub is_live : (now : ℕ) → Option Grant → Bool
is_live now none = false
is_live now (some g) = is_none g.revoked_at && is_unexpired now g.expires_at

-- `grant_context`, for the hash of the token.
unfoldable pub grant_context : (now : ℕ) → List Grant → (hashed : Text) → Option View
grant_context now gs hashed =
    let g = first (λ g. text_mem hashed (g.token_hash ∷ [])) gs in
    if is_live now g then elim g [ none ↦ none | some h ↦ some (view h) ] else none

-- `NotPermitted`
pub data NotPermitted : Type 0 where
  no_grant : NotPermitted
  not_allowed : Capability → NotPermitted
  no_account no_container no_message no_bundle : (id : ℕ) → NotPermitted

pub data Permitted (A : Type 0) : Type 0 where
  permitted : A → Permitted A
  denied : NotPermitted → Permitted A

-- `_grant`: the contextvar, and else the view that the verified bearer token carries.
unfoldable pub grant_of : (current carried : Option View) → Permitted View
grant_of (some v) carried = permitted v
grant_of none (some v) = permitted v
grant_of none none = denied no_grant

-- `_require`
unfoldable pub require : Permitted View → Capability → Permitted View
require (denied why) c = denied why
require (permitted v) c =
    if text_mem (capability_value c) v.capabilities then permitted v else denied (not_allowed c)

-- `_account`
unfoldable pub account : Cache → View → ℕ → Permitted Account
account c v id =
    if not (mem id v.account_ids)
    then denied (no_account id)
    else elim (get_account c id) [ none ↦ denied (no_account id) | some a ↦ permitted a ]

-- The end of `_container`, `_message` and `_bundle`: a row of an account outside the grant is absent.
unfoldable pub within :
    {A : Type 0} → View → (account_of : A → ℕ) → NotPermitted → Option A → Permitted A
within v account_of why none = denied why
within v account_of why (some a) =
    if mem (account_of a) v.account_ids then permitted a else denied why

-- `_container`
unfoldable pub container : Cache → View → ℕ → Permitted Container
container c v id = within v (λ k. k.account_id) (no_container id) (get_container c id)

-- `_message`
unfoldable pub message : List Message → View → ℕ → Permitted Message
message ms v id =
    within v (λ (m : Message). m.account_id) (no_message id)
      (first (λ (m : Message). m.id == id) ms)

-- `_bundle`
unfoldable pub bundle : List Bundle → View → ℕ → Permitted Bundle
bundle bs v id = within v (λ b. b.account_id) (no_bundle id) (first (λ b. b.id == id) bs)
