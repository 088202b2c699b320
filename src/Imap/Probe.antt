-- ===== src/Imap/Probe.antt =====
-- src/mailmind/imap/capabilities.py: what an account declares, against what its server offers.
-- `upper` is Python's `str.upper`.
pub mod Declared
use ronny_email_worker.Prelude.{
  ℕ, Bool, true, false, not, ◌&&◌, ◌||◌, Option, none, some, List, [], ◌∷◌, ◌++◌, map, ◌==◌,
  if◌then◌else◌, keep, any, is_empty,
}
use ronny_email_worker.Text.{sorted_minus, Text, codes, text_eq, text_mem, sorted}
use ronny_email_worker.Models.{Account, AccountHealth, Value}
use ronny_email_worker.Scope.{Cache, Db, audit}
use ronny_email_worker.Text.{distinct_texts}
use ronny_email_worker.Imap.Backend.{Answer, returned, raised, MailBackend}

-- The row `AccountCapability` of src/mailmind/db/models.py.
pub record AccountCapability : Type 0 where
  pub account_id : ℕ
  pub name : Text
  pub declared : Bool
  pub probed_present : Option Bool
  pub probed_at : Option ℕ

pub record CapabilityReport : Type 0 where
  pub account : Text
  pub missing : List Text
  pub undeclared : List Text

-- `bool(self.missing or self.undeclared)`
unfoldable pub diverged : CapabilityReport → Bool
diverged report = not (is_empty report.missing) || not (is_empty report.undeclared)

-- The rows of the account, and the names that it declares.
abbrev pub own_names : Account → List AccountCapability → List Text
own_names a rows =
    map (λ (row : AccountCapability). row.name)
      (keep (λ (row : AccountCapability). row.account_id == a.id) rows)

abbrev pub declared_names : Account → List AccountCapability → List Text
declared_names a rows =
    map (λ (row : AccountCapability). row.name)
      (keep (λ (row : AccountCapability). row.account_id == a.id && row.declared) rows)

abbrev pub probe_row :
    Account → (now : ℕ) → (offered : List Text) → AccountCapability → AccountCapability
probe_row a now offered row =
    if row.account_id == a.id
    then record row { probed_present = some (text_mem row.name offered); probed_at = some now }
    else row

abbrev pub undeclared_row : Account → (now : ℕ) → Text → AccountCapability
undeclared_row a now name = record {
  account_id = a.id;
  name = name;
  declared = false;
  probed_present = some true;
  probed_at = some now;
}

-- `", ".join(ts)`
unfoldable pub join_comma : List Text → Text
join_comma [] = []
join_comma (t ∷ []) = t
join_comma (t ∷ u ∷ ts) = t ++ (codes ", " ++ join_comma (u ∷ ts))

abbrev pub probed_account : (now : ℕ) → (missing : List Text) → Account → Account
probed_account now missing a = record a {
  health = if is_empty missing then AccountHealth.ok else AccountHealth.read_only;
  health_detail =
      if is_empty missing
      then none
      else some (codes "declared capabilities not offered by the server: " ++ join_comma missing);
  health_checked_at = some now;
}

abbrev pub put_probed : (now : ℕ) → (missing : List Text) → Account → Cache → Cache
put_probed now missing a c = record c {
  accounts =
      map (λ (x : Account). if x.id == a.id then probed_account now missing x else x) c.accounts;
}

-- `probe_account`, once the server has answered with `offered`, in capitals.
unfoldable pub probe :
    Db
    → List AccountCapability
    → Account
    → (offered : List Text) → Db × List AccountCapability × CapabilityReport
probe db rows a offered =
    let declared = declared_names a rows in
    let missing = sorted_minus declared offered in
    let undeclared = sorted_minus offered declared in
    let put = record db { cache = put_probed db.now missing a db.cache } in
    (
      audit "capability_probe" "service" "account" none (some a.id)
          (("missing", Value.texts missing)
            ∷ ("undeclared", Value.texts undeclared)
            ∷ ("health", Value.health (probed_account db.now missing a).health)
            ∷ [])
          put,
      map (probe_row a db.now offered) rows
          ++ map (undeclared_row a db.now) (sorted_minus offered (own_names a rows)),
      record { account = a.name; missing = missing; undeclared = undeclared },
    )

-- `declares`: the declaration, never the probe.
unfoldable pub declares : List AccountCapability → (account_id : ℕ) → Text → Bool
declares rows account_id capability =
    any
      (λ (row : AccountCapability).
        row.account_id == account_id && text_eq row.name capability && row.declared)
      rows

module _ {S : Type 0} (upper : Text → Text) (backend : MailBackend S) where
  abbrev pub probed :
      Db
      → List AccountCapability
      → Account
      → S × Answer (List Text)
      → S × Answer (Db × List AccountCapability × CapabilityReport)
  probed db rows a (server, raised e) = (server, raised e)
  probed db rows a (server, returned announced) =
      (server, returned (probe db rows a (map upper announced)))

  -- `probe_account`
  unfoldable pub probe_account :
      Db
      → List AccountCapability
      → Account
      → S
      → S × Answer (Db × List AccountCapability × CapabilityReport)
  probe_account db rows a server = probed db rows a (backend.capabilities server)
