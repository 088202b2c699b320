-- ===== src/Imap/Probe/Declared.antt =====
-- What `probe_account` of src/mailmind/imap/capabilities.py leaves of an account and its
-- declarations.
use ronny_email_worker.Prelude.{
  ℕ, ◌≡◌, refl, ◌∙◌, Bool, false, not, ◌&&◌, ◌||◌, List, [], ◌∷◌, ◌++◌, map, arith, any, keep,
  first, some, ==_refl, is_empty, is_empty-keep, Bool-cases, inl, inr, if◌then◌else◌, ◌==◌,
}
use ronny_email_worker.Text.{Text, text_eq, text_mem, is_empty-sorted}
use ronny_email_worker.Models.{Account, AccountHealth}
use ronny_email_worker.Scope.{Db, audit, get_account}
use ronny_email_worker.Text.{distinct_texts}
use ronny_email_worker.Imap.Probe.{
  AccountCapability, probe, probe_row, undeclared_row, declares, declared_names, own_names,
  probed_account,
}
use ronny_email_worker.Text.{sorted_minus}

abbrev declares_row : ℕ → Text → AccountCapability → Bool
declares_row account_id capability row =
    row.account_id == account_id && text_eq row.name capability && row.declared

declares-append :
    (i : ℕ) (t : Text) (xs ys : List AccountCapability)
    → any (declares_row i t) (xs ++ ys) ≡ any (declares_row i t) xs || any (declares_row i t) ys
declares-append i t [] ys = refl
declares-append i t (x ∷ xs) ys = ground (arith, declares-append i t xs ys)

declares-probe_row :
    (a : Account) (now i : ℕ) (t : Text) (offered : List Text) (xs : List AccountCapability)
    → any (declares_row i t) (map (probe_row a now offered) xs) ≡ any (declares_row i t) xs
declares-probe_row a now i t offered [] = refl
declares-probe_row a now i t offered (x ∷ xs) =
    ground (arith, declares-probe_row a now i t offered xs)

declares-undeclared_row :
    (a : Account) (now i : ℕ) (t : Text) (names : List Text)
    → any (declares_row i t) (map (undeclared_row a now) names) ≡ false
declares-undeclared_row a now i t [] = refl
declares-undeclared_row a now i t (n ∷ names) =
    ground (arith, declares-undeclared_row a now i t names)

declares-probe :
    (db : Db) (rows : List AccountCapability) (a : Account) (offered : List Text) (i : ℕ) (t : Text)
    → declares (probe db rows a offered).1 i t ≡ declares rows i t
unfolding declares probe
declares-probe db rows a offered i t =
    let names = sorted_minus offered (own_names a rows) in
    declares-append i t (map (probe_row a db.now offered) rows)
      (map (undeclared_row a db.now) names)
    ∙ ground (
      arith,
      declares-probe_row a db.now i t offered rows,
      declares-undeclared_row a db.now i t names,
    )

is_empty-distinct : (ts : List Text) → is_empty (distinct_texts ts) ≡ is_empty ts
is_empty-distinct [] = refl
is_empty-distinct (t ∷ []) = refl
is_empty-distinct (t ∷ u ∷ ts) = ground (arith, is_empty-distinct (u ∷ ts))

-- A difference is empty where nothing of the first set is outside the second.
is_empty-sorted_minus :
    (a b : List Text) → is_empty (sorted_minus a b) ≡ not (any (λ t. not (text_mem t b)) a)
unfolding sorted_minus
is_empty-sorted_minus a b =
    is_empty-sorted (distinct_texts (keep (λ t. not (text_mem t b)) a))
    ∙ is_empty-distinct (keep (λ t. not (text_mem t b)) a)
    ∙ is_empty-keep (λ t. not (text_mem t b)) a

probed-health :
    (now : ℕ) (missing : List Text) (id : ℕ) (xs : List Account) (x : Account)
    → first
        (λ (y : Account). y.id == id)
        (map (λ (y : Account). if y.id == id then probed_account now missing y else y) xs)
      ≡ some x
    → x.health ≡ (if is_empty missing then AccountHealth.ok else AccountHealth.read_only)
probed-health now missing id [] x h = ground arith
probed-health now missing id (y ∷ ys) x h = elim (Bool-cases (y.id == id)) [
  | inl e ↦ ground (arith, e, ==_refl id)
  | inr e ↦ probed-health now missing id ys x (ground (arith, e))
]

-- A probe never changes what an account declares: `declares` answers after it as before, for every
-- account and capability. And if the account is found after it, it is `ok` where the server offers
-- everything that the account declares, and read only where it does not.
pub probe_lem :
    (db : Db) (rows : List AccountCapability) (a x : Account) (offered : List Text) (i : ℕ)
    (t : Text)
    → get_account (probe db rows a offered).0.cache a.id ≡ some x
    → (declares (probe db rows a offered).1 i t ≡ declares rows i t)
      × (x.health ≡ (
          if any (λ name. not (text_mem name offered)) (declared_names a rows)
          then AccountHealth.read_only
          else AccountHealth.ok))
unfolding probe audit get_account
probe_lem db rows a x offered i t h =
    let missing = sorted_minus (declared_names a rows) offered in
    (
      declares-probe db rows a offered i t,
      ground (
        arith,
        probed-health db.now missing a.id db.cache.accounts x h,
        is_empty-sorted_minus (declared_names a rows) offered,
      ),
    )
