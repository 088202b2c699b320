-- ===== src/Imap/Backend.antt =====
-- src/mailmind/imap/backend.py: the protocol that the service knows a mail server by. The server is
-- a state of any type `S`, and each call returns the state that it leaves.
use ronny_email_worker.Prelude.{ℕ, Bool, Option, List}
use ronny_email_worker.Text.{Text}
use ronny_email_worker.Models.{Detail, Precondition}
pub use ronny_email_worker.Models.{
  Reason, not_accepted, account_not_healthy, not_created, nothing_left,
}

-- The exceptions: `MailboxUnhealthy`, `IdentityLost` and `NotApplicable`.
pub data Failure : Type 0 where
  mailbox_unhealthy : Text → Failure
  identity_lost : Text → Failure
  not_applicable : Reason → Failure

pub data Answer (A : Type 0) : Type 0 where
  returned : A → Answer A
  raised : Failure → Answer A

pub record ContainerInfo : Type 0 where
  pub name : Text
  pub delimiter : Option Text
  pub special_use : Option Text
  pub selectable : Bool

pub record SelectInfo : Type 0 where
  pub uidvalidity : ℕ
  pub uidnext : ℕ
  pub message_count : ℕ
  pub highestmodseq : Option ℕ

-- What a FETCH gives back. The bytes of a message are a text of numbers below 256.
pub record MessageInfo : Type 0 where
  pub uid : ℕ
  pub flags : List Text
  pub internaldate : Option ℕ
  pub size : ℕ
  pub modseq : Option ℕ
  pub headers : Option Text
  pub raw : Option Text

-- `guarantee` is the `Precondition` that the string names.
pub record StoreResult : Type 0 where
  pub changed : Bool
  pub guarantee : Precondition
  pub detail : Option Detail
  pub resulting_uid : Option ℕ

pub record MailBackend (S : Type 0) : Type 0 where
  pub capabilities : S → S × Answer (List Text)
  pub list_containers : S → S × Answer (List ContainerInfo)
  pub select : (container : Text) (readonly : Bool) → S → S × Answer SelectInfo
  pub fetch_envelopes :
      (container : Text) (uids : List (Option ℕ)) → S → S × Answer (List MessageInfo)
  pub fetch_changed_since : (container : Text) (modseq : ℕ) → S → S × Answer (List MessageInfo)
  pub all_uids : (container : Text) → S → S × Answer (List ℕ)
  pub message_counts : (containers : List Text) → S → S × Answer (List (Text × ℕ))
  pub fetch_raw : (container : Text) (uid : ℕ) → S → S × Answer Text
  pub store_flags :
      (container : Text) (uid : Option ℕ) (flags : List (Option Text)) (add : Bool)
      → (unchanged_since : Option ℕ) → S
      → S × Answer StoreResult
  pub move :
      (container : Text) (uid : Option ℕ) (destination : Option Text)
      → (expected_modseq : Option ℕ) → S
      → S × Answer StoreResult
  pub create_container : (name : Text) → S → S × Answer ContainerInfo
  pub delete_container : (name : Text) → S → S × Answer (Unit {0})
