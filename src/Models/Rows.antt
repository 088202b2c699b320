-- ===== src/Models/Rows.antt =====
-- The rows of src/mailmind/db/models.py that the modelled code reads and writes, one record for
-- each table. A time is a number, a text is the list of its code points, a nullable column is an
-- option. Every row has the tenant of the scope that it is read through (see Scope), so the
-- records do not repeat it; columns that no modelled code reads or writes are left out.
use Prim.Native.String.{String}
use ronny_email_worker.Prelude.{ℕ, Bool, Option, List}
use ronny_email_worker.Text.{Text}
use ronny_email_worker.Models.Status.{
  AccountHealth, ActionKind, Operation, BundleStatus, SuggestionStatus, Precondition, ApplyOutcome,
  TaskKind, TaskStatus,
}

-- What changed, in words for a reviewer. The source keeps the finished sentence; here each sentence
-- is a constructor with the values that it is made from.
pub data Detail : Type 0 where
  folder_unknown : Detail
  recreated : (container : Text) → Detail
  has_left : (container : Text) → Detail
  changed : (container flags : Text) → Detail
  flags_changed : (container flags : Text) → Detail
  already_gone : (container : Text) → Detail
  folder_recreated : (container : Text) → Detail
  no_longer_empty : (container : Text) (held : ℕ) → Detail
  identity_lost : (container : Text) (uidvalidity : ℕ) → Detail
  flags_changed_on_server : (flags : List Text) → Detail
  declined : Detail
  never_made : Detail
  gone_from_server : (container : Text) → Detail
  holds_messages : (container : Text) (messages : ℕ) → Detail
  has_folders_under : (container : Text) (children : List Text) → Detail
  server_said : Text → Detail
  not_identified : (container : Text) (uidvalidity : ℕ) → Detail

pub record Account : Type 0 where
  pub id : ℕ
  pub name : Text
  pub health : AccountHealth
  pub health_detail : Option Text
  pub health_checked_at : Option ℕ
  pub cache_bodies : Bool

pub record Container : Type 0 where
  pub id : ℕ
  pub account_id : ℕ
  pub name : Text
  pub delimiter : Option Text
  pub special_use : Option Text
  pub selectable : Bool
  pub uidvalidity : Option ℕ
  pub uidnext : Option ℕ
  pub highestmodseq : Option ℕ
  pub generation : ℕ
  pub message_count : ℕ
  pub last_full_sync_at : Option ℕ
  pub last_incremental_sync_at : Option ℕ
  pub exists_on_server : Bool
  pub discarded_at : Option ℕ

pub record Placement : Type 0 where
  pub id : ℕ
  pub message_id : ℕ
  pub container_id : ℕ
  pub uid : ℕ
  pub container_generation : ℕ
  pub modseq : Option ℕ
  pub flags : Text
  pub internaldate : Option ℕ
  pub seen_at : ℕ
  pub gone_at : Option ℕ

pub record Suggestion : Type 0 where
  pub id : ℕ
  pub bundle_id : ℕ
  pub message_id : Option ℕ
  pub source_container_id : ℕ
  pub premise_container_generation : ℕ
  pub premise_uid : Option ℕ
  pub premise_modseq : Option ℕ
  pub premise_flags_hash : Text
  pub premise_message_count : Option ℕ
  pub status : SuggestionStatus
  pub stale_detail : Option Detail

-- How many messages each class of a proposal left out (`Added.skipped`).
pub record Skipped : Type 0 where
  pub already_in_target : ℕ
  pub not_in_any_folder : ℕ
  pub already_here : ℕ
  pub excluded_here : ℕ

-- An entry of `bundle.payload["queries"]`. `items` is the first and the last item that it brought.
pub record QueryEntry : Type 0 where
  pub text : Text
  pub grew : Bool
  pub at : ℕ
  pub producer_id : ℕ
  pub matched : ℕ
  pub added : ℕ
  pub skipped : Skipped
  pub items : Option (ℕ × ℕ)

-- `suggestions` is the relationship of that name: the rows whose `bundle_id` is this bundle's, in
-- the order of their ids.
pub record Bundle : Type 0 where
  pub id : ℕ
  pub account_id : ℕ
  pub producer_id : ℕ
  pub action_kind : ActionKind
  pub operation : Operation
  pub target_container_id : Option ℕ
  pub flag : Option Text
  pub queries : List QueryEntry
  pub summary : Text
  pub reason : Text
  pub status : BundleStatus
  pub expires_at : ℕ
  pub decided_at : Option ℕ
  pub decided_by_id : Option ℕ
  pub decision_reason : Option Text
  pub suggestions : List Suggestion

pub record ApplyAttempt : Type 0 where
  pub suggestion_id : ℕ
  pub precondition : Precondition
  pub guarantee_obtained : Precondition
  pub outcome : ApplyOutcome
  pub server_response : Option Detail
  pub resulting_uid : Option ℕ

-- Why a bundle is not applied (`NotApplicable` of imap/apply.py).
pub data Reason : Type 0 where
  not_accepted : BundleStatus → Reason
  account_not_healthy : AccountHealth → Reason
  not_created : (container what : Text) → Reason
  nothing_left : Reason

-- What a JSON payload or a note holds, as far as the modelled code writes it.
pub data Value : Type 0 where
  null : Value
  num : ℕ → Value
  flag : Bool → Value
  word : String → Value
  text : Text → Value
  nums : List ℕ → Value
  texts : List Text → Value
  detail : Option Detail → Value
  skipped : Skipped → Value
  kind : TaskKind → Value
  bundle_status : BundleStatus → Value
  task_status : TaskStatus → Value
  operation : Operation → Value
  outcome : ApplyOutcome → Value
  precondition : Precondition → Value
  health : AccountHealth → Value
  reason : Reason → Value

pub record Task : Type 0 where
  pub id : ℕ
  pub kind : TaskKind
  pub status : TaskStatus
  pub account_id : ℕ
  pub subject_id : ℕ
  pub payload : List (String × Value)
  pub progress_done : ℕ
  pub progress_total : Option ℕ
  pub progress_note : Option Text
  pub result : List (String × Value)
  pub error : Option Value
  pub attempts : ℕ
  pub requested_by : Option ℕ
  pub created_at : ℕ
  pub started_at : Option ℕ
  pub finished_at : Option ℕ

pub record AuditEvent : Type 0 where
  pub seq : ℕ
  pub at : ℕ
  pub actor_kind : String
  pub actor_id : Option ℕ
  pub subject_kind : String
  pub subject_id : Option ℕ
  pub verb : String
  pub payload : List (String × Value)
