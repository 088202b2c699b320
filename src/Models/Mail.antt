-- ===== src/Models/Mail.antt =====
-- The rows of src/mailmind/db/models.py that describe mail, and what src/mailmind/content makes of a
-- message: `ParsedMessage` and `MechanicalFinding`.
use Prim.Native.String.{String}
use ronny_email_worker.Prelude.{ℕ, Bool, true, false, Option, List}
use ronny_email_worker.Text.{Text}
use ronny_email_worker.Models.Rows.{Value}

pub data ParseStatus : Type 0 where
  ok partial unparseable : ParseStatus

pub data AddressRole : Type 0 where
  from to cc bcc reply_to : AddressRole

pub record Link : Type 0 where
  pub text : Text
  pub target : Text

pub record Attachment : Type 0 where
  pub filename : Option Text
  pub content_type : Text
  pub size : ℕ

-- `ParsedMessage`. The string of the status is the member of `ParseStatus` that it names, and the
-- string of a role is the member of `AddressRole`.
pub record ParsedMessage : Type 0 where
  pub message_id : Option Text
  pub subject : Option Text
  pub date : Option ℕ
  pub from_address : Option Text
  pub from_display : Option Text
  pub addresses : List (AddressRole × Text × Option Text)
  pub in_reply_to : Option Text
  pub list_id : Option Text
  pub has_list_unsubscribe : Bool
  pub text_plain : Option Text
  pub text_from_html : Option Text
  pub links : List Link
  pub attachments : List Attachment
  pub parse_status : ParseStatus
  pub parse_detail : Option Text
  pub size_bytes : ℕ

pub record Message : Type 0 where
  pub id : ℕ
  pub account_id : ℕ
  pub message_id_header : Option Text
  pub content_key : Text
  pub subject : Option Text
  pub date_header : Option ℕ
  pub from_address : Option Text
  pub from_display : Option Text
  pub size_bytes : Option ℕ
  pub has_attachments : Bool
  pub list_id : Option Text
  pub has_list_unsubscribe : Bool
  pub in_reply_to : Option Text
  pub preview : Option Text
  pub parse_detail : Option Text
  pub parse_status : ParseStatus
  pub cached_at : ℕ

pub record MessageAddress : Type 0 where
  pub message_id : ℕ
  pub role : AddressRole
  pub address : Text
  pub display_name : Option Text

pub record MessageBody : Type 0 where
  pub id : ℕ
  pub message_id : ℕ
  pub text_plain : Option Text
  pub text_from_html : Option Text
  pub links : List Link
  pub attachments : List Attachment
  pub bytes_stored : ℕ
  pub cached_at : ℕ
  pub last_read_at : ℕ

pub data SubjectKind : Type 0 where
  message bundle : SubjectKind

-- `subject_kind == SubjectKind.message`
abbrev pub is_message : SubjectKind → Bool
is_message SubjectKind.message = true
is_message SubjectKind.bundle = false

pub data AssessmentOrigin : Type 0 where
  mechanical producer : AssessmentOrigin

-- `origin == AssessmentOrigin.mechanical`
abbrev pub is_mechanical : AssessmentOrigin → Bool
is_mechanical AssessmentOrigin.mechanical = true
is_mechanical AssessmentOrigin.producer = false

pub data FindingClass : Type 0 where
  mechanical interpretation : FindingClass

pub record MechanicalFinding : Type 0 where
  pub code : Text
  pub detail : Text
  pub evidence : List (String × Value)

pub record Finding : Type 0 where
  pub finding_class : FindingClass
  pub code : Text
  pub detail : Text
  pub evidence : List (String × Value)

-- `findings` is the relationship of that name.
pub record Assessment : Type 0 where
  pub id : ℕ
  pub subject_kind : SubjectKind
  pub subject_id : ℕ
  pub origin : AssessmentOrigin
  pub producer_id : Option ℕ
  pub created_at : ℕ
  pub findings : List Finding

-- A row of the FTS5 table `message_fts`.
pub record IndexEntry : Type 0 where
  pub subject : Text
  pub from_text : Text
  pub preview : Text
  pub message_id : ℕ
  pub account_id : ℕ
