-- ===== src/Caching.antt =====
-- src/mailmind/db/cache.py: writing what a mailbox said into the local cache. Searching it is in
-- Search.
pub mod Evicting
pub mod Eviction
pub mod Oldest
pub mod Rows
pub mod Contact
use ronny_email_worker.Prelude.{
  ℕ, ◌+◌, ◌-◌, Bool, true, false, not, ◌&&◌, Option, none, some, List, [], ◌∷◌, ◌++◌, map, ◌==◌,
  ltb, leb, if◌then◌else◌, first, update_first, keep, any, is_none, is_empty, length,
}
use ronny_email_worker.Text.{Text, text_eq}
use ronny_email_worker.Models.{
  AddressRole, Bundle, Message, MessageAddress, MessageBody, Assessment, AssessmentOrigin,
  SubjectKind, Finding, FindingClass, IndexEntry, MechanicalFinding, ParsedMessage, ParseStatus,
  is_message, is_mechanical,
}
use ronny_email_worker.Scope.{Db}
use ronny_email_worker.Content.Findings.{mechanical_findings}
use ronny_email_worker.Content.{Reader, preview, content_key, join_two, text_or_empty}

-- The tables that the cache keeps beside the mailboxes, the bundles, and the ids to come.
pub record Store : Type 0 where
  pub db : Db
  pub bundles : List Bundle
  pub messages : List Message
  pub addresses : List MessageAddress
  pub bodies : List MessageBody
  pub assessments : List Assessment
  pub index : List IndexEntry
  pub next_message : ℕ
  pub next_placement : ℕ
  pub next_assessment : ℕ
  pub next_body : ℕ

-- `Message.from_address == address`: SQL finds NULL equal to nothing.
abbrev pub is_address : Text → Option Text → Bool
is_address address none = false
is_address address (some a) = text_eq a address

unfoldable pub known_sender : Store → (account_id : ℕ) → Text → (before_message_id : ℕ) → Bool
known_sender s account_id address before_message_id =
    any
      (λ (row : Message).
        row.account_id == account_id
        && is_address address row.from_address
        && ltb row.id before_message_id)
      s.messages

-- The row of a content key.
abbrev pub has_key : (account_id : ℕ) → Text → Message → Bool
has_key account_id key row = row.account_id == account_id && text_eq row.content_key key

-- The columns that `upsert_message` assigns.
abbrev pub fill : ParsedMessage → (size_bytes : Option ℕ) → Message → Message
fill p size_bytes row = record row {
  message_id_header = p.message_id;
  subject = p.subject;
  date_header = p.date;
  from_address = p.from_address;
  from_display = p.from_display;
  size_bytes = elim size_bytes [ none ↦ some p.size_bytes | some n ↦ some n ];
  has_attachments = not (is_empty p.attachments);
  list_id = p.list_id;
  has_list_unsubscribe = p.has_list_unsubscribe;
  in_reply_to = p.in_reply_to;
  preview = preview p;
  parse_status = p.parse_status;
  parse_detail = p.parse_detail;
}

-- `Message(account_id=…, content_key=…)`
abbrev pub new_message : (id account_id : ℕ) → Text → (now : ℕ) → Message
new_message id account_id key now = record {
  id = id;
  account_id = account_id;
  message_id_header = none;
  content_key = key;
  subject = none;
  date_header = none;
  from_address = none;
  from_display = none;
  size_bytes = none;
  has_attachments = false;
  list_id = none;
  has_list_unsubscribe = false;
  in_reply_to = none;
  preview = none;
  parse_detail = none;
  parse_status = ParseStatus.ok;
  cached_at = now;
}

abbrev pub address_row : ℕ → AddressRole × Text × Option Text → MessageAddress
address_row id (role, address, display) = record {
  message_id = id;
  role = role;
  address = address;
  display_name = display;
}

module _ (r : Reader) where
  -- The new row of a key, with its addresses.
  unfoldable pub insert_message :
      Store → (account_id : ℕ) → ParsedMessage → Option ℕ → Store × Message
  insert_message s account_id p size_bytes =
      let made =
        fill p size_bytes (new_message s.next_message account_id (content_key r p) s.db.now) in
      (
        record s {
          messages = s.messages ++ made ∷ [];
          addresses = s.addresses ++ map (address_row s.next_message) p.addresses;
          next_message = s.next_message + 1;
        },
        made,
      )

  -- `upsert_message`, with the row and whether it was created.
  unfoldable pub upsert_message :
      Store → (account_id : ℕ) → ParsedMessage → (size_bytes : Option ℕ) → Store × Message × Bool
  upsert_message s account_id p size_bytes =
      elim (first (has_key account_id (content_key r p)) s.messages) [
        | none ↦ let (s', made) = insert_message s account_id p size_bytes in (s', made, true)
        | some row ↦ (
          record s {
            messages =
                update_first (has_key account_id (content_key r p)) (fill p size_bytes) s.messages;
          },
          fill p size_bytes row,
          false,
        )
      ]

  abbrev pub index_entry : Message → IndexEntry
  index_entry row = record {
    subject = text_or_empty row.subject;
    from_text = join_two (32 ∷ []) row.from_address row.from_display;
    preview = text_or_empty row.preview;
    message_id = row.id;
    account_id = row.account_id;
  }

  unfoldable pub index_message : Store → Message → Store
  index_message s row = record s {
    index = keep (λ (e : IndexEntry). not (e.message_id == row.id)) s.index ++ index_entry row ∷ [];
  }

  abbrev pub mechanical_finding : MechanicalFinding → Finding
  mechanical_finding f = record {
    finding_class = FindingClass.mechanical;
    code = f.code;
    detail = f.detail;
    evidence = f.evidence;
  }

  -- The rows that `record_mechanical_assessment` replaces.
  abbrev pub is_mechanical_of : Message → Assessment → Bool
  is_mechanical_of row a =
      is_message a.subject_kind && a.subject_id == row.id && is_mechanical a.origin

  -- `sender_known`: an address that is missing or empty is nobody's.
  unfoldable pub sender_known : Store → Message → ParsedMessage → Bool
  sender_known s row p = elim p.from_address [
    | none ↦ false
    | some [] ↦ false
    | some (c ∷ t) ↦ known_sender s row.account_id (c ∷ t) row.id
  ]

  abbrev pub mechanical_assessment : Store → Message → ParsedMessage → Assessment
  mechanical_assessment s row p = record {
    id = s.next_assessment;
    subject_kind = SubjectKind.message;
    subject_id = row.id;
    origin = AssessmentOrigin.mechanical;
    producer_id = none;
    created_at = s.db.now;
    findings = map mechanical_finding (mechanical_findings r.lexer p (sender_known s row p));
  }

  unfoldable pub record_mechanical_assessment : Store → Message → ParsedMessage → Store
  record_mechanical_assessment s row p = record s {
    assessments =
        keep (λ a. not (is_mechanical_of row a)) s.assessments
        ++ mechanical_assessment s row p ∷ [];
    next_assessment = s.next_assessment + 1;
  }

  abbrev pub has_message : Message → MessageBody → Bool
  has_message row b = b.message_id == row.id

  abbrev pub fill_body : (now : ℕ) → ParsedMessage → MessageBody → MessageBody
  fill_body now p b = record b {
    text_plain = p.text_plain;
    text_from_html = p.text_from_html;
    links = p.links;
    attachments = p.attachments;
    bytes_stored = length (text_or_empty p.text_plain) + length (text_or_empty p.text_from_html);
    cached_at = now;
    last_read_at = now;
  }

  -- `MessageBody(message_id=…)`
  abbrev pub new_body : (id message_id now : ℕ) → MessageBody
  new_body id message_id now = record {
    id = id;
    message_id = message_id;
    text_plain = none;
    text_from_html = none;
    links = [];
    attachments = [];
    bytes_stored = 0;
    cached_at = now;
    last_read_at = now;
  }

  unfoldable pub cache_body : Store → Message → ParsedMessage → Store
  cache_body s row p =
      if is_none (first (has_message row) s.bodies)
      then record s {
        bodies = s.bodies ++ fill_body s.db.now p (new_body s.next_body row.id s.db.now) ∷ [];
        next_body = s.next_body + 1;
      }
      else record s { bodies = update_first (has_message row) (fill_body s.db.now p) s.bodies }

  -- `refresh_from_body`, of the row of the message.
  abbrev pub read_body : ParsedMessage → Message → Message
  read_body p row = record row {
    preview = preview p;
    parse_status = p.parse_status;
    parse_detail = p.parse_detail;
    has_attachments = not (is_empty p.attachments);
  }

  unfoldable pub refresh_from_body : Store → Message → ParsedMessage → Store
  refresh_from_body s row p =
      index_message
        (record s {
          messages = update_first (λ (m : Message). m.id == row.id) (read_body p) s.messages;
        })
        (read_body p row)
