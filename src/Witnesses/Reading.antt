-- ===== src/Witnesses/Reading.antt =====
-- A reader of messages, an empty cache of one mailbox, and a server that holds one message.
use ronny_email_worker.Prelude.{ℕ, suc, true, false, none, some, [], ◌∷◌, length}
use ronny_email_worker.Text.{Text, codes}
use ronny_email_worker.Models.{Container, ParsedMessage, ParseStatus, AddressRole}
use ronny_email_worker.Content.{Reader}
use ronny_email_worker.Caching.{Store}
use ronny_email_worker.Imap.Backend.{MailBackend, MessageInfo, returned}
use ronny_email_worker.Imap.Sync.Session.{Session}
use ronny_email_worker.Witnesses.Data.{same_text, folder, db, waiting, counting}

-- What is read of a message: its bytes are its subject and its id.
abbrev pub parsed : Text → ParsedMessage
parsed raw = record {
  message_id = some raw;
  subject = some raw;
  date = none;
  from_address = some (codes "a@example");
  from_display = none;
  addresses = (AddressRole.from, codes "a@example", none) ∷ [];
  in_reply_to = none;
  list_id = none;
  has_list_unsubscribe = false;
  text_plain = none;
  text_from_html = none;
  links = [];
  attachments = [];
  parse_status = ParseStatus.ok;
  parse_detail = none;
  size_bytes = length raw;
}

abbrev pub reader : Reader
reader = record {
  parse_message = λ raw headers_only. parsed raw;
  lexer = record {
    addresses_in = λ t. [];
    is_host_like = λ t. false;
    hostname = λ t. none;
    lower = same_text;
    describe = λ n. n ∷ [];
    decimal = λ n. n ∷ [];
  };
  digest = same_text;
  isoformat = λ n. n ∷ [];
}

abbrev pub store : Store
store = record {
  db = db;
  bundles = waiting ∷ [];
  messages = [];
  addresses = [];
  bodies = [];
  assessments = [];
  index = [];
  next_message = 20;
  next_placement = 30;
  next_assessment = 40;
  next_body = 50;
}

abbrev pub session : Session ℕ
session = record { store = store; saved = store; server = 0 }

abbrev pub eighth : MessageInfo
eighth = record {
  uid = 8;
  flags = codes "seen" ∷ [];
  internaldate = some 60;
  size = 900;
  modseq = none;
  headers = some (codes "Subject: x");
  raw = none;
}

-- A server whose one folder holds the message 8, where the cache knows of the message 7.
abbrev pub mailbox : MailBackend ℕ
mailbox = record counting {
  all_uids = λ name n. (suc n, returned (8 ∷ []));
  fetch_envelopes = λ name uids n. (suc n, returned (eighth ∷ []));
  list_containers = λ n. (
    suc n,
    returned (
        record { name = codes "Lists"; delimiter = none; special_use = none; selectable = true }
        ∷ []),
  );
}

abbrev pub lists : Container
lists = folder 1 (codes "Lists")
