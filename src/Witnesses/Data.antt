-- ===== src/Witnesses/Data.antt =====
-- The mailbox, the bundles and the mail server that the examples run on.
use ronny_email_worker.Prelude.{ℕ, suc, true, false, none, some, List, [], ◌∷◌}
use ronny_email_worker.Text.{Text, codes}
use ronny_email_worker.Models.{
  Account, AccountHealth, ActionKind, Operation, Container, Placement, Suggestion, Bundle,
  SuggestionStatus, BundleStatus, Precondition,
}
use ronny_email_worker.Scope.{Cache, Db}
use ronny_email_worker.Search.{FtsRow}
use ronny_email_worker.Imap.Backend.{returned, raised, mailbox_unhealthy, MailBackend}
use ronny_email_worker.Imap.Record.{Run}
use ronny_email_worker.Suggest.Request.{Request}

-- A digest that forgets nothing.
abbrev pub same_text : Text → Text
same_text t = t

abbrev pub home : Account
home = record {
  id = 1;
  name = codes "home";
  health = AccountHealth.ok;
  health_detail = none;
  health_checked_at = none;
  cache_bodies = false;
}

abbrev pub folder : (id : ℕ) → Text → Container
folder id name = record {
  id = id;
  account_id = 1;
  name = name;
  delimiter = some (codes "/");
  special_use = none;
  selectable = true;
  uidvalidity = some 1;
  uidnext = none;
  highestmodseq = none;
  generation = 3;
  message_count = 1;
  last_full_sync_at = none;
  last_incremental_sync_at = none;
  exists_on_server = true;
  discarded_at = none;
}

-- The message 10 as the folder 1 holds it.
abbrev pub here : Placement
here = record {
  id = 1;
  message_id = 10;
  container_id = 1;
  uid = 7;
  container_generation = 3;
  modseq = some 5;
  flags = [];
  internaldate = none;
  seen_at = 40;
  gone_at = none;
}

abbrev pub cache : Cache
cache = record {
  accounts = home ∷ [];
  containers = folder 1 (codes "Lists") ∷ folder 2 (codes "Old") ∷ folder 3 (codes "Old/Er") ∷ [];
  placements = here ∷ [];
}

abbrev pub db : Db
db = record {
  cache = cache;
  events = [];
  now = 100;
  next_container = 4;
  next_bundle = 3;
  next_suggestion = 6;
}

-- The item 4, about the message 10; the item 5, about a message that no folder holds.
abbrev pub item : SuggestionStatus → Suggestion
item status = record {
  id = 4;
  bundle_id = 2;
  message_id = some 10;
  source_container_id = 1;
  premise_container_generation = 3;
  premise_uid = some 7;
  premise_modseq = some 5;
  premise_flags_hash = [];
  premise_message_count = none;
  status = status;
  stale_detail = none;
}

abbrev pub lost : SuggestionStatus → Suggestion
lost status = record (item status) { id = 5; message_id = some 11; premise_uid = some 8 }

-- The item for the empty folder 2 or 3.
abbrev pub empty_folder : (id container_id : ℕ) → Suggestion
empty_folder id container_id = record (item SuggestionStatus.accepted) {
  id = id;
  message_id = none;
  source_container_id = container_id;
  premise_uid = none;
  premise_modseq = none;
  premise_message_count = some 0;
}

abbrev pub bundle : BundleStatus → List Suggestion → Bundle
bundle status items = record {
  id = 2;
  account_id = 1;
  producer_id = 5;
  action_kind = ActionKind.state;
  operation = Operation.move;
  target_container_id = some 2;
  flag = none;
  queries = [];
  summary = [];
  reason = [];
  status = status;
  expires_at = 50;
  decided_at = none;
  decided_by_id = none;
  decision_reason = none;
  suggestions = items;
}

abbrev pub waiting : Bundle
waiting = bundle BundleStatus.proposed (item SuggestionStatus.proposed ∷ [])

-- A bundle that a person has taken the message 11 out of, and that does not hold the message 10.
abbrev pub spared : Bundle
spared = bundle BundleStatus.proposed (lost SuggestionStatus.excluded ∷ [])

abbrev pub half_lost : Bundle
half_lost =
    bundle BundleStatus.proposed
      (item SuggestionStatus.proposed ∷ lost SuggestionStatus.proposed ∷ [])

abbrev pub all_lost : Bundle
all_lost = bundle BundleStatus.proposed (lost SuggestionStatus.proposed ∷ [])

abbrev pub accepted : Bundle
accepted =
    bundle BundleStatus.accepted
      (item SuggestionStatus.accepted ∷ lost SuggestionStatus.accepted ∷ [])

abbrev pub discarding : Bundle
discarding = record (bundle BundleStatus.accepted (empty_folder 4 2 ∷ empty_folder 5 3 ∷ [])) {
  operation = Operation.discard_container;
  target_container_id = none;
}

-- A server that counts the calls and grants each; its folders hold nothing.
abbrev pub counting : MailBackend ℕ
counting = record {
  capabilities = λ n. (suc n, returned []);
  fetch_changed_since = λ name modseq n. (suc n, returned []);
  all_uids = λ name n. (suc n, returned []);
  message_counts = λ names n. (suc n, returned []);
  fetch_raw = λ name uid n. (suc n, returned []);
  list_containers = λ n. (suc n, returned []);
  select = λ name readonly n. (
    suc n,
    returned (record { uidvalidity = 1; uidnext = 1; message_count = 0; highestmodseq = none }),
  );
  fetch_envelopes = λ name uids n. (suc n, returned []);
  store_flags = λ name uid flags add since n. (
    suc n,
    returned (record {
      changed = true;
      guarantee = Precondition.conditional;
      detail = none;
      resulting_uid = none;
    }),
  );
  move = λ name uid target expected n. (
    suc n,
    returned (record {
      changed = true;
      guarantee = Precondition.best_effort;
      detail = none;
      resulting_uid = some 9;
    }),
  );
  create_container = λ name n. (suc n, raised (mailbox_unhealthy name));
  delete_container = λ name n. (suc n, returned tt);
}

abbrev pub run : Run ℕ
run = record { db = db; bundle = accepted; server = 0; attempts = [] }

-- The search index holds the messages 10 and 11, and 10 twice.
abbrev pub found : Text → List FtsRow
found query =
    record { message_id = 10; account_id = 1 }
    ∷ record { message_id = 11; account_id = 1 }
    ∷ record { message_id = 10; account_id = 1 }
    ∷ []

abbrev pub request : Request
request = record {
  operation = Operation.move;
  message_ids = 10 ∷ 10 ∷ [];
  query = none;
  summary = [];
  reason = [];
  target_container_id = some 2;
  target_container_name = none;
  flag = none;
  expiry_days = 7;
  max_size = 2;
}
