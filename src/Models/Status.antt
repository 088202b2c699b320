-- ===== src/Models/Status.antt =====
-- The enumerations of src/mailmind/db/models.py, with the tests that the code makes on them.
use ronny_email_worker.Prelude.{Bool, true, false}

pub data AccountHealth : Type 0 where
  unknown ok read_only down : AccountHealth

-- `health is AccountHealth.down`, `health is AccountHealth.ok`
abbrev pub health_is_down : AccountHealth → Bool
health_is_down AccountHealth.down = true
health_is_down _ = false

abbrev pub health_is_ok : AccountHealth → Bool
health_is_ok AccountHealth.ok = true
health_is_ok _ = false

pub data ActionKind : Type 0 where
  state draft : ActionKind

pub data Operation : Type 0 where
  move add_flag remove_flag delete discard_container : Operation

-- `operation in CONTAINER_OPERATIONS`
abbrev pub is_container_operation : Operation → Bool
is_container_operation Operation.discard_container = true
is_container_operation _ = false

-- `operation in NEEDS_TARGET`, `operation in NEEDS_FLAG` (suggest/model.py)
abbrev pub needs_target : Operation → Bool
needs_target Operation.move = true
needs_target _ = false

abbrev pub needs_flag : Operation → Bool
needs_flag Operation.add_flag = true
needs_flag Operation.remove_flag = true
needs_flag _ = false

pub data BundleStatus : Type 0 where
  proposed accepted applied partially_applied rejected withdrawn superseded expired stale :
      BundleStatus

-- `bundle.status is BundleStatus.proposed`, and so on.
abbrev pub bundle_is_proposed : BundleStatus → Bool
bundle_is_proposed BundleStatus.proposed = true
bundle_is_proposed _ = false

abbrev pub bundle_is_accepted : BundleStatus → Bool
bundle_is_accepted BundleStatus.accepted = true
bundle_is_accepted _ = false

abbrev pub bundle_is_stale : BundleStatus → Bool
bundle_is_stale BundleStatus.stale = true
bundle_is_stale _ = false

pub data SuggestionStatus : Type 0 where
  proposed excluded accepted applied rejected withdrawn superseded stale expired failed :
      SuggestionStatus

-- `suggestion.status is SuggestionStatus.proposed`, and so on.
abbrev pub item_is_proposed : SuggestionStatus → Bool
item_is_proposed SuggestionStatus.proposed = true
item_is_proposed _ = false

abbrev pub item_is_excluded : SuggestionStatus → Bool
item_is_excluded SuggestionStatus.excluded = true
item_is_excluded _ = false

abbrev pub item_is_accepted : SuggestionStatus → Bool
item_is_accepted SuggestionStatus.accepted = true
item_is_accepted _ = false

abbrev pub item_is_applied : SuggestionStatus → Bool
item_is_applied SuggestionStatus.applied = true
item_is_applied _ = false

abbrev pub item_is_stale : SuggestionStatus → Bool
item_is_stale SuggestionStatus.stale = true
item_is_stale _ = false

-- `status in (SuggestionStatus.proposed, SuggestionStatus.accepted)`
abbrev pub item_is_live : SuggestionStatus → Bool
item_is_live SuggestionStatus.proposed = true
item_is_live SuggestionStatus.accepted = true
item_is_live _ = false

-- `status in (SuggestionStatus.stale, SuggestionStatus.failed)`
abbrev pub item_is_dead : SuggestionStatus → Bool
item_is_dead SuggestionStatus.stale = true
item_is_dead SuggestionStatus.failed = true
item_is_dead _ = false

pub data Precondition : Type 0 where
  conditional best_effort : Precondition

pub data ApplyOutcome : Type 0 where
  applied refused_stale failed : ApplyOutcome

pub data TaskKind : Type 0 where
  apply_bundle sync_account sync_container fetch_body : TaskKind

abbrev pub kind_eq : TaskKind → TaskKind → Bool
kind_eq TaskKind.apply_bundle TaskKind.apply_bundle = true
kind_eq TaskKind.sync_account TaskKind.sync_account = true
kind_eq TaskKind.sync_container TaskKind.sync_container = true
kind_eq TaskKind.fetch_body TaskKind.fetch_body = true
kind_eq _ _ = false

pub data TaskStatus : Type 0 where
  queued running done failed : TaskStatus

abbrev pub task_is_queued : TaskStatus → Bool
task_is_queued TaskStatus.queued = true
task_is_queued _ = false

abbrev pub task_is_running : TaskStatus → Bool
task_is_running TaskStatus.running = true
task_is_running _ = false

-- `status in LIVE` (tasks.py)
abbrev pub task_is_live : TaskStatus → Bool
task_is_live TaskStatus.queued = true
task_is_live TaskStatus.running = true
task_is_live _ = false
