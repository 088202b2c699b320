-- ===== src/Suggest/Refusal.antt =====
-- `ProposalRefused` of src/mailmind/suggest/model.py, one constructor for each place that raises it,
-- with the values that its message is made from.
use ronny_email_worker.Prelude.{ℕ, List}
use ronny_email_worker.Text.{Text}
use ronny_email_worker.Models.{Operation, BundleStatus, Skipped}

pub data Refusal : Type 0 where
  -- validate_container_name
  space_at_an_end no_name characters_that_do_not_render inbox_exists : Refusal
  name_too_long : ℕ → Refusal
  empty_end_level empty_level : (delimiter : Text) → Refusal
  -- resolve_query
  nothing_to_search_for nothing_matches : (query : Text) → Refusal
  too_many_match : (matched : ℕ) (query : Text) (max_size : ℕ) → Refusal
  -- _add_messages
  not_in_any_container already_in_target : (message_id : ℕ) → Refusal
  -- propose_bundle
  over_folders : Operation → Refusal
  both_messages_and_query neither_messages_nor_query both_targets : Refusal
  too_many_messages : (named max_size : ℕ) → Refusal
  needs_a_target needs_a_flag : Operation → Refusal
  account_down : (account : Text) → Refusal
  target_of_another_account : Refusal
  target_discarded : (container : Text) → Refusal
  all_in_target : (matched : ℕ) (query target : Text) → Refusal
  none_take_part : (matched : ℕ) (query : Text) (left_out : Skipped) → Refusal
  -- add_to_bundle
  cannot_be_added_to : BundleStatus → Refusal
  another_producer : Refusal
  about_folders : Refusal
  would_hold_too_many : (holds arriving max_size : ℕ) → Refusal
  nothing_missing : (query : Text) → Refusal
  -- propose_discard
  no_folders : Refusal
  too_many_folders : (named max_size : ℕ) → Refusal
  folder_of_another_account : (container_id : ℕ) → Refusal
  already_discarded is_inbox : (container : Text) → Refusal
  has_special_use : (container special_use : Text) → Refusal
  folder_holds : (container : Text) (held : ℕ) → Refusal
  folders_under : (container : Text) (outside : List Text) → Refusal
  -- exclude, accept, reject, withdraw
  only_proposed_excluded : Refusal
  not_awaiting_review : BundleStatus → Refusal
  page_said_nothing : Refusal
  arrived_since : (count : ℕ) → Refusal
  all_moved_on : Operation → Refusal
  some_moved_on : (count : ℕ) → Operation → Refusal
  all_excluded_or_died : Refusal
  withdrawn_by_another : Refusal
  cannot_be_withdrawn : BundleStatus → Refusal

-- What a call answers: a value, or the exception that it raised. The state stands beside it, since
-- what was written before the exception is still there when the caller commits.
pub data Result {ℓ} (A : Type ℓ) : Type ℓ where
  ok : A → Result A
  refused : Refusal → Result A
