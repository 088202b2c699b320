-- ===== src/Suggest/Request.antt =====
-- What `propose_bundle` of src/mailmind/suggest/model.py is asked for, what it refuses at once, and
-- the target that it finds.
use ronny_email_worker.Prelude.{
  ℕ, Bool, true, false, not, ◌&&◌, Option, none, some, List, [], ◌∷◌, ◌==◌, ltb, if◌then◌else◌,
  is_none, is_some, is_empty, length,
}
use ronny_email_worker.Text.{Text}
use ronny_email_worker.Models.{
  Account, Container, Operation, health_is_down, is_container_operation, needs_target, needs_flag,
}
use ronny_email_worker.Scope.{Db, get_container}
use ronny_email_worker.Suggest.Target.{resolve_target}
use ronny_email_worker.Suggest.Refusal.{
  Refusal, Result, ok, refused, over_folders, both_messages_and_query, neither_messages_nor_query,
  both_targets, too_many_messages, needs_a_target, needs_a_flag, account_down,
  target_of_another_account, target_discarded,
}

-- Whether a text that may be missing is true in a condition.
abbrev pub is_given : Option Text → Bool
is_given none = false
is_given (some []) = false
is_given (some (c ∷ s)) = true

-- The arguments of `propose_bundle`. No message ids is the empty list, as None is to its tests.
pub record Request : Type 0 where
  pub operation : Operation
  pub message_ids : List ℕ
  pub query : Option Text
  pub summary : Text
  pub reason : Text
  pub target_container_id : Option ℕ
  pub target_container_name : Option Text
  pub flag : Option Text
  pub expiry_days : ℕ
  pub max_size : ℕ

-- The refusals of `propose_bundle` that come before it looks anything up.
unfoldable pub refuse_request : Account → Request → Option Refusal
refuse_request account q =
    if is_container_operation q.operation
    then some (over_folders q.operation)
    else if not (is_empty q.message_ids) && is_some q.query
    then some both_messages_and_query
    else if is_empty q.message_ids && is_none q.query
    then some neither_messages_nor_query
    else if ltb q.max_size (length q.message_ids)
    then some (too_many_messages (length q.message_ids) q.max_size)
    else if is_some q.target_container_id && is_some q.target_container_name
    then some both_targets
    else if needs_target q.operation
        && is_none q.target_container_id
        && not (is_given q.target_container_name)
    then some (needs_a_target q.operation)
    else if needs_flag q.operation && not (is_given q.flag)
    then some (needs_a_flag q.operation)
    else if health_is_down account.health
    then some (account_down account.name)
    else none

-- The target that is given by its id.
unfoldable pub check_target : Account → Option Container → Result (Option Container)
check_target account none = refused target_of_another_account
check_target account (some k) =
    if not (k.account_id == account.id)
    then refused target_of_another_account
    else if is_some k.discarded_at
    then refused (target_discarded k.name)
    else ok (some k)

abbrev pub only_container : Result (Container × Bool) → Result (Option Container)
only_container (ok (k, is_new)) = ok (some k)
only_container (refused r) = refused r

unfoldable pub find_target : Db → Account → Request → Db × Result (Option Container)
find_target db account q = elim q.target_container_name [
  | some name ↦
      let (db', resolved) = resolve_target db account.id name in (db', only_container resolved)
  | none ↦ elim q.target_container_id [
    | none ↦ (db, ok none)
    | some id ↦ (db, check_target account (get_container db.cache id))
  ]
]
