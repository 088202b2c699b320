-- ===== src/Imap/Record.antt =====
-- `_update_cache` and `_record` of src/mailmind/imap/apply.py, and the state of a run.
use ronny_email_worker.Prelude.{
  ℕ, Bool, false, not, ◌&&◌, Option, none, some, List, [], ◌∷◌, ◌++◌, ◌==◌, opt_eq, if◌then◌else◌,
  keep,
}
use ronny_email_worker.Text.{distinct_texts, Text, text_eq, words, unwords, sorted}
use ronny_email_worker.Models.{
  Detail, Container, Placement, Suggestion, Bundle, ApplyAttempt, Value, Operation,
  SuggestionStatus, Precondition, ApplyOutcome, is_container_operation,
}
use ronny_email_worker.Scope.{Db, get_container, audit}
use ronny_email_worker.Suggest.Target.{set_container}
use ronny_email_worker.Imap.Backend.{Failure}

-- PRECONDITION
abbrev pub precondition : Operation → Precondition
precondition Operation.move = Precondition.best_effort
precondition Operation.discard_container = Precondition.best_effort
precondition _ = Precondition.conditional

-- What a run of `apply_bundle` writes: the database, the bundle with its items, the server, and the
-- attempts that it records, in order.
pub record Run (S : Type 0) : Type 0 where
  pub db : Db
  pub bundle : Bundle
  pub server : S
  pub attempts : List ApplyAttempt

-- How an item or a run ends.
pub data Ending : Type 0 where
  finished stopped : Ending
  failed : Failure → Ending

-- An assignment to an item: the row of that id is replaced.
unfoldable pub put_item : Suggestion → List Suggestion → List Suggestion
put_item s [] = []
put_item s (t ∷ ts) = if t.id == s.id then s ∷ put_item s ts else t ∷ put_item s ts

abbrev pub flags_with : Text → Text → Text
flags_with flag flags = unwords (sorted (distinct_texts (flag ∷ words flags)))

abbrev pub flags_without : Text → Text → Text
flags_without flag flags =
    unwords (sorted (keep (λ w. not (text_eq w flag)) (distinct_texts (words flags))))

-- What `_update_cache` does to the placement. A flag operation has a flag (ck_flag_op_needs_flag).
unfoldable pub updated : Operation → Option Text → (now : ℕ) → Placement → Placement
updated Operation.move flag now p = record p { gone_at = some now }
updated Operation.delete flag now p = record p { gone_at = some now }
updated Operation.add_flag (some flag) now p = record p { flags = flags_with flag p.flags }
updated Operation.remove_flag (some flag) now p = record p { flags = flags_without flag p.flags }
updated _ flag now p = p

-- The placement that an item is about.
abbrev pub is_premise_of : Suggestion → Placement → Bool
is_premise_of s p =
    p.container_id == s.source_container_id
    && p.container_generation == s.premise_container_generation
    && opt_eq (some p.uid) s.premise_uid

-- The row that the query finds; the unique constraint lets there be one at most.
unfoldable pub update_placement :
    (Placement → Bool) → (Placement → Placement) → List Placement → List Placement
update_placement found f [] = []
update_placement found f (p ∷ ps) = if found p then f p ∷ ps else p ∷ update_placement found f ps

unfoldable pub discarded : Db → Option Container → Db
discarded db none = db
discarded db (some k) =
    set_container
      (record k { discarded_at = some db.now; exists_on_server = false; message_count = 0 }) db

-- `_update_cache`
unfoldable pub update_cache : Db → Bundle → Suggestion → Db
update_cache db b s =
    if is_container_operation b.operation
    then discarded db (get_container db.cache s.source_container_id)
    else record db {
      cache = record db.cache {
        placements =
            update_placement (is_premise_of s) (updated b.operation b.flag db.now)
              db.cache.placements;
      };
    }

-- `_record`, with the item as it now is.
unfoldable pub record_attempt :
    {S : Type 0}
    → Run S
    → Suggestion
    → (guarantee : Precondition) → ApplyOutcome
    → (detail : Option Detail) → (resulting_uid : Option ℕ) → Run S
record_attempt r s guarantee outcome detail resulting_uid = record r {
  db =
      audit "apply_attempted" "service" "suggestion" none (some s.id)
        (("outcome", Value.outcome outcome)
          ∷ ("precondition", Value.precondition (precondition r.bundle.operation))
          ∷ ("guarantee_obtained", Value.precondition guarantee)
          ∷ ("detail", Value.detail detail)
          ∷ [])
        r.db;
  bundle = record r.bundle { suggestions = put_item s r.bundle.suggestions };
  attempts =
      r.attempts
      ++ record {
        suggestion_id = s.id;
        precondition = precondition r.bundle.operation;
        guarantee_obtained = guarantee;
        outcome = outcome;
        server_response = detail;
        resulting_uid = resulting_uid;
      }
        ∷ [];
}

-- An item that turned out not to hold.
unfoldable pub refuse_stale :
    {S : Type 0}
    → Run S
    → Suggestion
    → (guarantee : Precondition) → (shown said : Option Detail) → Run S
refuse_stale r s guarantee shown said =
    record_attempt r (record s { status = SuggestionStatus.stale; stale_detail = shown }) guarantee
      ApplyOutcome.refused_stale said none
