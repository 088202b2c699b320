-- ===== src/Imap/Item/Second.antt =====
-- What `_apply_one` of src/mailmind/imap/apply.py leaves behind, on each of its branches.
use ronny_email_worker.Prelude.{
  ◌≡◌, refl, Bool, true, false, not, ◌&&◌, Option, none, some, List, [], ◌∷◌, ◌++◌, ◌⊎◌, inl, inr,
  is_none, is_some, if◌then◌else◌, arith,
}
use ronny_email_worker.Text.{Text, text_eq}
use ronny_email_worker.Models.{
  Detail, Container, Suggestion, ApplyAttempt, SuggestionStatus, Precondition, ApplyOutcome,
}
use ronny_email_worker.Scope.{Cache, get_container, audit}
use ronny_email_worker.Staleness.{Freshness, fresh, moved, check, check_in, flags_hash_of}
use ronny_email_worker.Imap.Backend.{
  Answer, returned, raised, MessageInfo, StoreResult, MailBackend,
}
use ronny_email_worker.Imap.Perform.{perform}
use ronny_email_worker.Imap.Record.{
  Run, Ending, finished, stopped, failed, put_item, update_cache, record_attempt, refuse_stale,
}
use ronny_email_worker.Imap.Item.{
  settle, order, perform_item, apply_observed, apply_from, apply_checked, apply_one,
}

check-unknown :
    (digest : Text → Text) (c : Cache) (s : Suggestion)
    → get_container c s.source_container_id ≡ none
    → check digest c s ≡ moved Detail.folder_unknown
unfolding check check_in
check-unknown digest c s e = rw (check, e) refl

fresh-known :
    (digest : Text → Text) (c : Cache) (s : Suggestion)
    → get_container c s.source_container_id ≡ none
    → check digest c s ≡ fresh
    → ⊥
fresh-known digest c s e h = ground (arith, check-unknown digest c s e)

module _ {S : Type 0} (digest : Text → Text) where
  -- One attempt is recorded for the item, and the item becomes applied, which needs the second check
  -- to find it fresh, or stale, which leaves the cache alone.
  abbrev pub Recorded : Run S → Suggestion → Run S → Type 0
  Recorded r s r' =
      (a : ApplyAttempt) × (t : Suggestion) × (r'.attempts ≡ r.attempts ++ a ∷ [])
      × (r'.bundle ≡ record r.bundle { suggestions = put_item t r.bundle.suggestions })
      × (a.suggestion_id ≡ s.id)
      × (t.id ≡ s.id)
      × (((a.outcome ≡ ApplyOutcome.applied)
            × (t.status ≡ SuggestionStatus.applied)
            × (check digest r.db.cache s ≡ fresh))
          ⊎ ((a.outcome ≡ ApplyOutcome.refused_stale)
              × (t.status ≡ SuggestionStatus.stale)
              × (r'.db.cache ≡ r.db.cache)))

  abbrev pub Untouched : Run S → Run S → Type 0
  Untouched r r' = (r'.db ≡ r.db) × (r'.bundle ≡ r.bundle) × (r'.attempts ≡ r.attempts)

  -- What one item may do to a run, by how it ends.
  abbrev pub OneStep : Run S → Suggestion → Run S → Ending → Type 0
  OneStep r s r' finished = Recorded r s r'
  OneStep r s r' stopped = ⊥
  OneStep r s r' (failed _) = Untouched r r'

  refuse_stale-Recorded :
      (r : Run S) (s : Suggestion) (server : S) (g : Precondition) (shown said : Option Detail)
      → Recorded r s (refuse_stale (record r { server = server }) s g shown said)
  unfolding refuse_stale record_attempt audit
  refuse_stale-Recorded r s server g shown said =
      (_, _, refl, refl, refl, refl, inr (refl, refl, refl))

  abbrev pub Stepped : Run S → Suggestion → Run S × Ending → Type 0
  Stepped r s step = OneStep r s step.0 step.1

  if-Stepped :
      (r : Run S) (s : Suggestion) (b : Bool) (x y : Run S × Ending)
      → Stepped r s x
      → Stepped r s y
      → Stepped r s (if b then x else y)
  if-Stepped r s true x y hx hy = hx
  if-Stepped r s false x y hx hy = hy

  applied-Recorded :
      (r : Run S) (s : Suggestion) (server : S) (result : StoreResult)
      → check digest r.db.cache s ≡ fresh
      → Recorded r s (
          record_attempt
            (record r { server = server; db = update_cache r.db r.bundle s })
            (record s { status = SuggestionStatus.applied })
            result.guarantee
            ApplyOutcome.applied
            result.detail
            result.resulting_uid)
  unfolding record_attempt
  applied-Recorded r s server result h = (_, _, refl, refl, refl, refl, inl (refl, refl, h))

  settle-Stepped :
      (r : Run S) (s : Suggestion) (answer : S × Answer StoreResult)
      → check digest r.db.cache s ≡ fresh
      → Stepped r s (settle r s answer)
  unfolding settle
  settle-Stepped r s (server, raised e) h = (refl, refl, refl)
  settle-Stepped r s (server, returned result) h =
      if-Stepped r s (not result.changed) _ _
        (refuse_stale-Recorded r s server result.guarantee _ result.detail)
        (applied-Recorded r s server result h)

  module _ (backend : MailBackend S) (trash : Option Container) where
    perform_item-Stepped :
        (r : Run S) (s : Suggestion) (source : Container)
        → check digest r.db.cache s ≡ fresh
        → Stepped r s (perform_item digest backend trash r s source)
    unfolding perform_item
    perform_item-Stepped r s source h =
        settle-Stepped r s
          (perform backend r.bundle.operation (order digest backend trash r s source) r.server) h

    apply_observed-Stepped :
        (r : Run S) (s : Suggestion) (source : Container) (answer : S × Answer (List MessageInfo))
        → check digest r.db.cache s ≡ fresh
        → Stepped r s (apply_observed digest backend trash r s source answer)
    unfolding apply_observed
    apply_observed-Stepped r s source (server, raised e) h = (refl, refl, refl)
    apply_observed-Stepped r s source (server, returned []) h =
        refuse_stale-Recorded r s server Precondition.best_effort _ _
    apply_observed-Stepped r s source (server, returned (info ∷ infos)) h =
        if-Stepped r s (not (text_eq (flags_hash_of digest info.flags) s.premise_flags_hash)) _ _
          (refuse_stale-Recorded r s server Precondition.best_effort _ _)
          (perform_item-Stepped (record r { server = server }) s source h)

    apply_from-Stepped :
        (r : Run S) (s : Suggestion) (source : Container)
        → check digest r.db.cache s ≡ fresh
        → Stepped r s (apply_from digest backend trash r s source)
    unfolding apply_from
    apply_from-Stepped r s source h =
        if-Stepped r s (is_some s.message_id && is_none s.premise_modseq) _ _
          (apply_observed-Stepped r s source
            (backend.fetch_envelopes source.name (s.premise_uid ∷ []) r.server) h)
          (perform_item-Stepped r s source h)

    apply_checked-Stepped :
        (r : Run S) (s : Suggestion) (verdict : Freshness) (o : Option Container)
        → get_container r.db.cache s.source_container_id ≡ o
        → check digest r.db.cache s ≡ verdict
        → Stepped r s (apply_checked digest backend trash r s verdict)
    unfolding apply_checked check check_in
    apply_checked-Stepped r s (moved d) o e h = refuse_stale-Recorded r s r.server _ _ _
    apply_checked-Stepped r s fresh none e h = elim (fresh-known digest r.db.cache s e h) [ ]
    apply_checked-Stepped r s fresh (some k) e h =
        rw (apply_checked, e) (apply_from-Stepped r s k h)

    -- Whatever the server does, `_apply_one` of an item ends in one of two ways. Either the server
    -- has failed, and the database, the items and the attempts are as before. Or it finishes, and
    -- then it records exactly one attempt, for that item: the item is applied, which needs the second
    -- check to find it fresh, or the item is stale and the cache is as before.
    pub apply_one_cases :
        (r : Run S) (s : Suggestion)
        → let (r', e) = apply_one digest backend trash r s in OneStep r s r' e
    unfolding apply_one
    apply_one_cases r s =
        apply_checked-Stepped r s (check digest r.db.cache s)
          (get_container r.db.cache s.source_container_id) refl refl

    -- An item that the second check finds no longer fresh never reaches the server: `_apply_one`
    -- finishes, the server and the cache are as before, the item is stale, and its attempt is recorded as
    -- refused.
    pub apply_one_stale :
        (r : Run S) (s : Suggestion) (d : Detail)
        → check digest r.db.cache s ≡ moved d
        → let (r', e) = apply_one digest backend trash r s in
          (e ≡ finished)
          × (r'.server ≡ r.server)
          × (r'.db.cache ≡ r.db.cache)
          × (r'.bundle.suggestions
              ≡ put_item
                  (record s { status = SuggestionStatus.stale; stale_detail = some d })
                  r.bundle.suggestions)
          × (a : ApplyAttempt) × (r'.attempts ≡ r.attempts ++ a ∷ [])
          × (a.outcome ≡ ApplyOutcome.refused_stale)
          × (a.suggestion_id ≡ s.id)
    unfolding apply_one apply_checked refuse_stale record_attempt audit
    apply_one_stale r s d h = rw (apply_one, h) (refl, refl, refl, refl, _, refl, refl, refl)
