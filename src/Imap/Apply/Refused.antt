-- ===== src/Imap/Apply/Refused.antt =====
-- The loop of `apply_bundle` in src/mailmind/imap/apply.py over items that the second check refuses.
use mathlib.Core.List.{append-nil, append_assoc}
use mathlib.Core.Path.{subst}
use ronny_email_worker.Prelude.{
  ℕ, ◌≡◌, ◌≢◌, refl, ap, sym, ◌∙◌, Bool, true, Option, List, [], ◌∷◌, ◌++◌, map, All, length, ◌⊎◌,
  inl, inr, Bool-cases,
}
use ronny_email_worker.Text.{Text}
use ronny_email_worker.Models.{Container, Suggestion, ApplyAttempt, ApplyOutcome, Detail}
use ronny_email_worker.Staleness.{Freshness, fresh, moved, check}
use ronny_email_worker.Imap.Backend.{MailBackend}
use ronny_email_worker.Imap.Record.{Run, Ending, finished, stopped}
use ronny_email_worker.Imap.Item.{apply_one}
use ronny_email_worker.Imap.Item.Second.{apply_one_stale}
use ronny_email_worker.Imap.Apply.{apply_each}
use ronny_email_worker.Imap.Apply.Resume.{each-stopped, each-finished}

moved_cases : (f : Freshness) → f ≢ fresh → (d : Detail) × (f ≡ moved d)
moved_cases fresh h = absurd (h refl)
moved_cases (moved d) h = (d, refl)

module _ {S : Type 0} where
  -- What a loop over such items leaves: the server and the cache as they were, the bundle's history
  -- with refusals added, one for each item in order if the loop was not stopped.
  abbrev pub Refuses : (should_stop : ℕ → Bool) → Run S → List Suggestion → Run S → Ending → Type 0
  Refuses should_stop r ss r' e =
      (r'.server ≡ r.server)
      × (r'.db.cache ≡ r.db.cache)
      × (new : List ApplyAttempt) × (r'.attempts ≡ r.attempts ++ new)
      × All (λ a. a.outcome ≡ ApplyOutcome.refused_stale) new
      × (((e ≡ finished)
            × (map (λ (a : ApplyAttempt). a.suggestion_id) new ≡ map (λ (s : Suggestion). s.id) ss))
          ⊎ ((e ≡ stopped) × (should_stop (length r'.attempts) ≡ true)))

  Refuses-cons :
      (should_stop : ℕ → Bool) (r r_one r' : Run S) (s : Suggestion) (ss : List Suggestion)
      (a : ApplyAttempt) (e : Ending)
      → r_one.server ≡ r.server
      → r_one.db.cache ≡ r.db.cache
      → r_one.attempts ≡ r.attempts ++ a ∷ []
      → a.outcome ≡ ApplyOutcome.refused_stale
      → a.suggestion_id ≡ s.id
      → Refuses should_stop r_one ss r' e
      → Refuses should_stop r (s ∷ ss) r' e
  Refuses-cons should_stop r r_one r' s ss a e server cache attempts outcome id
        (server', cache', new, attempts', outcomes, ending) =
      (
        server' ∙ server,
        cache' ∙ cache,
        a ∷ new,
        attempts' ∙ ap (λ l. l ++ new) attempts ∙ append_assoc r.attempts (a ∷ []) new,
        (outcome, outcomes),
        elim ending [
          | inl (done, ids) ↦ inl (done, rw id (ap (λ l. s.id ∷ l) ids))
          | inr h ↦ inr h
        ],
      )

module _ {S : Type 0} (digest : Text → Text) (backend : MailBackend S)
    (trash : Option Container) where
  -- Items that `check` finds no longer fresh in the cache as the loop starts never reach the server: the
  -- loop over them, stopped or not, leaves the server and the cache as they were and does not fail,
  -- and all attempts that it adds are refusals. It goes through, with one attempt for each item in
  -- order, or `should_stop` says to stop at the number of attempts that it leaves.
  pub apply_each_stale :
      (should_stop : ℕ → Bool) (r : Run S) (ss : List Suggestion)
      → All (λ s. check digest r.db.cache s ≢ fresh) ss
      → let (r', e) = apply_each digest backend trash should_stop r ss in
        Refuses should_stop r ss r' e
  unfolding apply_each
  apply_each_stale should_stop r [] h =
      (refl, refl, [], sym (append-nil r.attempts), tt, inl (refl, refl))
  apply_each_stale should_stop r (s ∷ ss) h =
      let (d, e) = moved_cases (check digest r.db.cache s) h.0 in
      let (done, server, cache, items, a, attempts, outcome, id) =
        apply_one_stale digest backend trash r s d e in
      let r_one = (apply_one digest backend trash r s).0 in
      let rest =
        apply_each_stale should_stop r_one ss
          (subst (λ c. All (λ s. check digest c s ≢ fresh) ss) (sym cache) h.1) in
      elim (Bool-cases (should_stop (length r.attempts))) [
        | inl stop ↦
            rw (each-stopped digest backend trash should_stop r s ss stop)
              (refl, refl, [], sym (append-nil r.attempts), tt, inr (refl, stop))
        | inr go ↦ rw (each-finished digest backend trash should_stop r s ss go done) (
            Refuses-cons should_stop r r_one
              (apply_each digest backend trash should_stop r_one ss).0 s ss a _ server cache
              attempts outcome id rest)
      ]
