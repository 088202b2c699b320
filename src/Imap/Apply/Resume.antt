-- ===== src/Imap/Apply/Resume.antt =====
-- The loop of `apply_bundle` in src/mailmind/imap/apply.py, when it is stopped and when it goes
-- on.
use ronny_email_worker.Prelude.{
  ℕ, ◌≡◌, refl, ap, ◌∙◌, ◌+◌, Bool, true, false, Option, List, [], ◌∷◌, ◌++◌, arith, length,
  length-append,
}
use ronny_email_worker.Text.{Text}
use ronny_email_worker.Models.{Container, Suggestion}
use ronny_email_worker.Imap.Backend.{Failure, MailBackend}
use ronny_email_worker.Imap.Record.{Run, Ending, finished, stopped, failed}
use ronny_email_worker.Imap.Item.{apply_one}
use ronny_email_worker.Imap.Item.Second.{OneStep, apply_one_cases}
use ronny_email_worker.Imap.Apply.{apply_each}

module _ {S : Type 0} (digest : Text → Text) (backend : MailBackend S)
    (trash : Option Container) where
  one-attempts :
      (r : Run S) (s : Suggestion) (r' : Run S) (e : Ending)
      → OneStep digest r s r' e
      → e ≡ finished
      → length r'.attempts ≡ length r.attempts + 1
  one-attempts r s r' finished (a, _, h, _, _, _, _) _ = rw h (length-append r.attempts (a ∷ []))
  one-attempts r s r' stopped h _ = elim h [ ]
  one-attempts r s r' (failed x) h e = ground arith

  never_stopped :
      (r : Run S) (s : Suggestion) (r' : Run S) (e : Ending)
      → OneStep digest r s r' e
      → e ≡ stopped
      → ⊥
  never_stopped r s r' finished h e = ground arith
  never_stopped r s r' stopped h e = h
  never_stopped r s r' (failed x) h e = ground arith

  -- A run that nobody stops.
  abbrev pub never : ℕ → Bool
  never _ = false

  -- How a run under `should_stop` relates to the one that nobody stops.
  abbrev pub Agrees : (should_stop : ℕ → Bool) → Run S → List Suggestion → Run S → Ending → Type 0
  Agrees should_stop r ss r' stopped =
      (before : List Suggestion) × (rest : List Suggestion) × (ss ≡ before ++ rest)
      × (should_stop (length r'.attempts) ≡ true)
      × (length r'.attempts ≡ length r.attempts + length before)
      × (apply_each digest backend trash never r ss ≡ apply_each digest backend trash never r' rest)
  Agrees should_stop r ss r' e = apply_each digest backend trash never r ss ≡ (r', e)

  module _ (should_stop : ℕ → Bool) (r : Run S) (s : Suggestion) (ss : List Suggestion) where
    pub each-stopped :
        should_stop (length r.attempts) ≡ true
        → apply_each digest backend trash should_stop r (s ∷ ss) ≡ (r, stopped)
    unfolding apply_each
    each-stopped h = rw (apply_each, h) refl

    pub each-finished :
        should_stop (length r.attempts) ≡ false
        → (apply_one digest backend trash r s).1 ≡ finished
        → apply_each digest backend trash should_stop r (s ∷ ss)
          ≡ apply_each digest backend trash should_stop (apply_one digest backend trash r s).0 ss
    unfolding apply_each
    each-finished h e = rw (apply_each, h, e) refl

    each-failed :
        (x : Failure)
        → should_stop (length r.attempts) ≡ false
        → (apply_one digest backend trash r s).1 ≡ failed x
        → apply_each digest backend trash should_stop r (s ∷ ss)
          ≡ ((apply_one digest backend trash r s).0, failed x)
    unfolding apply_each
    each-failed x h e = rw (apply_each, h, e) refl

  Agrees-cons :
      (should_stop : ℕ → Bool) (r : Run S) (s : Suggestion) (ss : List Suggestion) (end : Run S)
      (e : Ending)
      → (apply_one digest backend trash r s).1 ≡ finished
      → length (apply_one digest backend trash r s).0.attempts ≡ length r.attempts + 1
      → Agrees should_stop (apply_one digest backend trash r s).0 ss end e
      → Agrees should_stop r (s ∷ ss) end e
  Agrees-cons should_stop r s ss end finished step counted h =
      each-finished never r s ss refl step ∙ h
  Agrees-cons should_stop r s ss end (failed x) step counted h =
      each-finished never r s ss refl step ∙ h
  Agrees-cons should_stop r s ss end stopped step counted
        (before, rest, parts, asked, done, goes_on) =
      (
        s ∷ before,
        rest,
        ap (λ l. s ∷ l) parts,
        asked,
        omega (arith, done, counted),
        each-finished never r s ss refl step ∙ goes_on,
      )

  -- The loop of `apply_bundle` against the same loop that nobody stops. If it finishes or fails, the
  -- other does so too, with the same outcome. If it stops, then because it was asked to after some
  -- first part of the items, with one attempt for each of them; and going on over the rest from
  -- where it stopped gives what the other gives over all items.
  pub apply_each_stopped :
      (should_stop : ℕ → Bool) (r : Run S) (ss : List Suggestion)
      → let (r', e) = apply_each digest backend trash should_stop r ss in
        Agrees should_stop r ss r' e
  unfolding apply_each
  apply_each_stopped should_stop r [] = refl
  apply_each_stopped should_stop r (s ∷ ss) =
      by_asked (should_stop (length r.attempts)) refl (apply_one digest backend trash r s).1 refl
        (apply_one_cases digest backend trash r s)
        (apply_each_stopped should_stop (apply_one digest backend trash r s).0 ss)
    where
      r' : Run S
      r' = (apply_one digest backend trash r s).0

      by_asked :
          (b : Bool)
          → should_stop (length r.attempts) ≡ b
          → (e : Ending) → (apply_one digest backend trash r s).1 ≡ e
          → OneStep digest r s r' (apply_one digest backend trash r s).1
          → (let (end, e') = apply_each digest backend trash should_stop r' ss in
              Agrees should_stop r' ss end e')
          → let (end, e') = apply_each digest backend trash should_stop r (s ∷ ss) in
            Agrees should_stop r (s ∷ ss) end e'
      by_asked true h e step _ rest =
          rw (each-stopped should_stop r s ss h) ([], s ∷ ss, refl, h, omega arith, refl)
      by_asked false h finished step cases rest =
          rw (each-finished should_stop r s ss h step)
            (Agrees-cons should_stop r s ss _ _ step (one-attempts r s r' _ cases step) rest)
      by_asked false h stopped step cases rest = elim (never_stopped r s r' _ cases step) [ ]
      by_asked false h (failed x) step cases rest =
          rw (each-failed should_stop r s ss x h step) (each-failed never r s ss x refl step)
