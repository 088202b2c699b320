-- ===== src/Imap/Apply/Rollup.antt =====
-- What `apply_bundle` of src/mailmind/imap/apply.py makes of the bundle, by how the run ends.
use ronny_email_worker.Prelude.{
  ℕ, ◌≡◌, ◌≢◌, refl, ap, length, ◌∙◌, ◌≤◌, Bool, true, false, not, Option, none, some, List, [],
  ◌∷◌, ◌⊎◌, inl, if◌then◌else◌, arith, count_of,
}
use ronny_email_worker.Text.{Text}
use ronny_email_worker.Models.{
  Account, Container, Suggestion, Bundle, BundleStatus, item_is_dead, health_is_ok,
}
use ronny_email_worker.Scope.{Db, get_account}
use ronny_email_worker.Imap.Backend.{
  mailbox_unhealthy, identity_lost, not_applicable, Failure, MailBackend, Answer, ContainerInfo,
}
use ronny_email_worker.Imap.Record.{Run, Ending, finished, stopped, failed}
use ronny_email_worker.Imap.Item.{apply_one, target_of}
use ronny_email_worker.Imap.Item.Second.{OneStep, apply_one_cases}
use ronny_email_worker.Imap.Apply.{
  apply_each, applied_of, close_bundle, close_run, target_created, ensure_target_exists,
  apply_ordered, apply_accepted, in_order, apply_bundle,
}

-- How many items are stale or failed.
abbrev pub dead_of : Bundle → ℕ
dead_of b = count_of (λ s. item_is_dead s.status) b.suggestions

-- What a bundle that was accepted has become, by how the run ends.
abbrev pub Becomes : Bundle → Ending → Type 0
Becomes b finished =
    ((b.status ≡ BundleStatus.applied) × (dead_of b ≡ 0))
    ⊎ ((b.status ≡ BundleStatus.partially_applied) × (1 ≤ dead_of b))
Becomes b stopped = b.status ≡ BundleStatus.accepted
Becomes b (failed (not_applicable _)) =
    (b.status ≡ BundleStatus.accepted) ⊎ ((b.status ≡ BundleStatus.stale) × (applied_of b ≡ 0))
Becomes b (failed _) = b.status ≡ BundleStatus.accepted

failed-Becomes :
    (b : Bundle) (x : Failure) → b.status ≡ BundleStatus.accepted → Becomes b (failed x)
failed-Becomes b (mailbox_unhealthy _) h = h
failed-Becomes b (identity_lost _) h = h
failed-Becomes b (not_applicable _) h = inl h

close_bundle-Becomes :
    {S : Type 0} (r : Run S) → let (r', e) = close_bundle r in Becomes r'.bundle e
unfolding close_bundle
close_bundle-Becomes r = ground arith

module _ {S : Type 0} (digest : Text → Text) (backend : MailBackend S)
    (trash : Option Container) where
  OneStep-status :
      (r : Run S) (s : Suggestion) (r' : Run S) (e : Ending)
      → OneStep digest r s r' e
      → r'.bundle.status ≡ r.bundle.status
  OneStep-status r s r' finished (_, _, _, b, _, _, _) = ap (λ c. c.status) b
  OneStep-status r s r' stopped h = elim h [ ]
  OneStep-status r s r' (failed _) (_, b, _) = ap (λ c. c.status) b

  apply_each-status :
      (should_stop : ℕ → Bool) (r : Run S) (ss : List Suggestion)
      → (apply_each digest backend trash should_stop r ss).0.bundle.status ≡ r.bundle.status
  unfolding apply_each
  apply_each-status should_stop r [] = refl
  apply_each-status should_stop r (s ∷ ss) =
      by_asked (should_stop (length r.attempts)) (apply_one digest backend trash r s).1
        (OneStep-status r s (apply_one digest backend trash r s).0 _
          (apply_one_cases digest backend trash r s))
        (apply_each-status should_stop (apply_one digest backend trash r s).0 ss)
    where
      r' : Run S
      r' = (apply_one digest backend trash r s).0

      rest : Run S × Ending
      rest = apply_each digest backend trash should_stop r' ss

      by_asked :
          (b : Bool) (e : Ending)
          → r'.bundle.status ≡ r.bundle.status
          → rest.0.bundle.status ≡ r'.bundle.status
          → (if◌then◌else◌ {A = Run S × Ending} b
              (r, stopped)
              (elim e [ finished ↦ rest | e ↦ (r', e) ])).0.bundle.status
            ≡ r.bundle.status
      by_asked true e one later = refl
      by_asked false finished one later = later ∙ one
      by_asked false stopped one later = one
      by_asked false (failed x) one later = one

  close_run-Becomes :
      (r : Run S) (e : Ending)
      → r.bundle.status ≡ BundleStatus.accepted
      → let (r', e') = close_run (r, e) in Becomes r'.bundle e'
  close_run-Becomes r finished h = close_bundle-Becomes r
  close_run-Becomes r stopped h = h
  close_run-Becomes r (failed x) h = failed-Becomes r.bundle x h

  target_created-status :
      (r : Run S) (k : Container) (answer : S × Answer ContainerInfo)
      → let (r', e) = target_created r k answer in
        (r'.bundle.status ≡ r.bundle.status) × (e ≢ stopped)
  unfolding target_created
  target_created-status r k answer = ground arith

  ensure_target_exists-status :
      (r : Run S)
      → let (r', e) = ensure_target_exists digest backend trash r in
        (r'.bundle.status ≡ r.bundle.status) × (e ≢ stopped)
  unfolding ensure_target_exists
  ensure_target_exists-status r = by_target (target_of r.db.cache r.bundle) refl
    where
      by_target :
          (o : Option Container)
          → target_of r.db.cache r.bundle ≡ o
          → let (r', e) = ensure_target_exists digest backend trash r in
            (r'.bundle.status ≡ r.bundle.status) × (e ≢ stopped)
      by_target none h = rw (ensure_target_exists, h) (ground arith)
      by_target (some k) h =
          rw (ensure_target_exists, h)
            (ground (arith, target_created-status r k (backend.create_container k.name r.server)))

  apply_ordered-Becomes :
      (should_stop : ℕ → Bool) (ss : List Suggestion) (r : Run S) (e : Ending)
      → r.bundle.status ≡ BundleStatus.accepted
      → e ≢ stopped
      → let (r', e') = apply_ordered digest backend trash should_stop ss (r, e) in
        Becomes r'.bundle e'
  apply_ordered-Becomes should_stop ss r finished h _ =
      close_run-Becomes (apply_each digest backend trash should_stop r ss).0
        (apply_each digest backend trash should_stop r ss).1
        (apply_each-status should_stop r ss ∙ h)
  apply_ordered-Becomes should_stop ss r stopped h n = elim (n refl) [ ]
  apply_ordered-Becomes should_stop ss r (failed x) h _ = failed-Becomes r.bundle x h

  apply_accepted-Becomes :
      (should_stop : ℕ → Bool) (r : Run S) (ss : List Suggestion)
      → r.bundle.status ≡ BundleStatus.accepted
      → let (r', e) = apply_accepted digest backend trash should_stop r ss in Becomes r'.bundle e
  unfolding apply_accepted
  apply_accepted-Becomes should_stop r [] h = close_bundle-Becomes r
  apply_accepted-Becomes should_stop r (s ∷ ss) h =
      let (kept, goes_on) = ensure_target_exists-status r in
      apply_ordered-Becomes should_stop (s ∷ ss) (ensure_target_exists digest backend trash r).0
        (ensure_target_exists digest backend trash r).1 (kept ∙ h) goes_on

  -- `apply_bundle` on an accepted bundle of a known account, whatever the server does and whenever it
  -- is asked to stop. If it finishes, the bundle is applied and no item is dead, or it is partially
  -- applied and some item is. If it stops, the bundle is still accepted. If it fails, the bundle is
  -- still accepted; or it is not applicable, stale, and none of its items is applied.
  pub apply_bundle-Becomes :
      (should_stop : ℕ → Bool) (db : Db) (b : Bundle) (server : S) (a : Account)
      → b.status ≡ BundleStatus.accepted
      → get_account db.cache b.account_id ≡ some a
      → let (r, e) = apply_bundle digest backend trash should_stop db b server in Becomes r.bundle e
  unfolding apply_bundle
  apply_bundle-Becomes should_stop db b server a h known =
      let applied = apply_accepted-Becomes should_stop r (in_order db.cache b) h in
      rw (apply_bundle, h, known) (by_health (not (health_is_ok a.health)) _ _ applied)
    where
      r : Run S
      r = record { db = db; bundle = b; server = server; attempts = [] }

      by_health :
          (c : Bool) (x : Failure) (y : Run S × Ending)
          → Becomes y.0.bundle y.1
          → let (r', e) = if◌then◌else◌ {A = Run S × Ending} c (r, failed x) y in
            Becomes r'.bundle e
      by_health true x y k = failed-Becomes r.bundle x h
      by_health false x y k = k
