-- ===== src/Staleness/Sweep.antt =====
-- What `sweep_queue` of src/mailmind/suggest/staleness.py leaves in the review queue.
use ronny_email_worker.Prelude.{
  ℕ, ◌+◌, ◌≡◌, refl, true, Option, none, List, [], ◌∷◌, arith, All, Bool-cases, inl, inr, count_of,
  if◌then◌else◌,
}
use ronny_email_worker.Text.{Text}
use ronny_email_worker.Models.{Bundle, item_is_live, bundle_is_proposed, bundle_is_stale}
use ronny_email_worker.Scope.{Db, Cache}
use ronny_email_worker.Staleness.{fresh, check, sweep_bundle, sweep_queue}
use ronny_email_worker.Staleness.Refresh.{refresh_bundle-items, refresh_bundle-live_fresh}

-- Every live item of a bundle that awaits review holds.
abbrev pub IsCurrent : (Text → Text) → Cache → Bundle → Type 0
IsCurrent digest c b =
    bundle_is_proposed b.status ≡ true
    → All (λ s. item_is_live s.status ≡ true → check digest c s ≡ fresh) b.suggestions

module _ (digest : Text → Text) where
  sweep_bundle-cache :
      (ids : Option (List ℕ)) (db : Db) (b : Bundle)
      → (sweep_bundle digest ids db b).0.cache ≡ db.cache
  unfolding sweep_bundle
  sweep_bundle-cache ids db b = ground (arith, refresh_bundle-items digest db b)

  sweep_bundle-IsCurrent :
      (db : Db) (b : Bundle) → IsCurrent digest db.cache (sweep_bundle digest none db b).1
  unfolding sweep_bundle
  sweep_bundle-IsCurrent db b = elim (Bool-cases (bundle_is_proposed b.status)) [
    | inl e ↦ rw e (λ _. refresh_bundle-live_fresh digest db b)
    | inr e ↦ rw e (λ h. cc)
  ]

  -- After a sweep over all accounts, every live item of every bundle still in the queue holds.
  pub sweep_queue-IsCurrent :
      (db : Db) (bs : List Bundle)
      → All (IsCurrent digest db.cache) (sweep_queue digest none db bs).1
  unfolding sweep_queue
  sweep_queue-IsCurrent db [] = tt
  sweep_queue-IsCurrent db (b ∷ bs) = (
    sweep_bundle-IsCurrent db b,
    rw (sweep_bundle-cache none db b) at
        (sweep_queue-IsCurrent (sweep_bundle digest none db b).0 bs),
  )

  sweep_bundle-count :
      (ids : Option (List ℕ)) (db : Db) (b : Bundle)
      → let (_, b', n) = sweep_bundle digest ids db b in
        n + (if bundle_is_stale b.status then 1 else 0)
        ≡ (if bundle_is_stale b'.status then 1 else 0)
  unfolding sweep_bundle
  sweep_bundle-count ids db b = ground arith

  -- The count that a sweep returns is the number of bundles that it turned stale.
  sweep_queue-count :
      (ids : Option (List ℕ)) (db : Db) (bs : List Bundle)
      → let (_, bs', closed) = sweep_queue digest ids db bs in
        closed + count_of (λ b. bundle_is_stale b.status) bs
        ≡ count_of (λ b. bundle_is_stale b.status) bs'
  unfolding sweep_queue
  sweep_queue-count ids db [] = refl
  sweep_queue-count ids db (b ∷ bs) = ground (
    arith,
    sweep_bundle-count ids db b,
    sweep_queue-count ids (sweep_bundle digest ids db b).0 bs,
  )
