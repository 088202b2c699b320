-- ===== src/Imap/Sync/Whole.antt =====
-- `sync_account` of src/mailmind/imap/sync.py: which folders a run covers.
use ronny_email_worker.Prelude.{
  ℕ, suc, ◌+◌, ◌≡◌, refl, ap, sym, ◌∙◌, Bool, true, ◌⊎◌, inl, inr, List, [], ◌∷◌, map, take, length,
  arith, Bool-cases, if_true, if_false, keep,
}
use mathlib.Core.Path.{subst}
use ronny_email_worker.Models.{Account, Container}
use ronny_email_worker.Content.{Reader}
use ronny_email_worker.Imap.Backend.{returned, MailBackend}
use ronny_email_worker.Imap.Sync.Session.{Session, commit}
use ronny_email_worker.Imap.Sync.Container.{SyncReport}
use ronny_email_worker.Imap.Sync.Running.{sync_container}
use ronny_email_worker.Imap.Sync.Accounts.{sync_folders, sync_account, discover_containers}
use ronny_email_worker.Imap.Sync.Vanishing.{
  and_then-returned, returned-injective, sync_container-named,
}

module _ {S : Type 0} (r : Reader) (backend : MailBackend S) where
  -- The reports are on the folders in order, and only a stop leaves some out.
  abbrev Covers : (stops : ℕ → Bool) → (asked : ℕ) → List Container → List SyncReport → Type 0
  Covers stops asked ks reports =
      (map (λ (x : SyncReport). x.container) reports
        ≡ take (length reports) (map (λ (k : Container). k.name) ks))
      × ((length reports ≡ length ks) ⊎ (stops (asked + length reports) ≡ true))

  Covers-stopped :
      (stops : ℕ → Bool) (asked : ℕ) (k : Container) (ks : List Container)
      → stops asked ≡ true
      → Covers stops asked (k ∷ ks) []
  Covers-stopped stops asked k ks h = (refl, inr (ap stops (omega arith) ∙ h))

  Covers-next :
      (stops : ℕ → Bool) (asked : ℕ) (k : Container) (ks : List Container) (report : SyncReport)
      (reports : List SyncReport)
      → report.container ≡ k.name
      → Covers stops (suc asked) ks reports
      → Covers stops asked (k ∷ ks) (report ∷ reports)
  Covers-next stops asked k ks report reports named (same, ended) = (
    ground (arith, named, same),
    elim ended [ inl e ↦ inl (omega (arith, e)) | inr e ↦ inr (ap stops (omega arith) ∙ e) ],
  )

  folders_covered :
      (s t : Session S) (a : Account) (force_full : Bool) (stops : ℕ → Bool) (asked : ℕ)
      (ks : List Container) (reports : List SyncReport)
      → sync_folders r backend s a force_full stops asked ks ≡ (t, returned reports)
      → Covers stops asked ks reports
  unfolding sync_folders
  folders_covered s t a force_full stops asked [] reports h =
      subst (Covers stops asked []) (returned-injective [] reports (ap (λ x. x.1) h))
        (refl, inl refl)
  folders_covered s t a force_full stops asked (k ∷ ks) reports h =
      elim (Bool-cases (stops asked)) [
        | inl e ↦
            let none_more : [] ≡ reports =
              returned-injective [] reports
                (ap (λ x. x.1) (sym (if_true (stops asked) _ _ e) ∙ h)) in
            subst (Covers stops asked (k ∷ ks)) none_more (Covers-stopped stops asked k ks e)
        | inr e ↦
            let (s_one, report, done, rest) =
              and_then-returned (sync_container r backend s a k force_full) _ t reports
                (sym (if_false (stops asked) _ _ e) ∙ h) in
            let (s_all, more, last, same) = and_then-returned _ _ t reports rest in
            subst (Covers stops asked (k ∷ ks)) (returned-injective _ reports (ap (λ x. x.1) same))
              (Covers-next stops asked k ks report more
                (sync_container-named r backend s s_one a k force_full report done)
                (folders_covered (commit s_one) s_all a force_full stops (suc asked) ks more last))
      ]

  -- A run over an account reports on the selectable folders that were discovered, from the first on
  -- and in their order, and leaves some out only where `should_stop`, asked before the next, said so.
  pub sync_account-covers :
      (s t : Session S) (a : Account) (force_full : Bool) (stops : ℕ → Bool)
      (reports : List SyncReport)
      → sync_account r backend s a force_full stops ≡ (t, returned reports)
      → (u : Session S) × (ks : List Container) × (discover_containers r backend s a
          ≡ (u, returned ks))
        × (map (λ (x : SyncReport). x.container) reports
            ≡ take
                (length reports)
                (map (λ (k : Container). k.name) (keep (λ (k : Container). k.selectable) ks)))
        × ((length reports ≡ length (keep (λ (k : Container). k.selectable) ks))
            ⊎ (stops (0 + length reports) ≡ true))
  unfolding sync_account
  sync_account-covers s t a force_full stops reports h =
      let (u, ks, found, rest) =
        and_then-returned (discover_containers r backend s a) _ t reports h in
      let covered =
        folders_covered u t a force_full stops 0 (keep (λ (k : Container). k.selectable) ks) reports
          rest in
      (u, ks, found, covered.0, covered.1)
