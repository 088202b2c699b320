-- ===== src/Imap/Perform/Discarding.antt =====
-- `_discard` of src/mailmind/imap/apply.py, and what the server said before it deleted a
-- folder.
use ronny_email_worker.Prelude.{
  ◌≡◌, refl, ◌⊎◌, inl, inr, Bool, true, false, Option, List, is_empty, arith, ◌==◌, Bool-cases,
}
use ronny_email_worker.Text.{Text}
use ronny_email_worker.Imap.Backend.{
  mailbox_unhealthy, identity_lost, not_applicable, Answer, returned, raised, ContainerInfo,
  SelectInfo, StoreResult, MailBackend,
}
use ronny_email_worker.Imap.Perform.{
  listed_under, deleted, discard_listed, discard_selected, discard,
}

module _ {S : Type 0} (backend : MailBackend S) (name : Text) (delimiter : Option Text) where
  -- What deleting the folder takes: it is selected, from a first state of the server, and holds no
  -- message; then the folders are listed, and none lies under it.
  abbrev pub MayDelete : (first listed : S) → Type 0
  MayDelete first listed =
      (selected : SelectInfo) × (between : S) × (infos : List ContainerInfo) × (backend.select name
          true first
        ≡ (between, returned selected))
      × (selected.message_count ≡ 0)
      × (backend.list_containers between ≡ (listed, returned infos))
      × (is_empty (listed_under name delimiter infos) ≡ true)

  -- How a discard may leave the server: untouched, as looking at it leaves it, or with the folder
  -- deleted after both looks.
  abbrev pub Left : (first last : S) → Answer StoreResult → Type 0
  Left first last answer =
      (last ≡ first)
      ⊎ (last ≡ (backend.select name true first).0)
      ⊎ (last ≡ (backend.list_containers (backend.select name true first).0).0)
      ⊎ ((listed : S) × MayDelete first listed
          × ((last, answer) ≡ deleted backend (backend.delete_container name listed)))

  discard_listed-Left :
      (first between : S) (selected : SelectInfo) (p : S × Answer (List ContainerInfo))
      → backend.select name true first ≡ (between, returned selected)
      → selected.message_count ≡ 0
      → backend.list_containers between ≡ p
      → let (last, answer) = discard_listed backend name delimiter p in Left first last answer
  unfolding discard_listed
  discard_listed-Left first between selected (listed, raised e) h n k =
      inr (inr (inl (rw (h, k) refl)))
  discard_listed-Left first between selected (listed, returned infos) h n k =
      elim (Bool-cases (is_empty (listed_under name delimiter infos))) [
        | inl e ↦ rw e (inr (inr (inr (listed, (selected, between, infos, h, n, k, e), refl))))
        | inr e ↦ rw e (inr (inr (inl (rw (h, k) refl))))
      ]

  discard_selected-Left :
      (first : S) (p : S × Answer SelectInfo)
      → backend.select name true first ≡ p
      → let (last, answer) = discard_selected backend name delimiter p in Left first last answer
  unfolding discard_selected
  discard_selected-Left first (between, raised (identity_lost _)) h = inr (inl (rw h refl))
  discard_selected-Left first (between, raised (mailbox_unhealthy _)) h = inr (inl (rw h refl))
  discard_selected-Left first (between, raised (not_applicable _)) h = inr (inl (rw h refl))
  discard_selected-Left first (between, returned selected) h =
      elim (Bool-cases (selected.message_count == 0)) [
        | inl e ↦ rw (e) (
            discard_listed-Left first between selected (backend.list_containers between) h
              (ground arith) refl)
        | inr e ↦ rw e (inr (inl (rw h refl)))
      ]

  -- Whatever the server answers, `_discard` leaves it untouched, or as selecting the folder or
  -- listing the folders leaves it, or it has asked it to delete the folder; and that only after the
  -- server has said that the folder holds no message and that no folder lies under it.
  pub discard-Left :
      (exists_on_server : Bool) (server : S)
      → let (last, answer) = discard backend name exists_on_server delimiter server in
        Left server last answer
  unfolding discard
  discard-Left true server = discard_selected-Left server (backend.select name true server) refl
  discard-Left false server = inl refl
