-- ===== src/Imap/Perform.antt =====
-- `_perform` and `_discard` of src/mailmind/imap/apply.py: one operation against the server.
pub mod Discarding
use ronny_email_worker.Prelude.{
  ℕ, Bool, true, false, not, Option, none, some, List, [], ◌∷◌, ◌++◌, map, ◌==◌, if◌then◌else◌,
  keep, is_empty,
}
use ronny_email_worker.Text.{Text, codes, starts_with, sorted}
use ronny_email_worker.Models.{
  Detail, Operation, Precondition, move, add_flag, remove_flag, delete, discard_container,
}
use ronny_email_worker.Imap.Backend.{
  Failure, mailbox_unhealthy, identity_lost, not_applicable, Answer, returned, raised,
  ContainerInfo, SelectInfo, StoreResult, MailBackend,
}

-- `StoreResult(changed, "best_effort", detail)`
abbrev pub best_effort : Bool → Option Detail → StoreResult
best_effort changed detail = record {
  changed = changed;
  guarantee = Precondition.best_effort;
  detail = detail;
  resulting_uid = none;
}

-- The names that the server lists under a folder. A delimiter that is missing or empty gives none.
abbrev pub listed_under : Text → Option Text → List ContainerInfo → List Text
listed_under name none infos = []
listed_under name (some []) infos = []
listed_under name (some (d ∷ ds)) infos = sorted (
    map (λ (i : ContainerInfo). i.name)
      (keep (λ (i : ContainerInfo). starts_with i.name (name ++ (d ∷ ds))) infos))

-- The plain values that `_perform` is given.
pub record Order : Type 0 where
  pub source_name : Text
  pub source_exists_on_server : Bool
  pub source_delimiter : Option Text
  pub premise_uid : Option ℕ
  pub premise_modseq : Option ℕ
  pub flag : Option Text
  pub target_name : Option Text
  pub trash_name : Option Text

module _ {S : Type 0} (backend : MailBackend S) where
  abbrev pub deleted : S × Answer (Unit {0}) → S × Answer StoreResult
  deleted (server, raised e) = (server, raised e)
  deleted (server, returned _) = (server, returned (best_effort true none))

  -- After the folders under it have been listed.
  unfoldable pub discard_listed :
      Text → Option Text → S × Answer (List ContainerInfo) → S × Answer StoreResult
  discard_listed name delimiter (server, raised e) = (server, raised e)
  discard_listed name delimiter (server, returned infos) =
      let children = listed_under name delimiter infos in
      if not (is_empty children)
      then (server, returned (best_effort false (some (Detail.has_folders_under name children))))
      else deleted (backend.delete_container name server)

  -- After the folder has been selected.
  unfoldable pub discard_selected :
      Text → Option Text → S × Answer SelectInfo → S × Answer StoreResult
  discard_selected name delimiter (server, raised (identity_lost _)) =
      (server, returned (best_effort false (some (Detail.gone_from_server name))))
  discard_selected name delimiter (server, raised e) = (server, raised e)
  discard_selected name delimiter (server, returned selected) =
      if not (selected.message_count == 0)
      then (
        server,
        returned (best_effort false (some (Detail.holds_messages name selected.message_count))),
      )
      else discard_listed name delimiter (backend.list_containers server)

  -- `_discard`
  unfoldable pub discard :
      Text → (exists_on_server : Bool) → (delimiter : Option Text) → S → S × Answer StoreResult
  discard name exists_on_server delimiter server =
      if not exists_on_server
      then (server, returned (best_effort true (some Detail.never_made)))
      else discard_selected name delimiter (backend.select name true server)

  -- `_perform`
  unfoldable pub perform : Operation → Order → S → S × Answer StoreResult
  perform add_flag o server =
      backend.store_flags o.source_name o.premise_uid (o.flag ∷ []) true o.premise_modseq server
  perform remove_flag o server =
      backend.store_flags o.source_name o.premise_uid (o.flag ∷ []) false o.premise_modseq server
  perform move o server =
      backend.move o.source_name o.premise_uid o.target_name o.premise_modseq server
  perform discard_container o server =
      discard o.source_name o.source_exists_on_server o.source_delimiter server
  perform delete o server = elim o.trash_name [
    | none ↦
        (server, raised (mailbox_unhealthy (codes "no Trash container is known for this account")))
    | some trash ↦ backend.move o.source_name o.premise_uid (some trash) o.premise_modseq server
  ]
