-- ===== src/Imap/Sync/Accounts.antt =====
-- The folders of one account: `discover_containers`, `sync_account`, `messages_to_read` and
-- `fetch_and_cache_body` of src/mailmind/imap/sync.py.
use Prim.Native.String.{String}
use ronny_email_worker.Prelude.{
  ℕ, ◌+◌, Bool, true, false, not, ◌||◌, Option, none, some, List, [], ◌∷◌, ◌++◌, map, ◌==◌,
  if◌then◌else◌, first, keep, is_none, is_some, is_empty, suc,
}
use ronny_email_worker.Text.{Text, text_eq}
use ronny_email_worker.Models.{Account, Container, Placement, Message, Value}
use ronny_email_worker.Scope.{Db, audit}
use ronny_email_worker.Content.{Reader, body_text}
use ronny_email_worker.Caching.{Store, cache_body, record_mechanical_assessment, refresh_from_body}
use ronny_email_worker.Caching.Evicting.{evict_bodies}
use ronny_email_worker.Imap.Backend.{Answer, returned, raised, ContainerInfo, MailBackend}
use ronny_email_worker.Imap.Sync.Session.{
  Session, commit, with_store, ask, and_then, save_in, with_cache, with_db,
}
use ronny_email_worker.Imap.Sync.Container.{SyncReport}
use ronny_email_worker.Imap.Sync.Running.{sync_container}

-- The record of a folder that the server lists and the cache did not count as there.
abbrev pub adopted : (subject_id : Option ℕ) → ContainerInfo → (was : String) → Db → Db
adopted subject_id info was db =
    audit "container_adopted" "service" "container" none subject_id
      (("name", Value.text info.name) ∷ ("was", Value.word was) ∷ []) db

-- The columns that every listing assigns.
abbrev pub listed : ContainerInfo → Container → Container
listed info k = record k {
  exists_on_server = true;
  discarded_at = none;
  delimiter = info.delimiter;
  special_use = info.special_use;
  selectable = info.selectable;
}

-- `Container(account_id=…, name=…)`, with the defaults of the table.
abbrev pub new_container : (id account_id : ℕ) → Text → Container
new_container id account_id name = record {
  id = id;
  account_id = account_id;
  name = name;
  delimiter = none;
  special_use = none;
  selectable = true;
  uidvalidity = none;
  uidnext = none;
  highestmodseq = none;
  generation = 1;
  message_count = 0;
  last_full_sync_at = none;
  last_incremental_sync_at = none;
  exists_on_server = true;
  discarded_at = none;
}

-- `not container.exists_on_server or container.discarded_at is not None`
abbrev pub counted_absent : Container → Bool
counted_absent k = not k.exists_on_server || is_some k.discarded_at

-- A folder that has no row. Until it is flushed its `exists_on_server` is None and its id is None, so
-- it is recorded as adopted, without its id.
unfoldable pub discover_new : Store → Account → ContainerInfo → Store × Container
discover_new s a info =
    let made = listed info (new_container s.db.next_container a.id info.name) in
    let told = adopted none info "proposed" s.db in
    (
      with_db s (record told {
        cache = record told.cache { containers = told.cache.containers ++ made ∷ [] };
        next_container = told.next_container + 1;
      }),
      made,
    )

unfoldable pub discover_known : Store → Container → ContainerInfo → Store × Container
discover_known s k info =
    let told =
      if counted_absent k
      then adopted (some k.id) info (if is_some k.discarded_at then "discarded" else "proposed")
          s.db
      else s.db in
    (with_cache (save_in (listed info k)) (with_db s told), listed info k)

-- One round of the loop of `discover_containers`. `existing` are the account's rows as they were
-- before the loop; the names in it differ, and so do those that a server lists.
unfoldable pub discover_one :
    Store → Account → (existing : List Container) → ContainerInfo → Store × Container
discover_one s a existing info =
    elim (first (λ (k : Container). text_eq k.name info.name) existing) [
      | none ↦ discover_new s a info
      | some k ↦ discover_known s k info
    ]

unfoldable pub discover_all :
    Store → Account → List Container → List ContainerInfo → Store × List Container
discover_all s a existing [] = (s, [])
discover_all s a existing (info ∷ infos) =
    let (s_one, k) = discover_one s a existing info in
    let (s_all, ks) = discover_all s_one a existing infos in (s_all, k ∷ ks)

module _ {S : Type 0} (r : Reader) (backend : MailBackend S) where
  unfoldable pub discover_containers : Session S → Account → Session S × Answer (List Container)
  discover_containers s a =
      let existing = keep (λ (k : Container). k.account_id == a.id) s.store.db.cache.containers in
      and_then (ask s backend.list_containers) (λ s infos.
        let (store, ks) = discover_all s.store a existing infos in
        (with_store s store, returned ks))

  -- The loop of `sync_account`. `stops n` is what `should_stop` answers the n-th time.
  unfoldable pub sync_folders :
      Session S
      → Account
      → (force_full : Bool) → (stops : ℕ → Bool) → (asked : ℕ) → List Container
      → Session S × Answer (List SyncReport)
  sync_folders s a force_full stops asked [] = (s, returned [])
  sync_folders s a force_full stops asked (k ∷ ks) =
      if stops asked
      then (s, returned [])
      else and_then (sync_container r backend s a k force_full) (λ s report.
        and_then (sync_folders (commit s) a force_full stops (suc asked) ks)
          (λ s reports. (s, returned (report ∷ reports))))

  unfoldable pub sync_account :
      Session S
      → Account
      → (force_full : Bool) → (stops : ℕ → Bool) → Session S × Answer (List SyncReport)
  sync_account s a force_full stops =
      and_then (discover_containers s a)
        (λ s ks. sync_folders s a force_full stops 0 (keep (λ (k : Container). k.selectable) ks))

  -- `sum(backend.message_counts(whole).values())`
  abbrev pub sum_counts : List (Text × ℕ) → ℕ
  sum_counts [] = 0
  sum_counts ((name, n) ∷ counts) = n + sum_counts counts

  unfoldable pub messages_to_read : List Container → (force_full : Bool) → S → S × Answer (Option ℕ)
  messages_to_read folders force_full server =
      let whole =
        map (λ (k : Container). k.name)
          (keep (λ (k : Container). force_full || is_none k.last_full_sync_at) folders) in
      if is_empty whole
      then (server, returned none)
      else counted (backend.message_counts whole server)
    where
      counted : S × Answer (List (Text × ℕ)) → S × Answer (Option ℕ)
      counted (server, raised e) = (server, raised e)
      counted (server, returned counts) = (server, returned (some (sum_counts counts)))

  -- What is kept of a body, and what is dropped for it, once it is read. The message of a placement
  -- is there: the column is a foreign key.
  unfoldable pub keep_body : Store → Account → Message → Text → (budget_bytes : ℕ) → Store
  keep_body s a row raw budget_bytes =
      let parsed = r.parse_message raw false in
      let assessed = record_mechanical_assessment r s row parsed in
      let kept = refresh_from_body r (cache_body r assessed row parsed) row parsed in
      if a.cache_bodies then (evict_bodies kept budget_bytes).0 else assessed

  unfoldable pub fetch_and_cache_body :
      Session S → Account → Container → Placement → (budget_bytes : ℕ) → Session S × Answer Text
  fetch_and_cache_body s a k p budget_bytes =
      and_then (ask s (backend.fetch_raw k.name p.uid)) (λ s raw.
        let text = body_text (r.parse_message raw false) in
        elim (first (λ (m : Message). m.id == p.message_id) s.store.messages) [
          | none ↦ (s, returned text)
          | some row ↦ (with_store s (keep_body s.store a row raw budget_bytes), returned text)
        ])
