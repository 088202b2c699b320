-- ===== src/Imap/Sync/Session.antt =====
-- What a sync in src/mailmind/imap/sync.py works on: the session of the scope, with what it last
-- committed, and the server. A call that raises ends the run; what is not committed is then dropped
-- by the caller, so it still stands in `store`.
use ronny_email_worker.Prelude.{◌==◌, if◌then◌else◌, map}
use ronny_email_worker.Models.{Container}
use ronny_email_worker.Scope.{Cache, Db}
use ronny_email_worker.Caching.{Store}
use ronny_email_worker.Imap.Backend.{Answer, returned, raised}

pub record Session (S : Type 0) : Type 0 where
  pub store : Store
  pub saved : Store
  pub server : S

module _ {S : Type 0} where
  -- `await scope.commit()`
  abbrev pub commit : Session S → Session S
  commit s = record s { saved = s.store }

  abbrev pub with_store : Session S → Store → Session S
  with_store s store = record s { store = store }

  abbrev pub answered : {A : Type 0} → Session S → S × Answer A → Session S × Answer A
  answered s (server, answer) = (record s { server = server }, answer)

  -- A call to the server.
  abbrev pub ask : {A : Type 0} → Session S → (S → S × Answer A) → Session S × Answer A
  ask s call = answered s (call s.server)

  -- What follows a call that returned.
  unfoldable pub and_then :
      {A B : Type 0}
      → Session S × Answer A
      → (Session S → A → Session S × Answer B)
      → Session S × Answer B
  and_then (s, raised e) next = (s, raised e)
  and_then (s, returned a) next = next s a

-- The row of a container, as it now is, in the table.
abbrev pub save_in : Container → Cache → Cache
save_in k c = record c {
  containers = map (λ (x : Container). if x.id == k.id then k else x) c.containers;
}

abbrev pub with_cache : (Cache → Cache) → Store → Store
with_cache f s = record s { db = record s.db { cache = f s.db.cache } }

abbrev pub with_db : Store → Db → Store
with_db s db = record s { db = db }
