-- ===== src/Scope.antt =====
-- src/mailmind/db/scope.py: what a `TenantScope` reaches. `Cache` is the part of the database that
-- describes mailboxes, `Db` adds the record of what happened, the clock and the ids to come.
-- An operation on one bundle takes the bundle beside the `Db` and returns both.
use Prim.Native.String.{String}
use ronny_email_worker.Prelude.{ℕ, ◌+◌, Option, List, [], ◌∷◌, ◌==◌, first, max}
use ronny_email_worker.Models.{Account, Container, Placement, AuditEvent, Value}

pub record Cache : Type 0 where
  pub accounts : List Account
  pub containers : List Container
  pub placements : List Placement

-- The events stand newest first. The database gives a new row the next id of its table.
pub record Db : Type 0 where
  pub cache : Cache
  pub events : List AuditEvent
  pub now : ℕ
  pub next_container : ℕ
  pub next_bundle : ℕ
  pub next_suggestion : ℕ

-- `scope.get(Account, id)`
unfoldable pub get_account : Cache → ℕ → Option Account
get_account c id = first (λ a. a.id == id) c.accounts

-- `scope.get(Container, id)`
unfoldable pub get_container : Cache → ℕ → Option Container
get_container c id = first (λ k. k.id == id) c.containers

-- `coalesce(max(seq), 0)`
abbrev pub max_seq : List AuditEvent → ℕ
max_seq [] = 0
max_seq (e ∷ es) = max e.seq (max_seq es)

-- `TenantScope.audit`: append to the record.
unfoldable pub audit :
    (verb actor_kind subject_kind : String) (actor_id subject_id : Option ℕ)
    → List (String × Value)
    → Db
    → Db
audit verb actor_kind subject_kind actor_id subject_id payload db = record db {
  events =
      record {
        seq = max_seq db.events + 1;
        at = db.now;
        actor_kind = actor_kind;
        actor_id = actor_id;
        subject_kind = subject_kind;
        subject_id = subject_id;
        verb = verb;
        payload = payload;
      }
      ∷ db.events;
}
