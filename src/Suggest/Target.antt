-- ===== src/Suggest/Target.antt =====
-- `resolve_target` of src/mailmind/suggest/model.py: the folder that a move should land in, found,
-- revived or added as a row that the server knows nothing of yet.
use ronny_email_worker.Prelude.{
  ℕ, ◌+◌, Bool, true, false, not, ◌&&◌, Option, none, some, List, [], ◌∷◌, ◌++◌, ◌==◌,
  if◌then◌else◌, first, is_some,
}
use ronny_email_worker.Text.{Text, text_eq}
use ronny_email_worker.Models.{Container}
use ronny_email_worker.Scope.{Cache, Db}
use ronny_email_worker.Suggest.Names.{validate_container_name}
use ronny_email_worker.Suggest.Refusal.{Result, ok, refused}

-- `_account_delimiter`: the separator of the first folder of the account that has one.
unfoldable pub account_delimiter : Cache → ℕ → Option Text
account_delimiter c account_id =
    elim (first (λ (k : Container). k.account_id == account_id && is_some k.delimiter)
      c.containers) [ none ↦ none | some k ↦ k.delimiter ]

-- An assignment to a row: the row of that id is replaced.
unfoldable pub put_container : Container → List Container → List Container
put_container k [] = []
put_container k (j ∷ js) = if j.id == k.id then k ∷ put_container k js else j ∷ put_container k js

abbrev pub set_container : Container → Db → Db
set_container k db = record db {
  cache = record db.cache { containers = put_container k db.cache.containers };
}

-- A row for a folder that has been proposed and not made, with the columns' defaults.
abbrev pub proposed_container : ℕ → (account_id : ℕ) → Text → Option Text → Container
proposed_container id account_id name delimiter = record {
  id = id;
  account_id = account_id;
  name = name;
  delimiter = delimiter;
  special_use = none;
  selectable = true;
  uidvalidity = none;
  uidnext = none;
  highestmodseq = none;
  generation = 1;
  message_count = 0;
  last_full_sync_at = none;
  last_incremental_sync_at = none;
  exists_on_server = false;
  discarded_at = none;
}

-- A folder that the account has: one that was discarded is revived under a new generation.
unfoldable pub reuse_container : Db → Container → Db × Result (Container × Bool)
reuse_container db k =
    let revived = record k {
      discarded_at = none;
      exists_on_server = false;
      generation = k.generation + 1;
    } in
    if is_some k.discarded_at
    then (set_container revived db, ok (revived, not revived.exists_on_server))
    else (db, ok (k, not k.exists_on_server))

unfoldable pub add_container :
    Db → (account_id : ℕ) → Text → Option Text → Db × Result (Container × Bool)
add_container db account_id name delimiter =
    let k = proposed_container db.next_container account_id name delimiter in
    (
      record db {
        cache = record db.cache { containers = db.cache.containers ++ k ∷ [] };
        next_container = db.next_container + 1;
      },
      ok (k, true),
    )

unfoldable pub resolve_valid :
    Db → (account_id : ℕ) → Option Text → Result Text → Db × Result (Container × Bool)
resolve_valid db account_id delimiter (refused r) = (db, refused r)
resolve_valid db account_id delimiter (ok name) =
    elim (first (λ (k : Container). k.account_id == account_id && text_eq k.name name)
      db.cache.containers) [
        | some existing ↦ reuse_container db existing
        | none ↦ add_container db account_id name delimiter
      ]

-- `resolve_target`: the container, and whether it is one that does not exist yet.
unfoldable pub resolve_target : Db → (account_id : ℕ) → Text → Db × Result (Container × Bool)
resolve_target db account_id name =
    let delimiter = account_delimiter db.cache account_id in
    resolve_valid db account_id delimiter (validate_container_name name delimiter)
