-- ===== src/Suggest/Items.antt =====
-- How `_add_messages` of src/mailmind/suggest/model.py turns message ids into a bundle's items.
pub mod Placed
pub mod Classes
use ronny_email_worker.Prelude.{
  ℕ, suc, ◌+◌, Bool, true, false, not, ◌&&◌, Option, none, some, List, [], ◌∷◌, ◌++◌, map, ◌==◌,
  ltb, leb, opt_eq, if◌then◌else◌, first, keep, any, mem, is_none, is_some, length,
}
use ronny_email_worker.Text.{Text}
use ronny_email_worker.Models.{
  Container, Placement, Suggestion, Bundle, Skipped, SuggestionStatus, item_is_excluded,
}
use ronny_email_worker.Scope.{Cache, Db, get_container}
use ronny_email_worker.Staleness.{flags_hash}
use ronny_email_worker.Suggest.Refusal.{Refusal, not_in_any_container, already_in_target}

-- `ORDER BY seen_at DESC` and the first row; of rows seen at one time it is the first.
unfoldable pub latest : List Placement → Option Placement
latest [] = none
latest (p ∷ ps) = elim (latest ps) [
  | none ↦ some p
  | some q ↦ if ltb p.seen_at q.seen_at then some q else some p
]

-- The rows that `_live_placement` selects.
abbrev pub is_live_placement : Cache → (account_id message_id : ℕ) → Placement → Bool
is_live_placement c account_id message_id p =
    p.message_id == message_id
    && is_none p.gone_at
    && any
        (λ (k : Container).
          k.id == p.container_id
          && k.account_id == account_id
          && p.container_generation == k.generation)
        c.containers

unfoldable pub live_placement : Cache → (account_id message_id : ℕ) → Option Placement
live_placement c account_id message_id =
    latest (keep (is_live_placement c account_id message_id) c.placements)

pub record Added : Type 0 where
  pub added : List ℕ
  pub already_in_target : List ℕ
  pub not_in_any_folder : List ℕ
  pub already_here : List ℕ
  pub excluded_here : List ℕ

abbrev pub nothing_added : Added
nothing_added = record {
  added = [];
  already_in_target = [];
  not_in_any_folder = [];
  already_here = [];
  excluded_here = [];
}

-- `Added.skipped`. The source leaves the classes that are empty out of the dictionary.
abbrev pub skipped : Added → Skipped
skipped a = record {
  already_in_target = length a.already_in_target;
  not_in_any_folder = length a.not_in_any_folder;
  already_here = length a.already_here;
  excluded_here = length a.excluded_here;
}

-- The variables of the loop: the database, the bundle's items, `seen` and `added`.
pub record Adding : Type 0 where
  pub db : Db
  pub items : List Suggestion
  pub seen : List ℕ
  pub added : Added

abbrev pub is_about : ℕ → Suggestion → Bool
is_about message_id s = opt_eq s.message_id (some message_id)

-- The generation of the placement's folder, which the join has found.
abbrev pub generation_of : Cache → Placement → ℕ
generation_of c p = elim (get_container c p.container_id) [ none ↦ 0 | some k ↦ k.generation ]

module _ (digest : Text → Text) (bundle : Bundle) (account_id : ℕ) (assert_each : Bool) where
  abbrev pub new_item : Db → (message_id : ℕ) → Placement → Suggestion
  new_item db message_id p = record {
    id = db.next_suggestion;
    bundle_id = bundle.id;
    message_id = some message_id;
    source_container_id = p.container_id;
    premise_container_generation = generation_of db.cache p;
    premise_uid = some p.uid;
    premise_modseq = p.modseq;
    premise_flags_hash = flags_hash digest p.flags;
    premise_message_count = none;
    status = SuggestionStatus.proposed;
    stale_detail = none;
  }

  -- A message that no item holds yet, with the placement that was found for it.
  unfoldable pub add_absent : Adding → ℕ → Option Placement → Adding × Option Refusal
  add_absent a message_id none =
      if assert_each then (a, some (not_in_any_container message_id)) else (
        record a {
          added = record a.added {
            not_in_any_folder = a.added.not_in_any_folder ++ message_id ∷ [];
          };
        },
        none,
      )
  add_absent a message_id (some p) =
      if opt_eq (some p.container_id) bundle.target_container_id
      then (if assert_each then (a, some (already_in_target message_id)) else (
        record a {
          added = record a.added {
            already_in_target = a.added.already_in_target ++ message_id ∷ [];
          };
        },
        none,
      ))
      else (
        record a {
          db = record a.db { next_suggestion = a.db.next_suggestion + 1 };
          items = a.items ++ new_item a.db message_id p ∷ [];
          added = record a.added { added = a.added.added ++ message_id ∷ [] };
        },
        none,
      )

  -- A message that the bundle already holds: `here[message_id]`.
  unfoldable pub add_held : Adding → ℕ → Suggestion → Adding
  add_held a message_id s =
      let added' = record a.added { already_here = a.added.already_here ++ message_id ∷ [] } in
      if item_is_excluded s.status
      then record a {
        added = record added' { excluded_here = a.added.excluded_here ++ message_id ∷ [] };
      }
      else record a { added = added' }

  -- A message that this call has not met before. `here` is read off the items before the loop.
  unfoldable pub add_unseen : List Suggestion → Adding → ℕ → Adding × Option Refusal
  add_unseen existing a message_id = elim (first (is_about message_id) existing) [
    | some s ↦ (add_held a message_id s, none)
    | none ↦ add_absent a message_id (live_placement a.db.cache account_id message_id)
  ]

  -- One round of the loop.
  unfoldable pub add_message : List Suggestion → Adding → ℕ → Adding × Option Refusal
  add_message existing a message_id =
      if mem message_id a.seen
      then (a, none)
      else add_unseen existing (record a { seen = message_id ∷ a.seen }) message_id

  -- The loop, up to the first exception.
  unfoldable pub add_each : List Suggestion → Adding → List ℕ → Adding × Option Refusal
  add_each existing a [] = (a, none)
  add_each existing a (message_id ∷ message_ids) =
      let (a', refusal) = add_message existing a message_id in
      elim refusal [ some r ↦ (a', some r) | none ↦ add_each existing a' message_ids ]

  abbrev pub start : Db → Adding
  start db = record { db = db; items = bundle.suggestions; seen = []; added = nothing_added }

  -- `_add_messages`
  unfoldable pub add_messages : Db → List ℕ → Adding × Option Refusal
  add_messages db message_ids = add_each bundle.suggestions (start db) message_ids
