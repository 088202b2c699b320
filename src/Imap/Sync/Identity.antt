-- ===== src/Imap/Sync/Identity.antt =====
-- What `break_identity` of src/mailmind/imap/sync.py leaves of a folder that was made again.
use ronny_email_worker.Prelude.{
  ℕ, ◌≡◌, ◌≢◌, refl, ap, sym, ◌∙◌, false, Option, none, some, List, [], ◌∷◌, map, ◌==◌, ==_refl,
  arith, All, count_of, first, Bool-cases, Bool, true, ◌||◌, ◌&&◌, ◌++◌, ◌+◌, ◌⊎◌, is_none, inl,
  inr, if◌then◌else◌,
}
use mathlib.Core.List.{map-append}
use mathlib.Core.Path.{subst}
use ronny_email_worker.Text.{Text}
use ronny_email_worker.Models.{
  Container, Placement, Suggestion, Bundle, SuggestionStatus, item_is_proposed, item_is_accepted,
  item_is_live,
}
use ronny_email_worker.Scope.{Cache, get_container, audit}
use ronny_email_worker.Staleness.{fresh, check, check_in, check_message, check_container}
use ronny_email_worker.Caching.{Store}
use ronny_email_worker.Imap.Sync.Container.{
  break_identity, renewed, end_placement, is_doomed, doom, doom_in, doomed_count,
}

-- A row that is saved is the one that its id finds, if any row is.
pub get-save :
    (k x : Container) (ks : List Container)
    → first
        (λ (y : Container). y.id == k.id)
        (map (λ (y : Container). if y.id == k.id then k else y) ks)
      ≡ some x
    → x ≡ k
get-save k x [] h = ground arith
get-save k x (y ∷ ys) h = elim (Bool-cases (y.id == k.id)) [
  | inl e ↦ ground (arith, e, ==_refl k.id)
  | inr e ↦ get-save k x ys (ground (arith, e))
]

-- The folder of the next generation meets no premise of the last.
module _ (digest : Text → Text) where
  check-renewed :
      (c : Cache) (k : Container) (v : ℕ) (s : Suggestion)
      → s.premise_container_generation ≡ k.generation
      → check_in digest c s (some (renewed k v)) ≢ fresh
  unfolding check_in check_message check_container
  check-renewed c k v s e h = ground (arith, e)

  check-unknown : (c : Cache) (s : Suggestion) → check_in digest c s none ≢ fresh
  unfolding check_in
  check-unknown c s h = ground arith

  check-found :
      (c : Cache) (k : Container) (v : ℕ) (s : Suggestion) (o : Option Container)
      → s.premise_container_generation ≡ k.generation
      → ((x : Container) → o ≡ some x → x ≡ renewed k v)
      → check_in digest c s o ≢ fresh
  check-found c k v s none e h = check-unknown c s
  check-found c k v s (some x) e h = rw (h x refl) (check-renewed c k v s e)

-- A placement of the folder that has not gone, under the folder's generation.
abbrev pub is_live_under : Container → Placement → Bool
is_live_under k p =
    p.container_id == k.id && p.container_generation == k.generation && is_none p.gone_at

-- All the suggestions of some bundles.
abbrev pub suggestions_of : List Bundle → List Suggestion
suggestions_of [] = []
suggestions_of (b ∷ bs) = b.suggestions ++ suggestions_of bs

-- A proposed or accepted suggestion that rests on the folder under its generation.
abbrev pub rests_on : Container → Suggestion → Bool
rests_on k s =
    s.source_container_id == k.id
    && s.premise_container_generation == k.generation
    && (item_is_proposed s.status || item_is_accepted s.status)

-- Row by row: a suggestion that rests on the folder becomes stale, and any other stays as it is.
abbrev pub Killed : Container → (before after : List Suggestion) → Type 0
Killed k [] [] = Unit
Killed k [] (t ∷ ts) = ⊥
Killed k (s ∷ ss) [] = ⊥
Killed k (s ∷ ss) (t ∷ ts) =
    ((rests_on k s ≡ true) × (t.id ≡ s.id) × (t.status ≡ SuggestionStatus.stale)
      ⊎ (rests_on k s ≡ false) × (t ≡ s))
    × Killed k ss ts

is_doomed-rests_on : (k : Container) (s : Suggestion) → is_doomed k s ≡ rests_on k s
is_doomed-rests_on k s = by_status s.status
  where
    live : (b : SuggestionStatus) → item_is_live b ≡ (item_is_proposed b || item_is_accepted b)
    live b = ground arith

    by_status :
        (b : SuggestionStatus)
        → (s.source_container_id == k.id
            && s.premise_container_generation == k.generation
            && item_is_live b)
          ≡ (s.source_container_id == k.id
              && s.premise_container_generation == k.generation
              && (item_is_proposed b || item_is_accepted b))
    by_status b = rw (live b) refl

doom-rests_on : (k : Container) (v : ℕ) (s : Suggestion) → rests_on k (doom k v s) ≡ false
doom-rests_on k v s = elim (Bool-cases (is_doomed k s)) [
  | inl e ↦ rw e (ground arith)
  | inr e ↦ rw e (sym (is_doomed-rests_on k s) ∙ e)
]

killed_one :
    (k : Container) (v : ℕ) (s : Suggestion)
    → (rests_on k s ≡ true)
        × ((doom k v s).id ≡ s.id)
        × ((doom k v s).status ≡ SuggestionStatus.stale)
      ⊎ (rests_on k s ≡ false) × (doom k v s ≡ s)
killed_one k v s = elim (Bool-cases (is_doomed k s)) [
  | inl e ↦ inl (sym (is_doomed-rests_on k s) ∙ e, rw e refl, rw e refl)
  | inr e ↦ inr (sym (is_doomed-rests_on k s) ∙ e, rw e refl)
]

-- The suggestions of all bundles, and those of one, when the dead are marked.
suggestions_of-doom_in :
    (k : Container) (v : ℕ) (bs : List Bundle)
    → suggestions_of (map (doom_in k v) bs) ≡ map (doom k v) (suggestions_of bs)
suggestions_of-doom_in k v [] = refl
suggestions_of-doom_in k v (b ∷ bs) =
    ap (λ l. map (doom k v) b.suggestions ++ l) (suggestions_of-doom_in k v bs)
    ∙ sym (map-append (doom k v) b.suggestions (suggestions_of bs))

none_rests :
    (k : Container) (v : ℕ) (ss : List Suggestion)
    → All (λ s. rests_on k s ≡ false) (map (doom k v) ss)
none_rests k v [] = tt
none_rests k v (s ∷ ss) = (doom-rests_on k v s, none_rests k v ss)

map-Killed : (k : Container) (v : ℕ) (ss : List Suggestion) → Killed k ss (map (doom k v) ss)
map-Killed k v [] = tt
map-Killed k v (s ∷ ss) = (killed_one k v s, map-Killed k v ss)

count-rests_on :
    (k : Container) (ss : List Suggestion) → count_of (is_doomed k) ss ≡ count_of (rests_on k) ss
count-rests_on k [] = refl
count-rests_on k (s ∷ ss) = rw (is_doomed-rests_on k s) (ground (arith, count-rests_on k ss))

count_of-append :
    (k : Container) (ss ts : List Suggestion)
    → count_of (rests_on k) (ss ++ ts) ≡ count_of (rests_on k) ss + count_of (rests_on k) ts
count_of-append k [] ts = omega arith
count_of-append k (s ∷ ss) ts = ground (arith, count_of-append k ss ts)

doomed_count-rests_on :
    (k : Container) (bs : List Bundle)
    → doomed_count k bs ≡ count_of (rests_on k) (suggestions_of bs)
unfolding doomed_count
doomed_count-rests_on k [] = refl
doomed_count-rests_on k (b ∷ bs) = omega (
  arith,
  count-rests_on k b.suggestions,
  count_of-append k b.suggestions (suggestions_of bs),
  doomed_count-rests_on k bs,
)

placements_after :
    (now : ℕ) (k : Container) (ps : List Placement)
    → All (λ p. is_live_under k p ≡ false) (map (end_placement now k) ps)
placements_after now k [] = tt
placements_after now k (p ∷ ps) = (ground arith, placements_after now k ps)

-- A folder that was made again: after `break_identity` no placement is live under the old generation.
-- Of all suggestions of all bundles, none that is proposed or accepted rests on that generation: each
-- one that did is stale, and every other is as before. The number that is returned is how many did.
-- And a premise taken from the folder under the old generation is not fresh.
pub break_identity-ends :
    (digest : Text → Text) (st : Store) (k : Container) (v : ℕ) (s : Suggestion)
    → s.source_container_id ≡ k.id
    → s.premise_container_generation ≡ k.generation
    → All (λ p. is_live_under k p ≡ false) (break_identity st k v).0.db.cache.placements
      × All (λ s. rests_on k s ≡ false) (suggestions_of (break_identity st k v).0.bundles)
      × Killed k (suggestions_of st.bundles) (suggestions_of (break_identity st k v).0.bundles)
      × (check digest (break_identity st k v).0.db.cache s ≢ fresh)
      × ((break_identity st k v).2 ≡ count_of (rests_on k) (suggestions_of st.bundles))
unfolding break_identity audit check get_container
break_identity-ends digest st k v s at generation =
    let ended = (break_identity st k v).0.db in
    (
      placements_after st.db.now k st.db.cache.placements,
      subst (λ ss. All (λ s. rests_on k s ≡ false) ss) (sym (suggestions_of-doom_in k v st.bundles))
          (none_rests k v (suggestions_of st.bundles)),
      subst (λ ss. Killed k (suggestions_of st.bundles) ss)
          (sym (suggestions_of-doom_in k v st.bundles))
          (map-Killed k v (suggestions_of st.bundles)),
      check-found digest (ended.cache) k v s (get_container ended.cache s.source_container_id)
          generation
          (λ x e.
            get-save (renewed k v) x st.db.cache.containers
              (ap (λ i. first (λ (y : Container). y.id == i) ended.cache.containers) (sym at) ∙ e)),
      doomed_count-rests_on k st.bundles,
    )
