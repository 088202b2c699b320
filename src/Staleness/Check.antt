-- ===== src/Staleness/Check.antt =====
-- `check` of src/mailmind/suggest/staleness.py against a description of a premise that does not
-- go by its order of tests.
use ronny_email_worker.Prelude.{
  ℕ, ◌≡◌, ◌↔◌, inl, inr, Bool, false, Option, none, some, List, [], ◌∷◌, arith, All, count_of,
  Option-cases,
}
use ronny_email_worker.Text.{Text, text_eq_iff}
use ronny_email_worker.Models.{Container, Placement, Suggestion}
use ronny_email_worker.Scope.{Cache, get_container}
use ronny_email_worker.Staleness.{
  fresh, placement_at, is_live_in, live_message_count, check_container, flags_hash, check_premise,
  check_placement, check_message, check,
}

-- What a message item remembers of the state that its message was in.
abbrev pub SameState : (Text → Text) → Suggestion → Placement → Option ℕ → Type 0
SameState digest s p (some modseq) = p.modseq ≡ some modseq
SameState digest s p none = flags_hash digest p.flags ≡ s.premise_flags_hash

-- The message is where it was, under the generation that it was seen under, in the same state.
pub record MessageHolds (digest : Text → Text) (c : Cache) (s : Suggestion) : Type 0 where
  pub container : Container
  pub known : get_container c s.source_container_id ≡ some container
  pub same_generation : container.generation ≡ s.premise_container_generation
  pub placement : Placement
  pub placed :
      placement_at c container.id s.premise_container_generation s.premise_uid ≡ some placement
  pub not_gone : placement.gone_at ≡ none
  pub same_state : SameState digest s placement s.premise_modseq

-- The folder is the one that was proposed for removal, and no live placement is in it.
pub record FolderHolds (c : Cache) (s : Suggestion) : Type 0 where
  pub container : Container
  pub known : get_container c s.source_container_id ≡ some container
  pub not_discarded : container.discarded_at ≡ none
  pub same_generation : container.generation ≡ s.premise_container_generation
  pub holds_nothing : All (λ p. is_live_in container p ≡ false) c.placements

count_none {ℓ} :
    {A : Type ℓ} (p : A → Bool) (xs : List A) → (count_of p xs ≡ 0) ↔ All (λ x. p x ≡ false) xs
count_none p [] = ground arith
count_none p (x ∷ xs) = ground (arith, count_none p xs)

module _ (digest : Text → Text) where
  premise_iff :
      (k : Container) (s : Suggestion) (p : Placement)
      → (check_premise digest k s p ≡ fresh) ↔ SameState digest s p s.premise_modseq
  unfolding check_premise
  premise_iff k s p = elim (Option-cases s.premise_modseq) [
    | inl e ↦ rw e (
        unfold check_premise in
        ground (arith, text_eq_iff (flags_hash digest p.flags) s.premise_flags_hash, e))
    | inr (m, e) ↦ rw e (ground (arith, e))
  ]

  message_complete :
      (c : Cache) (s : Suggestion) (m : ℕ)
      → s.message_id ≡ some m
      → MessageHolds digest c s
      → check digest c s ≡ fresh
  unfolding check check_message check_placement
  message_complete c s m named h = ground (
    arith,
    h.known,
    h.placed,
    h.not_gone,
    h.same_generation,
    (premise_iff h.container s h.placement).1 h.same_state,
  )

  message_sound :
      (c : Cache) (s : Suggestion) (m : ℕ)
      → s.message_id ≡ some m
      → check digest c s ≡ fresh
      → MessageHolds digest c s
  unfolding check check_message check_placement
  message_sound c s m named h = elim (Option-cases (get_container c s.source_container_id)) [
    | inl e ↦ ground arith
    | inr (k, e) ↦
        elim (Option-cases (placement_at c k.id s.premise_container_generation s.premise_uid)) [
          | inl e' ↦ ground arith
          | inr (p, e') ↦ record {
            container = k;
            known = e;
            same_generation = ground arith;
            placement = p;
            placed = e';
            not_gone = ground arith;
            same_state = (premise_iff k s p).0 (ground arith);
          }
        ]
  ]

  -- A suggestion about a message is fresh exactly when its premise holds: its folder is known and of
  -- the generation that was remembered, the remembered uid is placed there and not gone, and the
  -- message's modseq, or without one its flags, are the remembered ones.
  pub check_message_iff :
      (c : Cache) (s : Suggestion) (m : ℕ)
      → s.message_id ≡ some m
      → (check digest c s ≡ fresh) ↔ MessageHolds digest c s
  check_message_iff c s m named = (message_sound c s m named, message_complete c s m named)

  folder_sound :
      (c : Cache) (s : Suggestion)
      → s.message_id ≡ none
      → check digest c s ≡ fresh
      → FolderHolds c s
  unfolding check check_container live_message_count
  folder_sound c s named h = elim (Option-cases (get_container c s.source_container_id)) [
    | inl e ↦ ground arith
    | inr (k, e) ↦ record {
      container = k;
      known = e;
      not_discarded = ground arith;
      same_generation = ground arith;
      holds_nothing = (count_none (is_live_in k) c.placements).0 (ground arith);
    }
  ]

  folder_complete :
      (c : Cache) (s : Suggestion)
      → s.message_id ≡ none
      → FolderHolds c s
      → check digest c s ≡ fresh
  unfolding check check_container live_message_count
  folder_complete c s named h = ground (
    arith,
    h.known,
    h.not_discarded,
    h.same_generation,
    (count_none (is_live_in h.container) c.placements).1 h.holds_nothing,
  )

  -- A suggestion about a folder is fresh exactly when the folder is known and not discarded, is of the
  -- generation that was remembered, and holds no live placement of its present generation.
  pub check_folder_iff :
      (c : Cache) (s : Suggestion)
      → s.message_id ≡ none
      → (check digest c s ≡ fresh) ↔ FolderHolds c s
  check_folder_iff c s named = (folder_sound c s named, folder_complete c s named)
