-- ===== src/Imap/Sync/Discovering.antt =====
-- What `discover_containers` of src/mailmind/imap/sync.py makes of a listing.
use ronny_email_worker.Prelude.{
  ◌≡◌, true, none, inl, inr, List, [], ◌∷◌, arith, Option-cases, first, first-holds,
}
use ronny_email_worker.Text.{text_eq, text_eq_iff}
use ronny_email_worker.Models.{Account, Container}
use ronny_email_worker.Caching.{Store}
use ronny_email_worker.Imap.Backend.{ContainerInfo}
use ronny_email_worker.Imap.Sync.Accounts.{discover_one, discover_all, discover_new, discover_known}

-- A folder as a listing leaves it.
abbrev IsListed : ContainerInfo → Container → Type 0
IsListed info k =
    (k.name ≡ info.name)
    × (k.exists_on_server ≡ true)
    × (k.discarded_at ≡ none)
    × (k.selectable ≡ info.selectable)
    × (k.special_use ≡ info.special_use)

discover_one-IsListed :
    (s : Store) (a : Account) (existing : List Container) (info : ContainerInfo)
    → IsListed info (discover_one s a existing info).1
unfolding discover_one discover_new discover_known
discover_one-IsListed s a existing info =
    elim (Option-cases (first (λ (k : Container). text_eq k.name info.name) existing)) [
      | inl e ↦ ground (arith, e)
      | inr (k, e) ↦
          let named : k.name ≡ info.name =
            (text_eq_iff k.name info.name).0
              (first-holds (λ (k : Container). text_eq k.name info.name) existing k e) in
          ground (arith, e, named)
    ]

-- One folder for each entry.
abbrev AreListed : List ContainerInfo → List Container → Type 0
AreListed [] [] = Unit
AreListed [] (k ∷ ks) = ⊥
AreListed (info ∷ infos) [] = ⊥
AreListed (info ∷ infos) (k ∷ ks) = IsListed info k × AreListed infos ks

-- What a server lists is what the cache then holds to be there: a listing gives one folder for each
-- of its entries, in its order, with its name, its special use and whether it can be selected,
-- which exists and is not discarded, whether it was known, proposed, discarded or new.
discover_all-AreListed :
    (s : Store) (a : Account) (existing : List Container) (infos : List ContainerInfo)
    → AreListed infos (discover_all s a existing infos).1
unfolding discover_all
discover_all-AreListed s a existing [] = tt
discover_all-AreListed s a existing (info ∷ infos) = (
  discover_one-IsListed s a existing info,
  discover_all-AreListed (discover_one s a existing info).0 a existing infos,
)
