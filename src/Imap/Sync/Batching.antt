-- ===== src/Imap/Sync/Batching.antt =====
-- The batches that `sync_container` of src/mailmind/imap/sync.py asks a folder's uids in.
use ronny_email_worker.Prelude.{
  ℕ, zero, suc, ◌+◌, ◌-◌, ◌≤◌, ◌≡◌, refl, ap, ◌∙◌, List, [], ◌∷◌, ◌++◌, arith, All, length,
  length-append,
}
use ronny_email_worker.Imap.Sync.Container.{batches, batches_from, fetch_batch}

flat : List (List ℕ) → List ℕ
flat [] = []
flat (b ∷ bs) = b ++ flat bs

append_one : (xs ys : List ℕ) (y : ℕ) → (xs ++ y ∷ []) ++ ys ≡ xs ++ (y ∷ ys)
append_one [] ys y = refl
append_one (x ∷ xs) ys y = ap (λ l. x ∷ l) (append_one xs ys y)

append_nil : (xs : List ℕ) → xs ++ [] ≡ xs
append_nil [] = refl
append_nil (x ∷ xs) = ap (λ l. x ∷ l) (append_nil xs)

batches_from-flat :
    (size room : ℕ) (batch us : List ℕ) → flat (batches_from size room batch us) ≡ batch ++ us
unfolding batches_from flat
batches_from-flat size room [] [] = refl
batches_from-flat size room (b ∷ bs) [] = refl
batches_from-flat size zero batch (u ∷ us) =
    ap (λ l. batch ++ l) (batches_from-flat size size (u ∷ []) us)
batches_from-flat size (suc room) batch (u ∷ us) =
    batches_from-flat size room (batch ++ u ∷ []) us ∙ append_one batch us u

-- A batch is not empty and not larger than it may be.
IsBatch : (size : ℕ) → List ℕ → Type 0
IsBatch size batch = (1 ≤ length batch) × (length batch ≤ size + 1)

batches_from-IsBatch :
    (size room : ℕ) (batch us : List ℕ)
    → length batch + room ≡ size + 1
    → All (IsBatch size) (batches_from size room batch us)
unfolding batches_from IsBatch
batches_from-IsBatch size room [] [] h = tt
batches_from-IsBatch size room (b ∷ bs) [] h = ((omega arith, omega (arith, h)), tt)
batches_from-IsBatch size zero batch (u ∷ us) h =
    ((omega (arith, h), omega (arith, h)), batches_from-IsBatch size size (u ∷ []) us (omega arith))
batches_from-IsBatch size (suc room) batch (u ∷ us) h =
    batches_from-IsBatch size room (batch ++ u ∷ []) us
      (omega (arith, h, length-append batch (u ∷ [])))

-- Every uid is asked for once and in order: the batches, one after another, are the uids of the
-- folder, and none is empty or has more than 200.
batches-partition :
    (present : List ℕ)
    → (flat (batches present) ≡ present)
      × All (λ batch. (1 ≤ length batch) × (length batch ≤ fetch_batch)) (batches present)
unfolding batches IsBatch
batches-partition present = (
  batches_from-flat (fetch_batch - 1) fetch_batch [] present,
  batches_from-IsBatch (fetch_batch - 1) fetch_batch [] present refl,
)
