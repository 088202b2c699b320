-- ===== src/Prelude/Firsts.antt =====
-- The first row that a query selects, and an assignment to it.
use Prim.Native.Nat.{◌≤◌}
use mathlib.Core.Path.{◌≡◌, refl}
use mathlib.Core.Logic.{inl, inr}
use mathlib.Core.Bool.{Bool, true, false}
use mathlib.Core.Option.{none, some}
use mathlib.Core.List.{List, [], ◌∷◌, ◌++◌}
use mathlib.Core.List.Memᴰ.{head, tail}
use mathlib.Core.List.{Memᴰ}
use native.Mathlib.Omega.{arith}
use ronny_email_worker.Prelude.Tests.{Bool-cases, if◌then◌else◌}
use ronny_email_worker.Prelude.Lists.{length, first, any, count_of}

module _ {ℓ} {A : Type ℓ} where
  -- An assignment to the first row that a query selects.
  unfoldable pub update_first : (A → Bool) → (A → A) → List A → List A
  update_first p f [] = []
  update_first p f (x ∷ xs) = if p x then f x ∷ xs else x ∷ update_first p f xs

  -- An assignment that keeps the rows which are selected changes the first of them.
  pub first-update_first :
      (p : A → Bool) (f : A → A) (xs : List A)
      → ((x : A) → p (f x) ≡ p x)
      → first p (update_first p f xs) ≡ elim (first p xs) [ none ↦ none | some x ↦ some (f x) ]
  unfolding update_first
  first-update_first p f [] h = refl
  first-update_first p f (x ∷ xs) h = ground (arith, first-update_first p f xs h, h x)

  -- An assignment that makes a row meet a query which none met: it is the row that is found.
  pub first-update_first_new :
      (p q : A → Bool) (f : A → A) (xs : List A) (a : A)
      → first p xs ≡ some a
      → first q xs ≡ none
      → q (f a) ≡ true
      → first q (update_first p f xs) ≡ some (f a)
  unfolding update_first
  first-update_first_new p q f [] a h k m = ground arith
  first-update_first_new p q f (x ∷ xs) a h k m = elim (Bool-cases (p x)) [
    | inl e ↦ let same : some x ≡ some a = ground (arith, e) in ground (arith, e, same, m)
    | inr e ↦
        let none_yet : q x ≡ false = ground arith in
        ground (
          arith,
          e,
          none_yet,
          first-update_first_new p q f xs a (ground (arith, e)) (ground (arith, none_yet)) m,
        )
  ]

  -- An assignment to a row of another query leaves what a query finds.
  pub first-update_first_other :
      (p q : A → Bool) (f : A → A) (xs : List A)
      → ((x : A) → p x ≡ true → q x ≡ false)
      → ((x : A) → p x ≡ true → q (f x) ≡ false)
      → first q (update_first p f xs) ≡ first q xs
  unfolding update_first
  first-update_first_other p q f [] h k = refl
  first-update_first_other p q f (x ∷ xs) h k = elim (Bool-cases (p x)) [
    | inl e ↦ ground (arith, e, h x e, k x e)
    | inr e ↦ ground (arith, e, first-update_first_other p q f xs h k)
  ]

  pub first-append_other :
      (q : A → Bool) (xs : List A) (y : A) → q y ≡ false → first q (xs ++ y ∷ []) ≡ first q xs
  first-append_other q [] y h = ground arith
  first-append_other q (x ∷ xs) y h = ground (arith, first-append_other q xs y h)

  pub length-update_first :
      (p : A → Bool) (f : A → A) (xs : List A) → length (update_first p f xs) ≡ length xs
  unfolding update_first
  length-update_first p f [] = refl
  length-update_first p f (x ∷ xs) = ground (arith, length-update_first p f xs)

  pub first-append_none :
      (p : A → Bool) (xs ys : List A) → first p xs ≡ none → first p (xs ++ ys) ≡ first p ys
  first-append_none p [] ys h = refl
  first-append_none p (x ∷ xs) ys h = ground (arith, first-append_none p xs ys)

  pub first-append_some :
      (p : A → Bool) (xs ys : List A) (a : A) → first p xs ≡ some a → first p (xs ++ ys) ≡ some a
  first-append_some p [] ys a h = ground arith
  first-append_some p (x ∷ xs) ys a h = ground (arith, first-append_some p xs ys a)

  -- A row that is selected is one that the test holds of.
  pub first-holds : (p : A → Bool) (xs : List A) (a : A) → first p xs ≡ some a → p a ≡ true
  first-holds p [] a h = ground arith
  first-holds p (x ∷ xs) a h = ground (arith, first-holds p xs a)

  pub first-any-false :
      (p q : A → Bool) (xs : List A) (a : A) → first p xs ≡ some a → any q xs ≡ false → q a ≡ false
  first-any-false p q [] a h k = ground arith
  first-any-false p q (x ∷ xs) a h k = elim (Bool-cases (p x)) [
    | inl e ↦ let same : some x ≡ some a = ground (arith, e) in ground (arith, same)
    | inr e ↦ first-any-false p q xs a (ground (arith, e)) (ground arith)
  ]

  -- The first row of a wider query is the first of a narrower one that it meets.
  pub first-narrow :
      (p q : A → Bool) (xs : List A) (a : A)
      → ((x : A) → q x ≡ true → p x ≡ true)
      → first p xs ≡ some a
      → q a ≡ true
      → first q xs ≡ some a
  first-narrow p q [] a w h k = ground arith
  first-narrow p q (x ∷ xs) a w h k = elim (Bool-cases (q x)) [
    | inl e ↦ ground (arith, e, w x e)
    | inr e ↦ elim (Bool-cases (p x)) [
      | inl f ↦ let same : some x ≡ some a = ground (arith, f) in ground (arith, e, same, k)
      | inr f ↦ ground (arith, e, f, first-narrow p q xs a w (ground (arith, f)) k)
    ]
  ]

  pub first-Memᴰ : (p : A → Bool) (xs : List A) (a : A) → first p xs ≡ some a → Memᴰ a xs
  first-Memᴰ p [] a h = ground arith
  first-Memᴰ p (x ∷ xs) a h = elim (Bool-cases (p x)) [
    | inl e ↦ head (ground (arith, e))
    | inr e ↦ tail (first-Memᴰ p xs a (ground (arith, e)))
  ]

  -- An assignment that makes no row meet a query which none met.
  pub any-update_first :
      (q p : A → Bool) (f : A → A) (xs : List A)
      → ((x : A) → q x ≡ false → q (f x) ≡ false)
      → any q xs ≡ false
      → any q (update_first p f xs) ≡ false
  unfolding update_first
  any-update_first q p f [] w h = refl
  any-update_first q p f (x ∷ xs) w h =
      let first_off : q x ≡ false = ground arith in
      let rest_off : any q xs ≡ false = ground arith in
      elim (Bool-cases (p x)) [
        | inl e ↦ ground (arith, e, w x first_off, rest_off)
        | inr e ↦ ground (arith, e, first_off, any-update_first q p f xs w rest_off)
      ]

  pub any-append_one :
      (q : A → Bool) (xs : List A) (y : A)
      → any q xs ≡ false
      → q y ≡ false
      → any q (xs ++ y ∷ []) ≡ false
  any-append_one q [] y h k = ground arith
  any-append_one q (x ∷ xs) y h k = ground (arith, any-append_one q xs y)

  -- Where one row at most meets a query, its assignment leaves none that meets a narrower one.
  pub any-update_first_only :
      (q p : A → Bool) (f : A → A) (xs : List A)
      → ((x : A) → q x ≡ true → p x ≡ true)
      → ((x : A) → q (f x) ≡ false)
      → count_of p xs ≤ 1
      → any q (update_first p f xs) ≡ false
  unfolding update_first
  any-update_first_only q p f [] w k h = refl
  any-update_first_only q p f (x ∷ xs) w k h = elim (Bool-cases (p x)) [
    | inl e ↦
        let rest : count_of p xs ≤ 0 = ground (arith, e) in ground (arith, e, k x, any-none xs rest)
    | inr e ↦
        let off : q x ≡ false = elim (Bool-cases (q x)) [
          | inl t ↦ ground (arith, e, w x t)
          | inr t ↦ t
        ] in
        ground (arith, e, off, any-update_first_only q p f xs w k (ground (arith, e)))
  ]
    where
      any-none : (ys : List A) → count_of p ys ≤ 0 → any q ys ≡ false
      any-none [] m = refl
      any-none (y ∷ ys) m = elim (Bool-cases (p y)) [
        | inl e ↦ ground (arith, e)
        | inr e ↦ elim (Bool-cases (q y)) [
          | inl t ↦ ground (arith, e, w y t)
          | inr t ↦ ground (arith, e, t, any-none ys)
        ]
      ]
