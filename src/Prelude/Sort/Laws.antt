-- ===== src/Prelude/Sort/Laws.antt =====
-- A sort only reorders, puts no element before a smaller one, and keeps ties in order.
use mathlib.Core.Path.{◌≡◌, refl}
use mathlib.Core.Bool.{Bool, true, false}
use mathlib.Core.List.{List, [], ◌∷◌, Memᴰ}
use mathlib.Core.List.Memᴰ
use mathlib.Core.Logic.{◌↔◌, inl, inr, ⊎_elim}
use native.Mathlib.Omega.{arith}
use k8s_diagnose.Prelude.Tests.{Bool-cases}
use k8s_diagnose.Prelude.Lists.{count_if, keep, length}
use k8s_diagnose.Prelude.Order.{IsWeakOrder}
use k8s_diagnose.Prelude.Sort.Insertion.{insert, sort}

swap_head {ℓ} : {A : Type ℓ} {a x y : A} {xs : List A} → Memᴰ a (x ∷ y ∷ xs) → Memᴰ a (y ∷ x ∷ xs)
swap_head m =
    ⊎_elim (λ e. Memᴰ.tail (Memᴰ.head e))
      (λ r. ⊎_elim Memᴰ.head (λ r'. Memᴰ.tail (Memᴰ.tail r')) (Memᴰ.cases_cons r))
      (Memᴰ.cases_cons m)

module _ {ℓ} {A : Type ℓ} (less : A → A → Bool) where
  count_if-insert :
      (p : A → Bool) (x : A) (xs : List A) → count_if p (insert less x xs) ≡ count_if p (x ∷ xs)
  unfolding insert
  count_if-insert p x [] = refl
  count_if-insert p x (y ∷ ys) = ground (arith, count_if-insert p x ys)

  pub count_if-sort : (p : A → Bool) (xs : List A) → count_if p (sort less xs) ≡ count_if p xs
  unfolding sort
  count_if-sort p [] = refl
  count_if-sort p (x ∷ xs) = ground (arith, count_if-insert p x (sort less xs), count_if-sort p xs)

  length-count : (xs : List A) → length xs ≡ count_if (λ x. true) xs
  length-count [] = refl
  length-count (x ∷ xs) = omega (arith, length-count xs)

  pub length-sort : (xs : List A) → length (sort less xs) ≡ length xs
  length-sort xs =
      omega (arith, length-count (sort less xs), length-count xs, count_if-sort (λ x. true) xs)

  -- No element of the list is smaller than `x`.
  abbrev pub NoneBelow : A → List A → Type 0
  NoneBelow x [] = Unit
  NoneBelow x (y ∷ ys) = (less y x ≡ false) × NoneBelow x ys

  abbrev pub IsSorted : List A → Type 0
  IsSorted [] = Unit
  IsSorted (x ∷ xs) = NoneBelow x xs × IsSorted xs

  NoneBelow-insert :
      (z x : A) (xs : List A) → less x z ≡ false → NoneBelow z xs → NoneBelow z (insert less x xs)
  unfolding insert
  NoneBelow-insert z x [] h k = (h, tt)
  NoneBelow-insert z x (y ∷ ys) h k = ground (arith, NoneBelow-insert z x ys)

  -- A test that picks elements which tie with one another keeps them in order.
  keep-insert :
      (p : A → Bool) (x : A) (xs : List A)
      → ((a b : A) → p a ≡ true → p b ≡ true → less a b ≡ false)
      → keep p (insert less x xs) ≡ keep p (x ∷ xs)
  unfolding insert
  keep-insert p x [] ties = refl
  keep-insert p x (y ∷ ys) ties = ground (arith, keep-insert p x ys ties, ties y x)

  pub keep-sort :
      (p : A → Bool) (xs : List A)
      → ((a b : A) → p a ≡ true → p b ≡ true → less a b ≡ false)
      → keep p (sort less xs) ≡ keep p xs
  unfolding sort
  keep-sort p [] ties = refl
  keep-sort p (x ∷ xs) ties =
      ground (arith, keep-insert p x (sort less xs) ties, keep-sort p xs ties)

  Memᴰ-insert : (a x : A) (xs : List A) → Memᴰ a (insert less x xs) ↔ Memᴰ a (x ∷ xs)
  unfolding insert
  Memᴰ-insert a x [] = (λ m. m, λ m. m)
  Memᴰ-insert a x (y ∷ ys) = elim (Bool-cases (less y x)) [
    | inl h ↦ rw h (
      λ m. swap_head (
          ⊎_elim (λ e. Memᴰ.head e) (λ r. Memᴰ.tail ((Memᴰ-insert a x ys).0 r))
            (Memᴰ.cases_cons m)),
      λ m.
          ⊎_elim (λ e. Memᴰ.head e) (λ r. Memᴰ.tail ((Memᴰ-insert a x ys).1 r))
            (Memᴰ.cases_cons (swap_head m)),
    )
    | inr h ↦ rw h (λ m. m, λ m. m)
  ]

  pub Memᴰ-sort : (a : A) (xs : List A) → Memᴰ a (sort less xs) ↔ Memᴰ a xs
  unfolding sort
  Memᴰ-sort a [] = (λ m. m, λ m. m)
  Memᴰ-sort a (x ∷ xs) = (
    λ m.
        ⊎_elim Memᴰ.head (λ r. Memᴰ.tail ((Memᴰ-sort a xs).0 r))
          (Memᴰ.cases_cons ((Memᴰ-insert a x (sort less xs)).0 m)),
    λ m.
        (Memᴰ-insert a x (sort less xs)).1
          (⊎_elim Memᴰ.head (λ r. Memᴰ.tail ((Memᴰ-sort a xs).1 r)) (Memᴰ.cases_cons m)),
  )

module _ {ℓ} {A : Type ℓ} {less : A → A → Bool} (order : IsWeakOrder less) where
  NoneBelow-trans :
      (x y : A) (ys : List A) → less y x ≡ false → NoneBelow less y ys → NoneBelow less x ys
  NoneBelow-trans x y [] h k = tt
  NoneBelow-trans x y (z ∷ zs) h (k, ks) = (order.le_trans x y z h k, NoneBelow-trans x y zs h ks)

  insert-IsSorted : (x : A) (xs : List A) → IsSorted less xs → IsSorted less (insert less x xs)
  unfolding insert
  insert-IsSorted x [] s = (tt, tt)
  insert-IsSorted x (y ∷ ys) (below, s) = ground (
    arith,
    insert-IsSorted x ys s,
    NoneBelow-insert less y x ys,
    order.asym y x,
    NoneBelow-trans x y ys,
  )

  pub sort-IsSorted : (xs : List A) → IsSorted less (sort less xs)
  unfolding sort
  sort-IsSorted [] = tt
  sort-IsSorted (x ∷ xs) = insert-IsSorted x (sort less xs) (sort-IsSorted xs)
