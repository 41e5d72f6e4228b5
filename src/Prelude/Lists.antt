-- ===== src/Prelude/Lists.antt =====
-- Lists measured by native numbers, with Boolean tests, and sets of texts kept as lists.
use Prim.Native.Nat.{ℕ, zero, suc, ◌+◌, ◌≤◌, ◌<◌}
use Prim.Native.String.{String}
use mathlib.Core.Path.{◌≡◌, refl, ap, sym, ◌∙◌, subst}
use mathlib.Core.Logic.{◌↔◌, inl, inr, ⊎_elim}
use mathlib.Core.Bool.{Bool, true, false, ◌&&◌, ◌||◌}
use mathlib.Core.List.{List, [], ◌∷◌, ◌++◌, Memᴰ}
use mathlib.Core.List.Memᴰ
use mathlib.Core.Option.{Option, none, some}
use native.Mathlib.Omega.{arith}
use text.Mathlib.Text.{◌==◌}
use text.Mathlib.TextEquality.{eq_iff}
use k8s_diagnose.Prelude.Tests.{if◌then◌else◌, Bool-cases, or_left, or_right}

true≢false : ¬ (true ≡ false)
true≢false h = cc

module _ {ℓ} {A : Type ℓ} where
  abbrev pub length : List A → ℕ
  length [] = 0
  length (x ∷ xs) = suc (length xs)

  abbrev pub is_empty : List A → Bool
  is_empty [] = true
  is_empty (x ∷ xs) = false

  pub length-append : (xs ys : List A) → length (xs ++ ys) ≡ length xs + length ys
  length-append [] ys = omega arith
  length-append (x ∷ xs) ys = omega (arith, length-append xs ys)

  -- The values that pass a test, in order.
  abbrev pub keep : (A → Bool) → List A → List A
  keep p [] = []
  keep p (x ∷ xs) = let rest = keep p xs in if p x then x ∷ rest else rest

  abbrev pub any : (A → Bool) → List A → Bool
  any p [] = false
  any p (x ∷ xs) = p x || any p xs

  abbrev pub all : (A → Bool) → List A → Bool
  all p [] = true
  all p (x ∷ xs) = p x && all p xs

  abbrev pub find_first : (A → Bool) → List A → Option A
  find_first p [] = none
  find_first p (x ∷ xs) = let rest = find_first p xs in if p x then some x else rest

  abbrev pub count_if : (A → Bool) → List A → ℕ
  count_if p [] = 0
  count_if p (x ∷ xs) = if p x then suc (count_if p xs) else count_if p xs

  abbrev pub get_or : List A → ℕ → A → A
  get_or [] i d = d
  get_or (x ∷ xs) zero d = x
  get_or (x ∷ xs) (suc i) d = get_or xs i d

  abbrev pub last_or : A → List A → A
  last_or d [] = d
  last_or d (x ∷ xs) = last_or x xs

  pub count_if-append :
      (p : A → Bool) (xs ys : List A) → count_if p (xs ++ ys) ≡ count_if p xs + count_if p ys
  count_if-append p [] ys = omega arith
  count_if-append p (x ∷ xs) ys = ground (arith, count_if-append p xs ys)

  pub count_if-le-length : (p : A → Bool) (xs : List A) → count_if p xs ≤ length xs
  count_if-le-length p [] = omega arith
  count_if-le-length p (x ∷ xs) = ground (arith, count_if-le-length p xs)

  -- What is kept is what stood in the list and passes the test.
  pub Memᴰ-keep :
      (p : A → Bool) (a : A) (xs : List A) → Memᴰ a (keep p xs) → Memᴰ a xs × (p a ≡ true)
  Memᴰ-keep p a [] m = absurd (Memᴰ.not-nil m)
  Memᴰ-keep p a (x ∷ xs) m = elim (Bool-cases (p x)) [
    | inl h ↦
        ⊎_elim (λ e. (Memᴰ.head e, ap p e ∙ h))
          (λ r. let (i, t) = Memᴰ-keep p a xs r in (Memᴰ.tail i, t)) (Memᴰ.cases_cons (rw h at m))
    | inr h ↦ let (i, t) = Memᴰ-keep p a xs (rw h at m) in (Memᴰ.tail i, t)
  ]

  pub Memᴰ-keep_of :
      (p : A → Bool) (a : A) (xs : List A) → Memᴰ a xs → p a ≡ true → Memᴰ a (keep p xs)
  Memᴰ-keep_of p a [] m h = m
  Memᴰ-keep_of p a (x ∷ xs) m h = elim (Bool-cases (p x)) [
    | inl passes ↦
        rw passes (⊎_elim Memᴰ.head (λ r. Memᴰ.tail (Memᴰ-keep_of p a xs r h)) (Memᴰ.cases_cons m))
    | inr fails ↦ rw fails (
        ⊎_elim (λ e. absurd (true≢false (sym h ∙ ap p e ∙ fails))) (λ r. Memᴰ-keep_of p a xs r h)
          (Memᴰ.cases_cons m))
  ]

  pub any-append : (p : A → Bool) (xs ys : List A) → any p (xs ++ ys) ≡ (any p xs || any p ys)
  any-append p [] ys = refl
  any-append p (x ∷ xs) ys = ground (arith, any-append p xs ys)

  pub count_if-pos : (p : A → Bool) (xs : List A) → (0 < count_if p xs) ↔ (any p xs ≡ true)
  count_if-pos p [] = ground arith
  count_if-pos p (x ∷ xs) = ground (arith, count_if-pos p xs)

  any_of_Memᴰ : (p : A → Bool) (a : A) (xs : List A) → Memᴰ a xs → p a ≡ true → any p xs ≡ true
  any_of_Memᴰ p a [] m h = absurd (Memᴰ.not-nil m)
  any_of_Memᴰ p a (x ∷ xs) (Memᴰ.head e) h = or_left (p x) (any p xs) (ap p (sym e) ∙ h)
  any_of_Memᴰ p a (x ∷ xs) (Memᴰ.tail m) h = or_right (p x) (any p xs) (any_of_Memᴰ p a xs m h)

  Memᴰ_of_any : (p : A → Bool) (xs : List A) → any p xs ≡ true → (x : A) × Memᴰ x xs × (p x ≡ true)
  Memᴰ_of_any p [] h = cc
  Memᴰ_of_any p (x ∷ xs) h = elim (Bool-cases (p x)) [
    | inl here ↦ (x, Memᴰ.head refl, here)
    | inr later ↦ let (y, m, t) = Memᴰ_of_any p xs (rw later at h) in (y, Memᴰ.tail m, t)
  ]

  pub any_iff :
      (p : A → Bool) (xs : List A) → (any p xs ≡ true) ↔ ((x : A) × Memᴰ x xs × (p x ≡ true))
  any_iff p xs = (Memᴰ_of_any p xs, λ (x, m, h). any_of_Memᴰ p x xs m h)

module _ {ℓ κ} {A : Type ℓ} where
  -- A predicate that holds of every element, by recursion.
  abbrev pub All : (A → Type κ) → List A → Type κ
  All P [] = Unit
  All P (x ∷ xs) = P x × All P xs

  pub All-concat : (P : A → Type κ) (xs : List A) {x : A} → All P xs → P x → All P (xs ++ x ∷ [])
  All-concat P [] h p = (p, tt)
  All-concat P (y ∷ ys) (q, h) p = (q, All-concat P ys h p)

  pub All-append : (P : A → Type κ) (xs ys : List A) → All P xs → All P ys → All P (xs ++ ys)
  All-append P [] ys h k = k
  All-append P (x ∷ xs) ys (p, h) k = (p, All-append P xs ys h k)

  pub All-Memᴰ : (P : A → Type κ) (xs : List A) {x : A} → All P xs → Memᴰ x xs → P x
  All-Memᴰ P [] h m = absurd (Memᴰ.not-nil m)
  All-Memᴰ P (y ∷ ys) (p, h) (Memᴰ.head e) = subst P (sym e) p
  All-Memᴰ P (y ∷ ys) (p, h) (Memᴰ.tail m) = All-Memᴰ P ys h m

  pub All-of_Memᴰ : (P : A → Type κ) (xs : List A) → ((x : A) → Memᴰ x xs → P x) → All P xs
  All-of_Memᴰ P [] h = tt
  All-of_Memᴰ P (x ∷ xs) h = (h x (Memᴰ.head refl), All-of_Memᴰ P xs (λ y m. h y (Memᴰ.tail m)))

module _ {ℓ κ μ} {A : Type ℓ} where
  pub All-weaken :
      (P : A → Type κ) (Q : A → Type μ) (xs : List A) → ((x : A) → P x → Q x) → All P xs → All Q xs
  All-weaken P Q [] f h = tt
  All-weaken P Q (x ∷ xs) f (p, h) = (f x p, All-weaken P Q xs f h)

-- `contains` and the sets `map[string]struct{}`
abbrev pub contains : List String → String → Bool
contains [] a = false
contains (x ∷ xs) a = x == a || contains xs a

pub contains_Memᴰ : (k : String) (xs : List String) → contains xs k ≡ true → Memᴰ k xs
contains_Memᴰ k [] h = cc
contains_Memᴰ k (x ∷ xs) h = elim (Bool-cases (x == k)) [
  | inl same ↦ Memᴰ.head (sym ((eq_iff x k).0 same))
  | inr other ↦ Memᴰ.tail (contains_Memᴰ k xs (rw other at h))
]

pub contains-Memᴰ : (k : String) (xs : List String) → Memᴰ k xs → contains xs k ≡ true
contains-Memᴰ k [] m = absurd (Memᴰ.not-nil m)
contains-Memᴰ k (x ∷ xs) (Memᴰ.head e) = ground (arith, eq_iff x k, e)
contains-Memᴰ k (x ∷ xs) (Memᴰ.tail m) = ground (arith, contains-Memᴰ k xs m)

pub contains-append :
    (k : String) (xs ys : List String) → contains (xs ++ ys) k ≡ (contains xs k || contains ys k)
contains-append k [] ys = refl
contains-append k (x ∷ xs) ys = ground (arith, contains-append k xs ys)

pub contains-keep :
    (p : String → Bool) (k : String) (xs : List String)
    → contains (keep p xs) k ≡ true
    → (p k ≡ true) × (contains xs k ≡ true)
contains-keep p k [] h = cc
contains-keep p k (x ∷ xs) h = ground (arith, contains-keep p k xs, eq_iff x k)
