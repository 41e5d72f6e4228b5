-- ===== src/Prelude/Sort/Ordered.antt =====
-- What a sort by a chain of key comparisons leaves, said of each pair of its elements.
use mathlib.Core.Path.{◌≡◌, sym, ◌∙◌}
use mathlib.Core.Bool.{Bool, true, false}
use mathlib.Core.List.{List, [], ◌∷◌}
use mathlib.Core.Logic.{◌⊎◌, inl, inr}
use k8s_diagnose.Prelude.Tests.{Bool-cases, if◌then◌else◌}
use k8s_diagnose.Prelude.Lists.{All}
use k8s_diagnose.Prelude.Order.{IsKeyOrder}
use k8s_diagnose.Prelude.Sort.Laws.{NoneBelow, IsSorted}

module _ {ℓ κ} {A : Type ℓ} (R : A → A → Type κ) where
  -- Each element is related to all those behind it.
  abbrev pub IsOrdered : List A → Type κ
  IsOrdered [] = Unit
  IsOrdered (x ∷ xs) = All (R x) xs × IsOrdered xs

  module _ (less : A → A → Bool) (related : (a b : A) → less b a ≡ false → R a b) where
    All-of_NoneBelow : (x : A) (xs : List A) → NoneBelow less x xs → All (R x) xs
    All-of_NoneBelow x [] h = tt
    All-of_NoneBelow x (y ∷ ys) (p, h) = (related x y p, All-of_NoneBelow x ys h)

    pub IsOrdered-of_IsSorted : (xs : List A) → IsSorted less xs → IsOrdered xs
    IsOrdered-of_IsSorted [] h = tt
    IsOrdered-of_IsSorted (x ∷ xs) (p, h) = (All-of_NoneBelow x xs p, IsOrdered-of_IsSorted xs h)

true_not_false : true ≡ false → ⊥
true_not_false h = cc

-- Where `b` is not before `a`, the first key of `a` is smaller, or it ties and the rest decides.
pub key-cases {ℓ} :
    {K : Type ℓ} {eq lt : K → K → Bool}
    → IsKeyOrder eq lt
    → (a b : K) (rest : Bool) → (if eq b a then rest else lt b a) ≡ false
    → (lt a b ≡ true) ⊎ ((a ≡ b) × (rest ≡ false))
key-cases {eq} {lt} key a b rest h = elim (Bool-cases (eq b a)) [
  | inl same ↦ inr (sym (key.eq_sound b a same), rw same at h)
  | inr other ↦ elim (Bool-cases (lt a b)) [
    | inl less ↦ inl less
    | inr not_less ↦
        let tied = key.tie a b not_less (rw other at h) in
        absurd (true_not_false (sym (rw tied (key.eq_self b)) ∙ other))
  ]
]
