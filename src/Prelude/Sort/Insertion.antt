-- ===== src/Prelude/Sort/Insertion.antt =====
-- Insertion sort by a Boolean comparison.
use Prim.Native.String.{String}
use mathlib.Core.Bool.{Bool}
use mathlib.Core.List.{List, [], ◌∷◌}
use k8s_diagnose.Prelude.Tests.{if◌then◌else◌}
use k8s_diagnose.Prelude.Texts.{text_lt}

module _ {ℓ} {A : Type ℓ} (less : A → A → Bool) where
  -- Before the first element that is not smaller: an element stays before those that it ties with.
  unfoldable pub insert : A → List A → List A
  insert x [] = x ∷ []
  insert x (y ∷ ys) = let rest = insert x ys in if less y x then y ∷ rest else x ∷ y ∷ ys

  unfoldable pub sort : List A → List A
  unfolding insert
  sort [] = []
  sort (x ∷ xs) = insert x (sort xs)

-- `sort.Strings`
unfoldable pub sort_strings : List String → List String
unfolding sort
sort_strings = sort text_lt
