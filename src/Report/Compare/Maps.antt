-- ===== src/Report/Compare/Maps.antt =====
-- Maps in which every value stands under a key that it determines.
use k8s_diagnose.Prelude.{
  String, true, false, Option, none, some, List, [], ◌∷◌, ◌≡◌, ◌≤◌, refl, subst, inl, inr, arith,
  ◌==◌, eq_iff, lookup, put, is_some, Bool-cases, count_if, map, length, contains,
}
use mathlib.Core.Option.{none-ne-some, some-injective}
use k8s_diagnose.Report.Json.{Json}
use k8s_diagnose.Report.Findings.{Objects, keys, has, or_null, value_at}

-- Each key stands once.
abbrev pub Once : List String → Type 0
Once ks = (k : String) → count_if (λ j. j == k) ks ≤ 1

module _ {ℓ} {V : Type ℓ} where
  -- Each entry satisfies `P`.
  abbrev pub Entries : (String → V → Type 0) → List (String × V) → Type 0
  Entries P [] = Unit
  Entries P ((k, v) ∷ m) = P k v × Entries P m

  abbrev pub keys_of : List (String × V) → List String
  keys_of m = map (λ (e : String × V). e.0) m

  pub Entries-put :
      (P : String → V → Type 0) (k : String) (v : V) (m : List (String × V))
      → P k v
      → Entries P m
      → Entries P (put k v m)
  unfolding put
  Entries-put P k v [] p h = (p, tt)
  Entries-put P k v ((j, w) ∷ m) p (q, h) = elim (Bool-cases (j == k)) [
    | inl same ↦ rw same (p, h)
    | inr other ↦ rw other (q, Entries-put P k v m p h)
  ]

  pub Entries-lookup :
      (P : String → V → Type 0) (k : String) (v : V) (m : List (String × V))
      → Entries P m
      → lookup k m ≡ some v
      → P k v
  unfolding lookup
  Entries-lookup P k v [] h e = absurd (none-ne-some _ e)
  Entries-lookup P k v ((j, w) ∷ m) (q, h) e = elim (Bool-cases (j == k)) [
    | inl same ↦
        subst (λ i. P i v) ((eq_iff j k).0 same) (subst (P j) (some-injective w v (rw same at e)) q)
    | inr other ↦ Entries-lookup P k v m h (rw other at e)
  ]

  put-count :
      (k i : String) (v : V) (m : List (String × V))
      → (i == k) ≡ false
      → count_if (λ j. j == k) (keys_of (put i v m)) ≡ count_if (λ j. j == k) (keys_of m)
  unfolding put
  put-count k i v [] h = ground (arith, h)
  put-count k i v ((j, w) ∷ m) h =
      ground (arith, put-count k i v m h, eq_iff j i, eq_iff j k, eq_iff i k)

  put-Once_at :
      (k i : String) (v : V) (m : List (String × V))
      → count_if (λ j. j == k) (keys_of m) ≤ 1
      → count_if (λ j. j == k) (keys_of (put i v m)) ≤ 1
  unfolding put
  put-Once_at k i v [] h = ground (arith)
  put-Once_at k i v ((j, w) ∷ m) h =
      ground (arith, put-Once_at k i v m, put-count k i v m, eq_iff j i, eq_iff j k, eq_iff i k)

  pub put-Once :
      (i : String) (v : V) (m : List (String × V)) → Once (keys_of m) → Once (keys_of (put i v m))
  put-Once i v m h k = put-Once_at k i v m (h k)

some-or_null : (o : Option Json) → is_some o ≡ true → o ≡ some (or_null o)
some-or_null none h = cc
some-or_null (some v) h = refl

-- The value of a key that the map has.
pub has-value_at : (m : Objects) (k : String) → has m k ≡ true → lookup k m ≡ some (value_at m k)
unfolding value_at
has-value_at m k h = some-or_null (lookup k m) h

pub has-keys : (m : Objects) (k : String) → contains (keys m) k ≡ has m k
unfolding lookup
has-keys [] k = refl
has-keys ((j, v) ∷ m) k = ground (arith, has-keys m k)

pub length-keys : (m : Objects) → length (keys m) ≡ length m
length-keys [] = refl
length-keys (e ∷ m) = omega (arith, length-keys m)
