-- ===== src/Prelude/Order/Keys.antt =====
-- Total orders on keys, and the strict weak orders that a chain of key comparisons gives.
use Prim.Native.Nat.{Ordering}
use Prim.Native.String.{String, compare}
use Prim.Native.String.compare
use mathlib.Core.Path.{◌≡◌, refl}
use mathlib.Core.Bool.{Bool, true, false}
use native.Mathlib.Omega.{arith}
use text.Mathlib.Text.{◌==◌}
use text.Mathlib.TextEquality.{eq_iff, path_by_compare}
use k8s_diagnose.Prelude.Tests.{ltb, nat_eq, if◌then◌else◌}
use k8s_diagnose.Prelude.Integers.{ℤ, pos, negsuc, int_ltb, int_eq}
use k8s_diagnose.Prelude.Texts.{text_lt}

-- What a comparison function must satisfy for a sort to be determined up to ties.
pub record IsWeakOrder {ℓ} {A : Type ℓ} (less : A → A → Bool) : Type ℓ where
  pub asym : (a b : A) → less a b ≡ true → less b a ≡ false
  pub le_trans : (a b c : A) → less b a ≡ false → less c b ≡ false → less c a ≡ false

-- A comparison of keys in which only equal keys tie.
pub record IsKeyOrder {ℓ} {K : Type ℓ} (eq lt : K → K → Bool) : Type ℓ where
  pub weak : IsWeakOrder lt
  pub eq_self : (a : K) → eq a a ≡ true
  pub tie : (a b : K) → lt a b ≡ false → lt b a ≡ false → a ≡ b
  pub eq_sound : (a b : K) → eq a b ≡ true → a ≡ b

pub nat_key : IsKeyOrder nat_eq ltb
nat_key = record {
  weak = record { asym = λ a b h. ground arith; le_trans = λ a b c h k. ground arith };
  eq_self = λ a. ground arith;
  tie = λ a b h k. ground arith;
  eq_sound = λ a b h. ground arith;
}

-- The order that `sort` uses for a descending key: `a > b`.
pub int_desc_key : IsKeyOrder int_eq (λ a b. int_ltb b a)
int_desc_key = record {
  weak = record { asym = asym; le_trans = trans };
  eq_self = eq_self;
  tie = tie;
  eq_sound = eq_sound;
}
  where
    asym : (a b : ℤ) → int_ltb b a ≡ true → int_ltb a b ≡ false
    asym (pos a) (pos b) h = ground arith
    asym (pos a) (negsuc b) h = ground arith
    asym (negsuc a) (pos b) h = ground arith
    asym (negsuc a) (negsuc b) h = ground arith

    trans : (a b c : ℤ) → int_ltb a b ≡ false → int_ltb b c ≡ false → int_ltb a c ≡ false
    trans (pos a) (pos b) (pos c) h k = ground arith
    trans (pos a) (pos b) (negsuc c) h k = ground arith
    trans (pos a) (negsuc b) (pos c) h k = ground arith
    trans (pos a) (negsuc b) (negsuc c) h k = ground arith
    trans (negsuc a) (pos b) (pos c) h k = ground arith
    trans (negsuc a) (pos b) (negsuc c) h k = ground arith
    trans (negsuc a) (negsuc b) (pos c) h k = ground arith
    trans (negsuc a) (negsuc b) (negsuc c) h k = ground arith

    eq_self : (a : ℤ) → int_eq a a ≡ true
    eq_self (pos a) = ground arith
    eq_self (negsuc a) = ground arith

    tie : (a b : ℤ) → int_ltb b a ≡ false → int_ltb a b ≡ false → a ≡ b
    tie (pos a) (pos b) h k = ground arith
    tie (pos a) (negsuc b) h k = ground arith
    tie (negsuc a) (pos b) h k = ground arith
    tie (negsuc a) (negsuc b) h k = ground arith

    eq_sound : (a b : ℤ) → int_eq a b ≡ true → a ≡ b
    eq_sound (pos a) (pos b) h = ground arith
    eq_sound (pos a) (negsuc b) h = ground arith
    eq_sound (negsuc a) (pos b) h = ground arith
    eq_sound (negsuc a) (negsuc b) h = ground arith

text_asym : (s t : String) → text_lt s t ≡ true → text_lt t s ≡ false
text_asym String.[] String.[] h = refl
text_asym String.[] (String.◌∷◌ d t) h = ground (arith, compare.cons-nil d t)
text_asym (String.◌∷◌ c s) String.[] h = ground (arith, compare.cons-nil c s)
text_asym (String.◌∷◌ c s) (String.◌∷◌ d t) h =
    ground (arith, compare.cons-cons c d s t, compare.cons-cons d c t s, text_asym s t)

text_trans : (s t u : String) → text_lt t s ≡ false → text_lt u t ≡ false → text_lt u s ≡ false
text_trans String.[] t String.[] h k = refl
text_trans String.[] t (String.◌∷◌ e u) h k = ground (arith, compare.cons-nil e u)
text_trans (String.◌∷◌ c s) String.[] u h k = ground (arith, compare.nil-cons c s)
text_trans (String.◌∷◌ c s) (String.◌∷◌ d t) String.[] h k = ground (arith, compare.nil-cons d t)
text_trans (String.◌∷◌ c s) (String.◌∷◌ d t) (String.◌∷◌ e u) h k = ground (
  arith,
  compare.cons-cons d c t s,
  compare.cons-cons e d u t,
  compare.cons-cons e c u s,
  text_trans s t u,
)

compare-eq_of_tie :
    (s t : String) → text_lt s t ≡ false → text_lt t s ≡ false → compare s t ≡ Ordering.eq
compare-eq_of_tie String.[] String.[] h k = refl
compare-eq_of_tie String.[] (String.◌∷◌ d t) h k = ground (arith, compare.nil-cons d t)
compare-eq_of_tie (String.◌∷◌ c s) String.[] h k = ground (arith, compare.nil-cons c s)
compare-eq_of_tie (String.◌∷◌ c s) (String.◌∷◌ d t) h k =
    ground (arith, compare.cons-cons c d s t, compare.cons-cons d c t s, compare-eq_of_tie s t)

text_tie : (s t : String) → text_lt s t ≡ false → text_lt t s ≡ false → s ≡ t
text_tie s t h k = path_by_compare s t (compare-eq_of_tie s t h k)

-- Go's order of strings
pub text_key : IsKeyOrder ◌==◌ text_lt
text_key = record {
  weak = record { asym = text_asym; le_trans = text_trans };
  eq_self = λ a. (eq_iff a a).1 refl;
  tie = text_tie;
  eq_sound = λ a b. (eq_iff a b).0;
}

module _ {ℓ κ} {A : Type ℓ} {K : Type κ} {eq lt : K → K → Bool} (key : IsKeyOrder eq lt)
    (k : A → K) where
  open key use {weak, eq_self, tie, eq_sound}

  -- `return k(a) < k(b)`
  pub IsWeakOrder-by_key : IsWeakOrder (λ (a b : A). lt (k a) (k b))
  IsWeakOrder-by_key = record {
    asym = λ a b. weak.asym (k a) (k b);
    le_trans = λ a b c. weak.le_trans (k a) (k b) (k c);
  }

  -- `if k(a) != k(b) { return k(a) < k(b) }`, and then the rest of the comparison
  abbrev pub first_by : (A → A → Bool) → A → A → Bool
  first_by rest a b = if eq (k a) (k b) then rest a b else lt (k a) (k b)

  pub IsWeakOrder-first_by : (rest : A → A → Bool) → IsWeakOrder rest → IsWeakOrder (first_by rest)
  IsWeakOrder-first_by rest w = record { asym = asym; le_trans = trans }
    where
      asym : (a b : A) → first_by rest a b ≡ true → first_by rest b a ≡ false
      asym a b h = ground (
        arith,
        w.asym a b,
        weak.asym (k a) (k b),
        eq_self (k a),
        eq_sound (k a) (k b),
        eq_sound (k b) (k a),
      )

      trans :
          (a b c : A)
          → first_by rest b a ≡ false
          → first_by rest c b ≡ false
          → first_by rest c a ≡ false
      trans a b c h h' = ground (
        arith,
        w.le_trans a b c,
        weak.le_trans (k a) (k b) (k c),
        eq_self (k a),
        eq_self (k b),
        eq_sound (k b) (k a),
        eq_sound (k c) (k b),
        eq_sound (k c) (k a),
        tie (k a) (k b),
        tie (k b) (k c),
      )
