-- ===== src/History/Restarts/Growing.antt =====
-- What reported growth is, and that every container that grows so is reported.
use k8s_diagnose.Prelude.{
  String, true, false, List, [], ◌∷◌, ◌≡◌, ◌≤◌, ◌↔◌, refl, sym, inl, inr, arith, ℤ, int_leb, length,
  map, Memᴰ, All, All-append, Bool-cases, last_or, ℕ, ◌+◌, if◌then◌else◌, int_add, int_neg,
}
use mathlib.Core.List.Memᴰ
use k8s_diagnose.Report.Json.{Json}
use k8s_diagnose.Report.Findings.{Objects}
use k8s_diagnose.History.Flaps.{Trend}
use k8s_diagnose.History.Restarts.{
  records_of, restart_count, increases_from, is_decreasing_from, growth_of, is_growing,
  restart_trend, growth_trends, restarts,
}

-- No count is below the one before it.
abbrev pub IsRising : ℤ → List ℤ → Type 0
IsRising a [] = Unit
IsRising a (b ∷ bs) = (int_leb a b ≡ true) × IsRising b bs

is_decreasing_from_iff : (a : ℤ) (bs : List ℤ) → (is_decreasing_from a bs ≡ false) ↔ IsRising a bs
unfolding is_decreasing_from
is_decreasing_from_iff a [] = ground arith
is_decreasing_from_iff a (b ∷ bs) = ground (arith, is_decreasing_from_iff b bs)

-- How often a count is above the one before it.
abbrev pub rises : ℤ → List ℤ → ℕ
rises a [] = 0
rises a (b ∷ bs) = (if int_leb b a then 0 else 1) + rises b bs

increases_from-rises : (a : ℤ) (bs : List ℤ) → increases_from a bs ≡ rises a bs
unfolding increases_from
increases_from-rises a [] = refl
increases_from-rises a (b ∷ bs) = ground (arith, increases_from-rises b bs)

-- The last count less the first one reaches the threshold.
abbrev pub HasGained : ℤ → ℤ → List ℤ → Type 0
HasGained threshold a bs = int_leb threshold (int_add (last_or a bs) (int_neg a)) ≡ true

-- What growth is: the records of a container, at least three, whose counts never fall, rise at
-- least twice, and gain the threshold or more.
abbrev pub IsGrowth : ℤ → List Objects → Trend → Type 0
IsGrowth threshold samples t =
    (key : String) × (r : Json) × (rs : List Json) × (records_of key samples ≡ r ∷ rs)
    × (t ≡ restart_trend (last_or r rs) (restart_count r) (map restart_count rs))
    × (2 ≤ length rs)
    × IsRising (restart_count r) (map restart_count rs)
    × (2 ≤ rises (restart_count r) (map restart_count rs))
    × HasGained threshold (restart_count r) (map restart_count rs)

pub length-map : (f : Json → ℤ) (xs : List Json) → length (map f xs) ≡ length xs
length-map f [] = refl
length-map f (x ∷ xs) = omega (arith, length-map f xs)

is_growing-parts :
    (threshold a : ℤ) (bs : List ℤ)
    → is_growing threshold a bs ≡ true
    → (2 ≤ length bs) × IsRising a bs × (2 ≤ rises a bs) × HasGained threshold a bs
unfolding is_growing growth_of
is_growing-parts threshold a bs h =
    ground (arith, is_decreasing_from_iff a bs, increases_from-rises a bs)

pub is_growing-of_parts :
    (threshold a : ℤ) (bs : List ℤ)
    → 2 ≤ length bs
    → IsRising a bs
    → 2 ≤ rises a bs
    → HasGained threshold a bs
    → is_growing threshold a bs ≡ true
unfolding is_growing growth_of
is_growing-of_parts threshold a bs many rising twice gained =
    ground (
      arith,
      (is_decreasing_from_iff a bs).1 rising,
      increases_from-rises a bs,
      many,
      twice,
      gained,
    )

module _ (threshold : ℤ) (samples : List Objects) where
  growth_trends-IsGrowth :
      (key : String) (records : List Json)
      → records_of key samples ≡ records
      → All (IsGrowth threshold samples) (growth_trends threshold records)
  unfolding growth_trends
  growth_trends-IsGrowth key [] e = tt
  growth_trends-IsGrowth key (r ∷ rs) e =
      elim (Bool-cases (is_growing threshold (restart_count r) (map restart_count rs))) [
        | inr steady ↦ rw steady tt
        | inl grows ↦
            let (many, rising, twice, enough) =
              is_growing-parts threshold (restart_count r) (map restart_count rs) grows in
            rw grows (
              (
                key,
                r,
                rs,
                e,
                refl,
                omega (arith, many, length-map restart_count rs),
                rising,
                twice,
                enough,
              ),
              tt,
            )
      ]

  pub restarts-IsGrowth :
      (ks : List String) → All (IsGrowth threshold samples) (restarts threshold samples ks)
  unfolding restarts
  restarts-IsGrowth [] = tt
  restarts-IsGrowth (k ∷ ks) =
      All-append _ (growth_trends threshold (records_of k samples)) (restarts threshold samples ks)
        (growth_trends-IsGrowth k (records_of k samples) refl) (restarts-IsGrowth ks)

  growth_trends-reports :
      (r : Json) (rs : List Json)
      → is_growing threshold (restart_count r) (map restart_count rs) ≡ true
      → Memᴰ
          (restart_trend (last_or r rs) (restart_count r) (map restart_count rs))
          (growth_trends threshold (r ∷ rs))
  unfolding growth_trends
  growth_trends-reports r rs grows = rw grows (Memᴰ.head refl)

  pub restarts-reports :
      (ks : List String) (k : String) (r : Json) (rs : List Json)
      → Memᴰ k ks
      → records_of k samples ≡ r ∷ rs
      → is_growing threshold (restart_count r) (map restart_count rs) ≡ true
      → Memᴰ
          (restart_trend (last_or r rs) (restart_count r) (map restart_count rs))
          (restarts threshold samples ks)
  unfolding restarts
  restarts-reports [] k r rs m e grows = absurd (Memᴰ.not-nil m)
  restarts-reports (j ∷ ks) k r rs (Memᴰ.head h) e grows =
      rw (sym h, e) (Memᴰ.append_left _ (growth_trends-reports r rs grows))
  restarts-reports (j ∷ ks) k r rs (Memᴰ.tail m) e grows =
      Memᴰ.append_right (growth_trends threshold (records_of j samples))
        (restarts-reports ks k r rs m e grows)
