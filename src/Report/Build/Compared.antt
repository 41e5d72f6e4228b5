-- ===== src/Report/Build/Compared.antt =====
-- The report of a valid state, compared with itself.
use k8s_diagnose.Prelude.{
  ℕ, suc, String, Bool, false, List, [], ◌∷◌, ◌≡◌, ◌∙◌, ◌+◌, ◌≤◌, refl, ap, subst, inl, inr, arith,
  ◌==◌, eq_refl, length, count_if, map, All, Bool-cases, put,
}
use k8s_diagnose.Model.Types.{Finding, State}
use k8s_diagnose.Model.State.{finding_key}
use k8s_diagnose.Model.State.Invariant.{IsValid}
use k8s_diagnose.Redact.Masking.{Expression}
use k8s_diagnose.Report.Json.{Json, string_field, string, field}
use k8s_diagnose.Report.Findings.{Objects, keys, by_id_from, finding_map}
use k8s_diagnose.Report.Serialize.{serialize_finding}
use k8s_diagnose.Report.Build.{Config, build}
use k8s_diagnose.Report.Build.Counted.{build-objects}
use k8s_diagnose.Report.Compare.{compare}
use k8s_diagnose.Report.Compare.Same.{IsUnchanged, compare-same}

suc_not_zero : (n : ℕ) → suc n ≡ 0 → ⊥
suc_not_zero n h = omega (arith, h)

put-fresh :
    (k : String) (v : Json) (m : Objects)
    → count_if (λ j. j == k) (keys m) ≡ 0
    → (length (put k v m) ≡ suc (length m))
      × ((i : String)
          → count_if (λ j. j == i) (keys (put k v m)) ≡ count_if (λ j. j == i) (k ∷ keys m))
unfolding put
put-fresh k v [] h = (omega arith, λ i. refl)
put-fresh k v ((j, w) ∷ m) h = elim (Bool-cases (j == k)) [
  | inl same ↦ absurd (suc_not_zero _ (rw same at h))
  | inr other ↦
      let (n, c) = put-fresh k v m (rw other at h) in
      rw other (omega (arith, n), λ i. ground (arith, c i))
]

by_id_from-length :
    (vs : List Json) (m : Objects)
    → All (λ v. (string_field v "id" == "") ≡ false) vs
    → ((k : String)
        → count_if (λ v. string_field v "id" == k) vs + count_if (λ j. j == k) (keys m) ≤ 1)
    → length (by_id_from vs m) ≡ length vs + length m
unfolding by_id_from
by_id_from-length [] m h u = omega arith
by_id_from-length (v ∷ vs) m (p, h) u =
    let k = string_field v "id" in
    let (n, c) = put-fresh k v m (ground (arith, u k, eq_refl k)) in
    rw p (by_id_from-length vs (put k v m) h (λ i. ground (arith, u i, c i)) ∙ omega (arith, n))

module _ (replace : Expression → String → String → String) where
  serialized-named :
      (fs : List Finding)
      → All (λ f. (f.id == "") ≡ false) fs
      → All (λ v. (string_field v "id" == "") ≡ false) (map (serialize_finding replace) fs)
  unfolding serialize_finding string_field string field
  serialized-named [] h = tt
  serialized-named (f ∷ fs) (p, h) = (p, serialized-named fs h)

  serialized-count :
      (digest : String → String) (k : String) (fs : List Finding)
      → All (λ f. (f.id == "") ≡ false) fs
      → count_if (λ v. string_field v "id" == k) (map (serialize_finding replace) fs)
        ≡ count_if (λ f. finding_key digest f == k) fs
  unfolding serialize_finding string_field string field finding_key
  serialized-count digest k [] h = refl
  serialized-count digest k (f ∷ fs) (p, h) = rw p (ground (arith, serialized-count digest k fs h))

  serialized-length : (fs : List Finding) → length (map (serialize_finding replace) fs) ≡ length fs
  serialized-length [] = refl
  serialized-length (f ∷ fs) = omega (arith, serialized-length fs)

-- The report of a valid state whose findings all have IDs holds each of them under its own, and
-- `Compare` of that report with itself finds all of them unchanged, as many as the state has, and
-- nothing else.
pub build-IsUnchanged :
    (digest : String → String) (replace : Expression → String → String → String)
    (matches : Expression → String → Bool) (s : State) (cfg : Config)
    (context generated_at version : String)
    → IsValid digest s
    → All (λ f. (f.id == "") ≡ false) s.findings
    → IsUnchanged
        (compare
          (build replace matches s cfg context generated_at version)
          (build replace matches s cfg context generated_at version)).findings
        (length s.findings)
unfolding finding_map
build-IsUnchanged digest replace matches s cfg context generated_at version valid named =
    let report = build replace matches s cfg context generated_at version in
    let values = map (serialize_finding replace) s.findings in
    let total : length (finding_map report) ≡ length s.findings =
      ap (λ vs. length (by_id_from vs []))
        (build-objects replace matches s cfg context generated_at version).0
      ∙ by_id_from-length values [] (serialized-named replace s.findings named) (λ k. omega (
        arith,
        serialized-count replace digest k s.findings named,
        valid.listed k,
        valid.seen_once k,
      ))
      ∙ omega (arith, serialized-length replace s.findings) in
    subst (IsUnchanged (compare report report).findings) total (compare-same report).0
