-- ===== src/Rules/Correlate/Result.antt =====
-- The root causes that `Correlate` leaves in a state.
use k8s_diagnose.Prelude.{
  String, Bool, true, false, [], ◌≡◌, ◌≢◌, Memᴰ, arith, refl, All, All-Memᴰ, All-of_Memᴰ, Memᴰ-keep,
  ◌&&◌, if◌then◌else◌, pos, int_leb, int_eq, int_ltb, bool_eq, text_lt, ◌==◌, subst, ◌∙◌, ap,
  and_parts, not, ℤ, negsuc, ◌⊎◌, inl, inr,
}
use mathlib.Core.Path.{fun_ext}
use mathlib.Core.Logic.{⊎_elim}
use k8s_diagnose.Prelude.Order.{
  IsWeakOrder, IsKeyOrder, int_desc_key, text_key, IsWeakOrder-by_key, IsWeakOrder-first_by,
}
use k8s_diagnose.Prelude.Sort.{
  Memᴰ-sort, IsOrdered, IsOrdered-of_IsSorted, key-cases, sort-IsSorted,
}
use k8s_diagnose.Model.Types.{issue, Finding, RootCause, State}
use k8s_diagnose.Model.RootCause.{new_root_cause, is_confirmed, clamp_confidence}
use k8s_diagnose.Model.State.{set_root_causes}
use k8s_diagnose.Rules.Graph.{Graph}
use k8s_diagnose.Rules.RootCause.{
  is_log, symptom_code, strong_root_code, root_eligible, root_assessment,
}
use k8s_diagnose.Rules.RootCause.Confirmed.{root_assessment-confirms}
use k8s_diagnose.Rules.Correlate.{
  is_candidate, root_candidates, candidate_less, build_root, root_less, correlate,
}
use k8s_diagnose.Rules.Correlate.Roots.{
  FromCandidate, correlate_from-FromCandidate, IsImpactOf, collect-HasImpacts,
}

-- Confirmed roots come first.
confirmed_key : IsKeyOrder bool_eq (λ a b. a && not b)
confirmed_key = record {
  weak = record { asym = λ a b h. ground arith; le_trans = λ a b c h k. ground arith };
  eq_self = λ a. ground arith;
  tie = λ a b h k. ground arith;
  eq_sound = λ a b h. ground arith;
}

abbrev later_keys : RootCause → RootCause → Bool
later_keys a b =
    if int_eq a.confidence b.confidence
    then (if a.cause.resource == b.cause.resource
        then text_lt a.id b.id
        else text_lt a.cause.resource b.cause.resource)
    else int_ltb b.confidence a.confidence

root_less-keys :
    (a b : RootCause)
    → (if bool_eq a.confirmed b.confirmed then later_keys a b else a.confirmed && not b.confirmed)
      ≡ root_less a b
unfolding root_less
root_less-keys a b = ground arith

root_less-IsWeakOrder : IsWeakOrder root_less
root_less-IsWeakOrder = subst IsWeakOrder (fun_ext (λ a. fun_ext (λ b. root_less-keys a b))) (
    IsWeakOrder-first_by confirmed_key (λ r. r.confirmed) later_keys
      (IsWeakOrder-first_by int_desc_key (λ r. r.confidence) _
        (IsWeakOrder-first_by text_key (λ r. r.cause.resource) _
          (IsWeakOrder-by_key text_key (λ r. r.id)))))

-- The order of two root causes: confirmed ones first, then by falling confidence, then by the
-- resource of the cause, then by ID.
abbrev pub RootBefore : RootCause → RootCause → Type 0
RootBefore a b =
    ((a.confirmed ≡ true) × (b.confirmed ≡ false))
    ⊎ ((a.confirmed ≡ b.confirmed)
        × ((int_ltb b.confidence a.confidence ≡ true)
            ⊎ ((a.confidence ≡ b.confidence)
                × ((text_lt a.cause.resource b.cause.resource ≡ true)
                    ⊎ ((a.cause.resource ≡ b.cause.resource) × (text_lt b.id a.id ≡ false))))))

confirmed_first : (a b : Bool) → (a && not b) ≡ true → (a ≡ true) × (b ≡ false)
confirmed_first a b h = ground arith

root_less-RootBefore : (a b : RootCause) → root_less b a ≡ false → RootBefore a b
root_less-RootBefore a b h =
    ⊎_elim (λ first. inl (confirmed_first a.confirmed b.confirmed first))
      (λ (same, h1). inr (
        same,
        ⊎_elim inl
            (λ (equal, h2). inr (equal, key-cases text_key a.cause.resource b.cause.resource _ h2))
            (key-cases int_desc_key a.confidence b.confidence _ h1),
      ))
      (key-cases confirmed_key a.confirmed b.confirmed (later_keys b a) (root_less-keys b a ∙ h))

clamp-high : (c : ℤ) → int_leb (pos 90) (clamp_confidence c) ≡ true → int_leb (pos 90) c ≡ true
unfolding clamp_confidence
clamp-high (pos n) h = ground arith
clamp-high (negsuc n) h = h

module _ (digest : String → String) (degraded : String → String) (g : Graph) (s : State) where
  -- `Correlate` orders the root causes: each confirmed one before each other one, of these by falling
  -- confidence, of one confidence by the resource of the cause, and for one resource by ID.
  pub correlate-IsOrdered : IsOrdered RootBefore (correlate digest degraded g s).root_causes
  unfolding correlate set_root_causes
  correlate-IsOrdered =
      IsOrdered-of_IsSorted RootBefore root_less root_less-RootBefore _
        (sort-IsSorted root_less-IsWeakOrder _)

  built_from :
      (r : RootCause)
      → Memᴰ r (correlate digest degraded g s).root_causes
      → FromCandidate digest degraded g s.findings r
  unfolding correlate set_root_causes
  built_from r m =
      All-Memᴰ _ _
        (correlate_from-FromCandidate digest degraded g s.findings [] []
          (root_candidates s.findings) tt (All-of_Memᴰ _ _ (λ f i. i)))
        ((Memᴰ-sort root_less r _).0 m)

  candidate_eligible :
      (f : Finding)
      → Memᴰ f (root_candidates s.findings)
      → Memᴰ f s.findings × (root_eligible f ≡ true)
  unfolding root_candidates is_candidate
  candidate_eligible f m =
      let (listed, passes) =
        Memᴰ-keep (is_candidate s.findings) f s.findings ((Memᴰ-sort candidate_less f _).0 m) in
      (listed, (and_parts _ _ passes).0)

  build_root-cause : (f : Finding) → (build_root digest degraded g s.findings f).cause ≡ f
  unfolding build_root new_root_cause
  build_root-cause f = refl

  build_root-confirmed :
      (f : Finding)
      → (build_root digest degraded g s.findings f).confirmed ≡ true
      → (f.severity ≡ issue) × (int_leb (pos 90) (root_assessment f).0 ≡ true)
  unfolding build_root new_root_cause is_confirmed
  build_root-confirmed f h = ground (arith, clamp-high (root_assessment f).0)

  -- Each root cause of `Correlate` has a finding of the state as its cause, one that may be a root;
  -- and each of its impacts has a message and lies at the end of a walk of the dependency graph from
  -- the cause's resource that the cause's key allows: of one step for the direct ones, of as many
  -- steps as their depth, which is not 1, for the others.
  pub correlate-roots :
      (r : RootCause)
      → Memᴰ r (correlate digest degraded g s).root_causes
      → Memᴰ r.cause s.findings
        × (root_eligible r.cause ≡ true)
        × All
            (λ i. IsImpactOf digest degraded g s.findings r.cause i × (i.depth ≡ 1))
            r.direct_impacts
        × All
            (λ i. IsImpactOf digest degraded g s.findings r.cause i × (i.depth ≢ 1))
            r.propagated_impacts
  unfolding build_root new_root_cause
  correlate-roots r m =
      let (f, candidate, e) = built_from r m in
      let (listed, eligible) = candidate_eligible f candidate in
      let (direct, propagated) = collect-HasImpacts digest degraded g s.findings f in
      rw e (listed, eligible, direct, propagated)

  -- A root cause of `Correlate` is confirmed only if its cause is an issue with a confidence of 90
  -- or more whose code shows a cause directly and is neither a symptom nor a log signature.
  pub correlate-confirmed :
      (r : RootCause)
      → Memᴰ r (correlate digest degraded g s).root_causes
      → r.confirmed ≡ true
      → (r.cause.severity ≡ issue)
        × (int_leb (pos 90) r.cause.confidence ≡ true)
        × (strong_root_code r.cause.code ≡ true)
        × (symptom_code r.cause.code ≡ false)
        × (is_log r.cause ≡ false)
  correlate-confirmed r m confirmed =
      let (f, candidate, e) = built_from r m in
      let (is_issue, high) = build_root-confirmed f (rw e at confirmed) in
      let (strong, symptom, log, sure) = root_assessment-confirms f high in
      let same : r.cause ≡ f = ap (λ (x : RootCause). x.cause) e ∙ build_root-cause f in
      rw same (is_issue, sure, strong, symptom, log)
