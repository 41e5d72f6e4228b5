-- ===== src/Rules/Correlate/Roots.antt =====
-- What a root cause of the correlation is: where it comes from, when it is confirmed, and that its
-- impacts lie on walks of the dependency graph.
use k8s_diagnose.Prelude.{
  String, false, not, List, [], ◌∷◌, ◌++◌, ◌≡◌, ◌≢◌, inl, inr, Memᴰ, arith, refl, ◌==◌, eq_iff, All,
  All-concat, keep, Bool-cases, nat_eq, nat_eq_iff, ◌||◌, if◌then◌else◌, contains, suc, length,
}
use k8s_diagnose.Model.Types.{Finding, RootCause, Impact}
use k8s_diagnose.Rules.Graph.{Graph, GraphPath}
use k8s_diagnose.Rules.Graph.Walk.{Walk, Walk-length}
use k8s_diagnose.Rules.Graph.Correct.{descendants_sound}
use k8s_diagnose.Rules.RootCause.{append_log_evidence, is_log}
use k8s_diagnose.Rules.Correlate.{
  Collected, root_candidates, required_key, add_logs, add_values, impact_message, degrading,
  impact_of, add_path, add_paths, collect, build_root, correlate_from, claims,
}

module _ (digest : String → String) (degraded : String → String) (g : Graph)
    (findings : List Finding) where
  -- A root was built from one of the candidates.
  abbrev pub FromCandidate : RootCause → Type 0
  FromCandidate r =
      (f : Finding) × Memᴰ f (root_candidates findings)
      × (r ≡ build_root digest degraded g findings f)

  pub correlate_from-FromCandidate :
      (claimed : List String) (roots : List RootCause) (causes : List Finding)
      → All FromCandidate roots
      → All (λ f. Memᴰ f (root_candidates findings)) causes
      → All FromCandidate (correlate_from digest degraded g findings claimed roots causes)
  unfolding correlate_from
  correlate_from-FromCandidate claimed roots [] rs fs = rs
  correlate_from-FromCandidate claimed roots (f ∷ causes) rs (m, fs) =
      elim (Bool-cases (contains claimed f.id)) [
        | inl old ↦ rw old (correlate_from-FromCandidate claimed roots causes rs fs)
        | inr new ↦ rw new (
            correlate_from-FromCandidate
              (keep (claims digest degraded g findings (build_root digest degraded g findings f))
                  (build_root digest degraded g findings f).related_finding_ids
                ++ claimed)
              (roots ++ build_root digest degraded g findings f ∷ []) causes
              (All-concat FromCandidate roots rs (f, m, refl)) fs)
      ]

  -- An impact lies at the end of a walk of as many steps as its depth, and has a message.
  abbrev pub IsImpactOf : Finding → Impact → Type 0
  IsImpactOf cause i =
      Walk g (required_key cause) cause.resource i.resource i.path i.path_relations
      × (length i.path ≡ suc i.depth)
      × (i.message ≢ "")

  abbrev pub HasImpacts : Finding → Collected → Type 0
  HasImpacts cause c =
      All (λ i. IsImpactOf cause i × (i.depth ≡ 1)) c.direct
      × All (λ i. IsImpactOf cause i × (i.depth ≢ 1)) c.propagated

  impact_of-IsImpactOf :
      (cause : Finding) (p : GraphPath)
      → Walk g (required_key cause) cause.resource p.resource p.path p.relations
      → (impact_message degraded findings p.resource == "") ≡ false
      → IsImpactOf cause (impact_of degraded findings p)
  unfolding impact_of
  impact_of-IsImpactOf cause p w told = (
    w,
    omega (arith, Walk-length w),
    ground (arith, eq_iff (impact_message degraded findings p.resource) ""),
  )

  add_logs-impacts :
      (cause : Finding) (fs : List Finding) (c : Collected)
      → ((add_logs cause fs c).direct ≡ c.direct)
        × ((add_logs cause fs c).propagated ≡ c.propagated)
  unfolding add_logs
  add_logs-impacts cause [] c = (refl, refl)
  add_logs-impacts cause (f ∷ fs) c =
      let next : Collected =
        (if f.id == cause.id || not (is_log f) then c else record c {
          related = c.related ++ f.id ∷ [];
          evidence = append_log_evidence c.evidence f;
        }) in
      ground (arith, add_logs-impacts cause fs next)

  add_values-impacts :
      (fs : List Finding) (c : Collected)
      → ((add_values fs c).direct ≡ c.direct) × ((add_values fs c).propagated ≡ c.propagated)
  unfolding add_values
  add_values-impacts [] c = (refl, refl)
  add_values-impacts (f ∷ fs) c = add_values-impacts fs (record c {
    related = c.related ++ f.id ∷ [];
    evidence = if is_log f then append_log_evidence c.evidence f else c.evidence;
  })

  add_path-HasImpacts :
      (cause : Finding) (p : GraphPath) (c : Collected)
      → Walk g (required_key cause) cause.resource p.resource p.path p.relations
      → HasImpacts cause c
      → HasImpacts cause (add_path degraded findings p c)
  unfolding add_path
  add_path-HasImpacts cause p c w (d, q) =
      let vs = degrading degraded findings p.resource in
      let (same_d, same_q) = add_values-impacts vs c in
      let i = impact_of degraded findings p in
      elim (Bool-cases (impact_message degraded findings p.resource == "")) [
        | inl blank ↦ rw blank (d, q)
        | inr told ↦
            let here : IsImpactOf cause i = impact_of-IsImpactOf cause p w told in
            let d' : All (λ j. IsImpactOf cause j × (j.depth ≡ 1)) (add_values vs c).direct =
              rw same_d d in
            let q' : All (λ j. IsImpactOf cause j × (j.depth ≢ 1)) (add_values vs c).propagated =
              rw same_q q in
            elim (Bool-cases (nat_eq i.depth 1)) [
              | inl one ↦
                  rw (told, one)
                    (All-concat _ (add_values vs c).direct d' (here, (nat_eq_iff _ _).0 one), q')
              | inr more ↦
                  rw (told, more)
                    (d', All-concat _ (add_values vs c).propagated q' (here, ground arith))
            ]
      ]

  add_paths-HasImpacts :
      (cause : Finding) (ps : List GraphPath) (c : Collected)
      → All (λ p. Walk g (required_key cause) cause.resource p.resource p.path p.relations) ps
      → HasImpacts cause c
      → HasImpacts cause (add_paths degraded findings ps c)
  unfolding add_paths
  add_paths-HasImpacts cause [] c ws h = h
  add_paths-HasImpacts cause (p ∷ ps) c (w, ws) h =
      add_paths-HasImpacts cause ps (add_path degraded findings p c) ws
        (add_path-HasImpacts cause p c w h)

  pub collect-HasImpacts :
      (cause : Finding) → HasImpacts cause (collect digest degraded g findings cause)
  unfolding collect
  collect-HasImpacts cause =
      add_paths-HasImpacts cause _ _ (descendants_sound g cause.resource (required_key cause))
        (rw ((add_logs-impacts cause _ _).0, (add_logs-impacts cause _ _).1) (tt, tt))
