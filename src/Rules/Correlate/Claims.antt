-- ===== src/Rules/Correlate/Claims.antt =====
-- No issue is lost: what the correlation skips is taken over by another root cause.
use k8s_diagnose.Prelude.{
  String, Bool, true, false, some, List, [], ◌∷◌, ◌++◌, ◌≡◌, ◌⊎◌, inl, inr, Memᴰ, arith, refl, ◌==◌,
  ◌&&◌, ◌||◌, eq_iff, eq_refl, any, any_iff, any-append, contains, contains-append, contains-keep,
  keep, Memᴰ-keep_of, Bool-cases,
}
use mathlib.Core.List.Memᴰ
use mathlib.Core.Logic.{⊎_elim}
use k8s_diagnose.Prelude.Sort.{Memᴰ-sort}
use k8s_diagnose.Model.Types.{issue, Finding, RootCause, State}
use k8s_diagnose.Model.RootCause.{new_root_cause}
use k8s_diagnose.Model.State.{set_root_causes}
use k8s_diagnose.Rules.Graph.{Graph}
use k8s_diagnose.Rules.RootCause.{is_log, symptom_code, root_eligible}
use k8s_diagnose.Rules.Correlate.{
  finding_by_id, is_candidate, root_candidates, candidate_less, build_root, claims, correlate_from,
  root_less, correlate,
}

module _ (digest : String → String) (degraded : String → String) (g : Graph)
    (findings : List Finding) where
  -- A root is about the finding, or takes it over.
  abbrev covers : RootCause → String → Bool
  covers r id =
      r.cause.id == id
      || (claims digest degraded g findings r id && contains r.related_finding_ids id)

  covered : List RootCause → String → Bool
  covered roots id = any (λ r. covers r id) roots

  build_root-covers :
      (cause : Finding) → covers (build_root digest degraded g findings cause) cause.id ≡ true
  unfolding build_root new_root_cause
  build_root-covers cause = ground (arith, eq_refl cause.id)

  correlate_from-keeps :
      (claimed : List String) (roots : List RootCause) (causes : List Finding) (id : String)
      → covered roots id ≡ true
      → covered (correlate_from digest degraded g findings claimed roots causes) id ≡ true
  unfolding correlate_from covered
  correlate_from-keeps claimed roots [] id h = h
  correlate_from-keeps claimed roots (c ∷ causes) id h =
      let root = build_root digest degraded g findings c in
      ground (
        arith,
        correlate_from-keeps claimed roots causes id h,
        correlate_from-keeps
            (keep (claims digest degraded g findings root) root.related_finding_ids ++ claimed)
            (roots ++ root ∷ []) causes id,
        any-append (λ (r : RootCause). covers r id) roots (root ∷ []),
      )

  claimed-covered :
      (claimed : List String) (roots : List RootCause) (root : RootCause)
      → ((id : String) → contains claimed id ≡ true → covered roots id ≡ true)
      → (id : String)
      → contains
          (keep (claims digest degraded g findings root) root.related_finding_ids ++ claimed)
          id
        ≡ true
      → covered (roots ++ root ∷ []) id ≡ true
  unfolding covered
  claimed-covered claimed roots root h id m =
      let mine = claims digest degraded g findings root in
      ground (
        arith,
        h id,
        contains-append id (keep mine root.related_finding_ids) claimed,
        contains-keep mine id root.related_finding_ids,
        any-append (λ (r : RootCause). covers r id) roots (root ∷ []),
      )

  last-covered :
      (roots : List RootCause) (cause : Finding)
      → covered (roots ++ build_root digest degraded g findings cause ∷ []) cause.id ≡ true
  unfolding covered
  last-covered roots cause = ground (
    arith,
    build_root-covers cause,
    any-append (λ (r : RootCause). covers r cause.id) roots
        (build_root digest degraded g findings cause ∷ []),
  )

  correlate_from-covered :
      (claimed : List String) (roots : List RootCause) (causes : List Finding)
      → ((id : String) → contains claimed id ≡ true → covered roots id ≡ true)
      → (f : Finding) → Memᴰ f causes
      → covered (correlate_from digest degraded g findings claimed roots causes) f.id ≡ true
  unfolding correlate_from
  correlate_from-covered claimed roots [] h f m = absurd (Memᴰ.not-nil m)
  correlate_from-covered claimed roots (c ∷ causes) h f m =
      let root = build_root digest degraded g findings c in
      let claimed' =
        keep (claims digest degraded g findings root) root.related_finding_ids ++ claimed in
      elim (Bool-cases (contains claimed c.id)) [
        | inl old ↦ rw old (
            ⊎_elim (λ same. correlate_from-keeps claimed roots causes f.id (h f.id (rw same old)))
              (correlate_from-covered claimed roots causes h f) (Memᴰ.cases_cons m))
        | inr fresh ↦ rw fresh (
            ⊎_elim
              (λ same.
                correlate_from-keeps claimed' (roots ++ root ∷ []) causes f.id
                  (rw same (last-covered roots c)))
              (correlate_from-covered claimed' (roots ++ root ∷ []) causes
                (claimed-covered claimed roots root h) f)
              (Memᴰ.cases_cons m))
      ]

issue-candidate :
    (findings : List Finding) (f : Finding)
    → f.severity ≡ issue
    → is_log f ≡ false
    → is_candidate findings f ≡ true
unfolding is_candidate root_eligible
issue-candidate findings f i l = rw (i, l) refl

covers_sound :
    (digest : String → String) (degraded : String → String) (g : Graph) (findings : List Finding)
    (r : RootCause) (f : Finding)
    → finding_by_id findings f.id ≡ some f
    → covers digest degraded g findings r f.id ≡ true
    → (r.cause.id ≡ f.id)
      ⊎ ((r.confirmed ≡ true)
          × (symptom_code f.code ≡ true)
          × (contains r.related_finding_ids f.id ≡ true))
unfolding claims
covers_sound digest degraded g findings r f found c =
    ground (arith, eq_iff r.cause.id f.id, eq_iff f.id r.cause.id)

-- Each issue of a state that is not a log signature, and that is found by its ID, has a root cause
-- after `Correlate`: one whose cause has its ID, or a confirmed one that lists it as related and of
-- which it is a symptom.
pub correlate-covers :
    (digest : String → String) (degraded : String → String) (g : Graph) (s : State) (f : Finding)
    → Memᴰ f s.findings
    → f.severity ≡ issue
    → is_log f ≡ false
    → finding_by_id s.findings f.id ≡ some f
    → (r : RootCause) × Memᴰ r (correlate digest degraded g s).root_causes
      × ((r.cause.id ≡ f.id)
          ⊎ ((r.confirmed ≡ true)
              × (symptom_code f.code ≡ true)
              × (contains r.related_finding_ids f.id ≡ true)))
unfolding correlate set_root_causes root_candidates covered
correlate-covers digest degraded g s f m i l found =
    let candidate =
      (Memᴰ-sort candidate_less f _).1 (
        Memᴰ-keep_of (is_candidate s.findings) f s.findings m (issue-candidate s.findings f i l)) in
    let (r, listed, c) =
      (any_iff (λ (r : RootCause). covers digest degraded g s.findings r f.id) _).0 (
        correlate_from-covered digest degraded g s.findings [] [] (root_candidates s.findings)
          (λ id h. cc) f candidate) in
    (r, (Memᴰ-sort root_less r _).1 listed, covers_sound digest degraded g s.findings r f found c)
