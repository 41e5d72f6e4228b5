-- ===== src/Rules/Registry/Records.antt =====
-- A run records every finding of the rules whose input is complete.
use k8s_diagnose.Prelude.{
  String, Bool, true, false, not, List, [], ◌∷◌, ◌++◌, ◌≡◌, ◌≤◌, inl, inr, refl, arith,
  if◌then◌else◌, ◌==◌, ◌||◌, eq_refl, contains, contains-append, any, count_if, count_if-pos,
  is_empty, Bool-cases, Memᴰ, ap, ◌∙◌, subst,
}
use mathlib.Core.List.Memᴰ
use k8s_diagnose.Model.Types.{Finding, State}
use k8s_diagnose.Model.State.{add, add_check, sort_findings, finding_key}
use k8s_diagnose.Model.State.Invariant.{IsValid, sort_findings-IsValid}
use k8s_diagnose.Kube.Types.{Snapshot}
use k8s_diagnose.Kube.Commands.{Config}
use k8s_diagnose.Rules.Registry.Valid.{record_pods-IsValid, run_rules-IsValid}
use k8s_diagnose.Rules.Registry.{
  Metadata, Rule, tagged, enabled, missing, status, record_pods, run_optional, add_findings,
  run_rule, run_rules, run, unavailable_finding, partial_finding,
}

module _ (digest : String → String) where
  contains-any : (k : String) (xs : List String) → any (λ j. j == k) xs ≡ contains xs k
  contains-any k [] = refl
  contains-any k (x ∷ xs) = ap (λ b. (x == k) || b) (contains-any k xs)

  once-known :
      (k : String) (xs : List String)
      → contains xs k ≡ true
      → count_if (λ j. j == k) xs ≤ 1
      → count_if (λ j. j == k) xs ≡ 1
  once-known k xs h once =
      omega (arith, (count_if-pos (λ j. j == k) xs).1 (contains-any k xs ∙ h), once)

  contains-snoc :
      (k j : String) (seen : List String)
      → contains seen k ≡ true
      → contains (seen ++ j ∷ []) k ≡ true
  contains-snoc k j seen h = ground (arith, contains-append k seen (j ∷ []))

  add-seen :
      (k : String) (s : State) (f : Finding)
      → contains s.seen k ≡ true
      → contains (add digest s f).seen k ≡ true
  unfolding add
  add-seen k s f h = elim (Bool-cases (contains s.seen (finding_key digest f))) [
    | inl old ↦ rw old h
    | inr new ↦ rw new (contains-snoc k _ s.seen h)
  ]

  add-seen_own :
      (s : State) (f : Finding) → contains (add digest s f).seen (finding_key digest f) ≡ true
  unfolding add
  add-seen_own s f = elim (Bool-cases (contains s.seen (finding_key digest f))) [
    | inl old ↦ rw old old
    | inr new ↦ rw new (
        ground (
          arith,
          contains-append (finding_key digest f) s.seen (finding_key digest f ∷ []),
          eq_refl (finding_key digest f),
        ))
  ]

  if-seen :
      (k : String) (b : Bool) (s t : State)
      → contains s.seen k ≡ true
      → contains t.seen k ≡ true
      → contains (if b then s else t).seen k ≡ true
  if-seen k true s t h h' = h
  if-seen k false s t h h' = h'

  run_optional-seen :
      (k : String) (snapshot : Snapshot) (m : Metadata) (keys : List String) (s : State)
      → contains s.seen k ≡ true
      → contains (run_optional digest snapshot m keys s).seen k ≡ true
  unfolding run_optional add_check
  run_optional-seen k snapshot m [] s h = h
  run_optional-seen k snapshot m (key ∷ keys) s h = run_optional-seen k snapshot m keys _ (
      if-seen k (status snapshot key).available _ _ h
        (add-seen k _ (partial_finding digest m key (status snapshot key).reason) h))

  add_findings-seen :
      (k id : String) (fs : List Finding) (s : State)
      → contains s.seen k ≡ true
      → contains (add_findings digest id fs s).seen k ≡ true
  unfolding add_findings
  add_findings-seen k id [] s h = h
  add_findings-seen k id (f ∷ fs) s h = add_findings-seen k id fs _ (add-seen k s (tagged id f) h)

  add_findings-seen_own :
      (f : Finding) (id : String) (fs : List Finding) (s : State)
      → Memᴰ f fs
      → contains (add_findings digest id fs s).seen (finding_key digest (tagged id f)) ≡ true
  unfolding add_findings
  add_findings-seen_own f id [] s m = absurd (Memᴰ.not-nil m)
  add_findings-seen_own f id (g ∷ fs) s (Memᴰ.head e) =
      add_findings-seen _ id fs _ (rw e (add-seen_own s (tagged id g)))
  add_findings-seen_own f id (g ∷ fs) s (Memᴰ.tail m) = add_findings-seen_own f id fs _ m

  -- Where the input of a rule that the mode enables is complete, its run leaves each of its findings
  -- in the set of the known.
  run_rule-seen_own :
      (snapshot : Snapshot) (cfg : Config) (r : Rule) (f : Finding) (s : State)
      → enabled r.metadata cfg.mode ≡ true
      → is_empty (missing snapshot r.metadata.required) ≡ true
      → Memᴰ f (r.evaluate snapshot cfg)
      → contains
          (run_rule digest snapshot cfg r s).seen
          (finding_key digest (tagged r.metadata.id f))
        ≡ true
  unfolding run_rule
  run_rule-seen_own snapshot cfg r f s on full m =
      rw on (rw full (add_findings-seen_own f r.metadata.id (r.evaluate snapshot cfg) _ m))

  run_rule-seen :
      (k : String) (snapshot : Snapshot) (cfg : Config) (r : Rule) (s : State)
      → contains s.seen k ≡ true
      → contains (run_rule digest snapshot cfg r s).seen k ≡ true
  unfolding run_rule add_check
  run_rule-seen k snapshot cfg r s h =
      if-seen k (enabled r.metadata cfg.mode) _ _
        (if-seen k (is_empty (missing snapshot r.metadata.required)) _ _
          (add_findings-seen k r.metadata.id (r.evaluate snapshot cfg) _ (
            run_optional-seen k snapshot r.metadata r.metadata.optional _ (
              if-seen k (not (is_empty r.metadata.required) || is_empty r.metadata.optional) _ _ h
                h)))
          (add-seen k _ (unavailable_finding digest snapshot r.metadata _ _) h))
        h

  run_rules-seen :
      (k : String) (snapshot : Snapshot) (cfg : Config) (rs : List Rule) (s : State)
      → contains s.seen k ≡ true
      → contains (run_rules digest snapshot cfg rs s).seen k ≡ true
  unfolding run_rules
  run_rules-seen k snapshot cfg [] s h = h
  run_rules-seen k snapshot cfg (r ∷ rs) s h =
      run_rules-seen k snapshot cfg rs _ (run_rule-seen k snapshot cfg r s h)

  run_rules-seen_own :
      (snapshot : Snapshot) (cfg : Config) (r : Rule) (f : Finding) (rs : List Rule) (s : State)
      → Memᴰ r rs
      → enabled r.metadata cfg.mode ≡ true
      → is_empty (missing snapshot r.metadata.required) ≡ true
      → Memᴰ f (r.evaluate snapshot cfg)
      → contains
          (run_rules digest snapshot cfg rs s).seen
          (finding_key digest (tagged r.metadata.id f))
        ≡ true
  unfolding run_rules
  run_rules-seen_own snapshot cfg r f [] s m on full i = absurd (Memᴰ.not-nil m)
  run_rules-seen_own snapshot cfg r f (q ∷ rs) s (Memᴰ.head e) on full i =
      run_rules-seen _ snapshot cfg rs _ (
        subst
          (λ p.
            contains (run_rule digest snapshot cfg p s).seen
              (finding_key digest (tagged r.metadata.id f))
            ≡ true)
          e (run_rule-seen_own snapshot cfg r f s on full i))
  run_rules-seen_own snapshot cfg r f (q ∷ rs) s (Memᴰ.tail m) on full i =
      run_rules-seen_own snapshot cfg r f rs _ m on full i

  -- Running on a valid state, each finding of each rule that the mode enables and whose required
  -- inputs are available stands in the result exactly once, by its key: nothing that a rule finds
  -- is lost on the way.
  pub run-records :
      (rules : List Rule) (snapshot : Snapshot) (cfg : Config) (s : State) (r : Rule) (f : Finding)
      → IsValid digest s
      → Memᴰ r rules
      → enabled r.metadata cfg.mode ≡ true
      → is_empty (missing snapshot r.metadata.required) ≡ true
      → Memᴰ f (r.evaluate snapshot cfg)
      → count_if
          (λ g. finding_key digest g == finding_key digest (tagged r.metadata.id f))
          (run digest rules snapshot cfg s).findings
        ≡ 1
  unfolding run sort_findings
  run-records rules snapshot cfg s r f v m on full i =
      let key = finding_key digest (tagged r.metadata.id f) in
      let w =
        run_rules-IsValid digest snapshot cfg rules (record_pods snapshot.pods s)
          (record_pods-IsValid digest snapshot.pods s v) in
      let u = sort_findings-IsValid digest w in
      let known =
        run_rules-seen_own snapshot cfg r f rules (record_pods snapshot.pods s) m on full i in
      u.listed key ∙ once-known key _ known (w.seen_once key)
