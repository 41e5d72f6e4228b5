-- ===== src/Rules/Registry/Valid.antt =====
-- A run keeps a state valid, and a rule without its input is not evaluated.
use k8s_diagnose.Prelude.{
  String, Bool, true, false, not, List, [], ◌∷◌, ◌≡◌, inl, inr, refl, if◌then◌else◌, ◌||◌, is_empty,
  Bool-cases, Memᴰ, Memᴰ-keep_of,
}
use mathlib.Core.List.Memᴰ
use k8s_diagnose.Model.Types.{Finding, Check, State}
use k8s_diagnose.Model.State.{add_check}
use k8s_diagnose.Model.State.Invariant.{
  IsValid, add-IsValid, add_check-IsValid, observe-IsValid, sort_findings-IsValid,
}
use k8s_diagnose.Kube.Types.{ContainerStatus, Pod, Snapshot}
use k8s_diagnose.Kube.Commands.{Config}
use k8s_diagnose.Rules.Registry.{
  Metadata, Rule, tagged, enabled, missing, status, record_container, record_containers,
  record_pods, run_optional, add_findings, run_rule, run_rules, run, unavailable_finding,
}

module _ (digest : String → String) where
  record_container-IsValid :
      (p : Pod) (resource kind : String) (s : State) (c : ContainerStatus)
      → IsValid digest s
      → IsValid digest (record_container p resource kind s c)
  unfolding record_container
  record_container-IsValid p resource kind s c v = search (observe-IsValid digest v)

  record_containers-IsValid :
      (p : Pod) (resource kind : String) (cs : List ContainerStatus) (s : State)
      → IsValid digest s
      → IsValid digest (record_containers p resource kind cs s)
  unfolding record_containers
  record_containers-IsValid p resource kind [] s v = v
  record_containers-IsValid p resource kind (c ∷ cs) s v =
      record_containers-IsValid p resource kind cs _
        (record_container-IsValid p resource kind s c v)

  pub record_pods-IsValid :
      (ps : List Pod) (s : State) → IsValid digest s → IsValid digest (record_pods ps s)
  unfolding record_pods
  record_pods-IsValid [] s v = v
  record_pods-IsValid (p ∷ ps) s v = record_pods-IsValid ps _ (
      record_containers-IsValid p _ "ephemeral" p.ephemeral_container_statuses _ (
        record_containers-IsValid p _ "app" p.container_statuses _
          (record_containers-IsValid p _ "init" p.init_container_statuses s v)))

  run_optional-IsValid :
      (snapshot : Snapshot) (m : Metadata) (keys : List String) (s : State)
      → IsValid digest s
      → IsValid digest (run_optional digest snapshot m keys s)
  unfolding run_optional
  run_optional-IsValid snapshot m [] s v = v
  run_optional-IsValid snapshot m (key ∷ keys) s v =
      elim (Bool-cases (status snapshot key).available) [
        | inl here ↦ rw here (run_optional-IsValid snapshot m keys _ (add_check-IsValid digest v _))
        | inr away ↦ rw away (
            run_optional-IsValid snapshot m keys _
              (add-IsValid digest (add_check-IsValid digest v _) _))
      ]

  add_findings-IsValid :
      (id : String) (fs : List Finding) (s : State)
      → IsValid digest s
      → IsValid digest (add_findings digest id fs s)
  unfolding add_findings
  add_findings-IsValid id [] s v = v
  add_findings-IsValid id (f ∷ fs) s v =
      add_findings-IsValid id fs _ (add-IsValid digest v (tagged id f))

  checked-IsValid :
      (b : Bool) (c : Check) (s : State)
      → IsValid digest s
      → IsValid digest (if b then add_check s c else s)
  checked-IsValid true c s v = add_check-IsValid digest v c
  checked-IsValid false c s v = v

  run_rule-IsValid :
      (snapshot : Snapshot) (cfg : Config) (r : Rule) (s : State)
      → IsValid digest s
      → IsValid digest (run_rule digest snapshot cfg r s)
  unfolding run_rule
  run_rule-IsValid snapshot cfg r s v = elim (Bool-cases (enabled r.metadata cfg.mode)) [
    | inr off ↦ rw off v
    | inl on ↦ rw on (elim (Bool-cases (is_empty (missing snapshot r.metadata.required))) [
      | inr lacks ↦ rw lacks (
          add-IsValid digest (add_check-IsValid digest v _)
            (unavailable_finding digest snapshot r.metadata _ _))
      | inl full ↦ rw full (
          add_findings-IsValid r.metadata.id (r.evaluate snapshot cfg) _ (
            run_optional-IsValid snapshot r.metadata r.metadata.optional _ (
              checked-IsValid (not (is_empty r.metadata.required) || is_empty r.metadata.optional) _
                s v)))
    ])
  ]

  pub run_rules-IsValid :
      (snapshot : Snapshot) (cfg : Config) (rs : List Rule) (s : State)
      → IsValid digest s
      → IsValid digest (run_rules digest snapshot cfg rs s)
  unfolding run_rules
  run_rules-IsValid snapshot cfg [] s v = v
  run_rules-IsValid snapshot cfg (r ∷ rs) s v =
      run_rules-IsValid snapshot cfg rs _ (run_rule-IsValid snapshot cfg r s v)

  -- A run of any rules on any snapshot keeps a state valid.
  pub run-IsValid :
      (rules : List Rule) (snapshot : Snapshot) (cfg : Config) (s : State)
      → IsValid digest s
      → IsValid digest (run digest rules snapshot cfg s)
  unfolding run
  run-IsValid rules snapshot cfg s v =
      sort_findings-IsValid digest
        (run_rules-IsValid snapshot cfg rules _ (record_pods-IsValid snapshot.pods s v))

filled-false : (key : String) (keys : List String) → Memᴰ key keys → is_empty keys ≡ false
filled-false key [] m = absurd (Memᴰ.not-nil m)
filled-false key (k ∷ ks) m = refl

-- Where some required input of a rule is not available, the rule is not evaluated: its run is the
-- same whatever its `Evaluate` would return.
pub run_rule-unavailable :
    (digest : String → String) (snapshot : Snapshot) (cfg : Config) (r : Rule)
    (other : Snapshot → Config → List Finding) (key : String) (s : State)
    → Memᴰ key r.metadata.required
    → (status snapshot key).available ≡ false
    → run_rule digest snapshot cfg r s
      ≡ run_rule digest snapshot cfg (record r { evaluate = other }) s
unfolding run_rule
run_rule-unavailable digest snapshot cfg r other key s m away =
    rw
      (filled-false key (missing snapshot r.metadata.required) (
        Memᴰ-keep_of (λ k. not (status snapshot k).available) key r.metadata.required m
          (rw away refl)))
      refl
