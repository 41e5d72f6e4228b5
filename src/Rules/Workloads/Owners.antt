-- ===== src/Rules/Workloads/Owners.antt =====
-- The workloads that are resolved own the finding's resource, and none of them another.
use k8s_diagnose.Prelude.{
  contains-Memᴰ, String, Bool, true, false, not, List, [], ◌∷◌, ◌≡◌, ◌⊎◌, inl, inr, Memᴰ, Memᴰ-keep,
  refl, arith, ◌==◌, ◌||◌, any_iff, contains, count_if-pos, keep, map, is_empty, Bool-cases, eq_iff,
  sym, subst, All-Memᴰ, text_lt,
}
use mathlib.Core.List.Memᴰ
use k8s_diagnose.Prelude.Sort.{sort_strings, Memᴰ-sort}
use k8s_diagnose.Model.Types.{Finding}
use k8s_diagnose.Rules.Graph.{Graph, GraphPath, descendants}
use k8s_diagnose.Rules.Graph.Walk.{Walk}
use k8s_diagnose.Rules.Graph.Correct.{descendants_once, descendants_sound}
use k8s_diagnose.Rules.Workloads.{
  unseen_from, unique_resource_refs, owned_by_another, outermost_workloads, is_controller,
  is_replica_set, affected, resolve_workloads,
}

Memᴰ-unseen_from : (r : String) (seen vs : List String) → Memᴰ r (unseen_from seen vs) → Memᴰ r vs
unfolding unseen_from
Memᴰ-unseen_from r seen [] m = m
Memᴰ-unseen_from r seen (v ∷ vs) m = elim (Bool-cases (v == "" || contains seen v)) [
  | inl skips ↦ Memᴰ.tail (Memᴰ-unseen_from r seen vs (rw skips at m))
  | inr adds ↦ elim (Memᴰ.cases_cons (rw adds at m)) [
    | inl e ↦ Memᴰ.head e
    | inr t ↦ Memᴰ.tail (Memᴰ-unseen_from r (v ∷ seen) vs t)
  ]
]

Memᴰ-unique : (r : String) (vs : List String) → Memᴰ r (unique_resource_refs vs) → Memᴰ r vs
unfolding unique_resource_refs sort_strings
Memᴰ-unique r vs m = Memᴰ-unseen_from r [] vs ((Memᴰ-sort text_lt r (unseen_from [] vs)).0 m)

Memᴰ-outermost :
    (g : Graph) (vs : List String) (r : String)
    → Memᴰ r (outermost_workloads g vs)
    → Memᴰ r vs × (owned_by_another g vs r ≡ false)
unfolding outermost_workloads
Memᴰ-outermost g vs r m =
    let (listed, free) = Memᴰ-keep (λ v. not (owned_by_another g vs v)) r vs (Memᴰ-unique r _ m) in
    (listed, ground (arith, free))

Walk-owned :
    (g : Graph) (vs : List String) (r q : String) (path relations : List String)
    → Walk g "" r q path relations
    → (q == r) ≡ false
    → contains vs q ≡ true
    → owned_by_another g vs r ≡ true
unfolding owned_by_another
Walk-owned g vs r q path relations w other listed =
    let once = descendants_once g r "" q path relations w in
    let there =
      (count_if-pos (λ p. p.resource == q) (descendants g r "")).0 (ground (arith, once, other)) in
    let (p, m, e) = (any_iff (λ p. p.resource == q) (descendants g r "")).0 there in
    (any_iff (λ p. contains vs p.resource) (descendants g r "")).1
      (p, m, subst (λ x. contains vs x ≡ true) (sym ((eq_iff p.resource q).0 e)) listed)

-- No walk of the dependency graph leads from one of the outermost workloads to another.
pub outermost_workloads-apart :
    (g : Graph) (vs : List String) (r q : String) (path relations : List String)
    → Memᴰ r (outermost_workloads g vs)
    → Memᴰ q (outermost_workloads g vs)
    → Walk g "" r q path relations
    → q ≡ r
outermost_workloads-apart g vs r q path relations m n w =
    let (_, free) = Memᴰ-outermost g vs r m in
    let (listed, _) = Memᴰ-outermost g vs q n in
    elim (Bool-cases (q == r)) [
      | inl same ↦ (eq_iff q r).0 same
      | inr other ↦
          absurd
            (clash (Walk-owned g vs r q path relations w other (contains-Memᴰ q vs listed)) free)
    ]
  where
    clash : {b : Bool} → b ≡ true → b ≡ false → ⊥
    clash h k = ground arith

Memᴰ-map :
    (r : String) (ps : List GraphPath)
    → Memᴰ r (map (λ (p : GraphPath). p.resource) ps)
    → (p : GraphPath) × Memᴰ p ps × (r ≡ p.resource)
Memᴰ-map r [] m = absurd (Memᴰ.not-nil m)
Memᴰ-map r (p ∷ ps) m = elim (Memᴰ.cases_cons m) [
  | inl e ↦ (p, Memᴰ.head refl, e)
  | inr t ↦ let (q, i, e) = Memᴰ-map r ps t in (q, Memᴰ.tail i, e)
]

-- At the end of a walk from a resource.
abbrev pub IsAffected : Graph → String → String → Type 0
IsAffected g start r =
    (path : List String) × (relations : List String) × Walk g "" start r path relations

Memᴰ-affected : (g : Graph) (start r : String) → Memᴰ r (affected g start) → IsAffected g start r
unfolding affected
Memᴰ-affected g start r m = elim (Memᴰ.cases_cons m) [
  | inl e ↦ rw e (start ∷ [], [], Walk.here)
  | inr t ↦
      let (p, i, e) = Memᴰ-map r (descendants g start "") t in
      rw e (p.path, p.relations, All-Memᴰ _ _ (descendants_sound g start "") i)
]

-- Each workload that is resolved for a finding lies at the end of a walk of the dependency graph
-- from the finding's resource, and is a top-level controller or a ReplicaSet.
pub resolve_workloads-IsAffected :
    (g : Graph) (f : Finding) (r : String)
    → Memᴰ r (resolve_workloads g f)
    → IsAffected g f.resource r × ((is_controller r ≡ true) ⊎ (is_replica_set r ≡ true))
unfolding resolve_workloads
resolve_workloads-IsAffected g f r m = elim (Bool-cases (f.resource == "")) [
  | inl blank ↦ absurd (Memᴰ.not-nil (rw blank at m))
  | inr named ↦ elim (Bool-cases (is_empty (keep is_controller (affected g f.resource)))) [
    | inl none_top ↦
        let (i, h) =
          Memᴰ-keep is_replica_set r (affected g f.resource)
            (Memᴰ-unique r _ (rw (named, none_top) at m)) in
        (Memᴰ-affected g f.resource r i, inr h)
    | inr some_top ↦
        let (listed, _) = Memᴰ-outermost g _ r (rw (named, some_top) at m) in
        let (i, h) = Memᴰ-keep is_controller r (affected g f.resource) (Memᴰ-unique r _ listed) in
        (Memᴰ-affected g f.resource r i, inl h)
  ]
]
