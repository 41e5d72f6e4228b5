-- ===== src/Rules/Degraded/Current.antt =====
-- Which ReplicaSets, Deployments and StatefulSets are reported as degraded.
use k8s_diagnose.Prelude.{
  String, Bool, true, false, Option, none, some, List, [], ◌∷◌, ◌≡◌, ◌≢◌, ◌∙◌, ◌⊎◌, refl, ap, inl,
  inr, ◌==◌, eq_iff, int_ltb, int_leb, int_eq, ℤ, pos, negsuc, Memᴰ, Bool-cases, arith, All,
}
use mathlib.Core.Logic.{⊎_elim}
use k8s_diagnose.Prelude.Order.{int_desc_key}
use k8s_diagnose.Rules.Degraded.{
  WorkloadStatus, Statuses, workload_degraded, status_generation_current, int32_value, first_result,
  or_message, degraded_object, ready_count_message, short_ref,
}

-- The kinds of workloads whose specification has a number of replicas.
pub data Controller : Type 0 where
  replica_set deployment stateful_set : Controller

abbrev pub kind_of : Controller → String
kind_of replica_set = "ReplicaSet"
kind_of deployment = "Deployment"
kind_of stateful_set = "StatefulSet"

abbrev pub workloads_of : Controller → Statuses → List WorkloadStatus
workloads_of replica_set s = s.replica_sets
workloads_of deployment s = s.deployments
workloads_of stateful_set s = s.stateful_sets

-- What the specification asks for: one replica where it is silent.
abbrev pub Desires : WorkloadStatus → ℤ → Type 0
Desires w n = (w.replicas ≡ some n) ⊎ ((w.replicas ≡ none) × (n ≡ pos 1))

-- The workload with that name, whose status was observed for its generation, or for none, and which
-- is to have a replica at least, and has fewer ready ones than it is to have.
abbrev pub IsShort : String → String → WorkloadStatus → ℤ → Type 0
IsShort namespace name w n =
    (w.namespace ≡ namespace)
    × (w.name ≡ name)
    × Desires w n
    × ((w.generation ≡ pos 0) ⊎ (int_leb w.generation w.observed_generation ≡ true))
    × (int_leb (pos 1) n ≡ true)
    × (int_ltb w.ready_replicas n ≡ true)

-- Another workload, one with a status of an earlier generation, or one with enough ready replicas.
abbrev pub IsPassed : String → String → WorkloadStatus → Type 0
IsPassed namespace name w =
    (w.namespace ≢ namespace)
    ⊎ (w.name ≢ name)
    ⊎ (int_ltb w.observed_generation w.generation ≡ true)
    ⊎ ((n : ℤ) × Desires w n × ((int_leb n (pos 0) ≡ true) ⊎ (int_leb n w.ready_replicas ≡ true)))

desired : (w : WorkloadStatus) (o : Option ℤ) → w.replicas ≡ o → Desires w (int32_value o (pos 1))
desired w none e = inr (e, refl)
desired w (some n) e = inl e

apart : (a b : String) → (a == b) ≡ false → a ≢ b
apart a b h = ground (arith, eq_iff a b)

current-cases :
    (g o : ℤ) → status_generation_current g o ≡ true → (g ≡ pos 0) ⊎ (int_leb g o ≡ true)
unfolding status_generation_current
current-cases g o h = elim (Bool-cases (int_eq g (pos 0))) [
  | inl unset ↦ inl (int_desc_key.eq_sound g (pos 0) unset)
  | inr set ↦ inr (rw set at h)
]

stale-ltb : (g o : ℤ) → status_generation_current g o ≡ false → int_ltb o g ≡ true
unfolding status_generation_current
stale-ltb g o h = ground arith

positive : (n : ℤ) → int_ltb (pos 0) n ≡ true → int_leb (pos 1) n ≡ true
positive (pos n) h = ground arith
positive (negsuc n) h = cc

not_positive : (n : ℤ) → int_ltb (pos 0) n ≡ false → int_leb n (pos 0) ≡ true
not_positive (pos n) h = ground arith
not_positive (negsuc n) h = refl

enough : (n r : ℤ) → int_ltb r n ≡ false → int_leb n r ≡ true
enough n r h = ground arith

module _ (kind namespace name : String) where
  -- The message is on the workload and its two numbers.
  abbrev said : WorkloadStatus → ℤ → Option String
  said w n = some (ready_count_message kind (short_ref namespace name) w.ready_replicas n)

  workload_degraded-cases :
      (w : WorkloadStatus)
      → ((n : ℤ) × IsShort namespace name w n
          × (workload_degraded kind namespace name w ≡ said w n))
        ⊎ ((workload_degraded kind namespace name w ≡ none) × IsPassed namespace name w)
  unfolding workload_degraded
  workload_degraded-cases w =
      let n = int32_value w.replicas (pos 1) in
      let d = desired w w.replicas refl in
      elim (Bool-cases (w.namespace == namespace)) [
        | inr a ↦ rw a (inr (refl, inl (apart w.namespace namespace a)))
        | inl a ↦ elim (Bool-cases (w.name == name)) [
          | inr b ↦ rw (a, b) (inr (refl, inr (inl (apart w.name name b))))
          | inl b ↦
              elim (Bool-cases (status_generation_current w.generation w.observed_generation)) [
                | inr c ↦
                    rw (a, b, c)
                      (inr (refl, inr (inr (inl (stale-ltb w.generation w.observed_generation c)))))
                | inl c ↦ elim (Bool-cases (int_ltb (pos 0) n)) [
                  | inr p ↦
                      rw (a, b, c, p) (inr (refl, inr (inr (inr (n, d, inl (not_positive n p))))))
                  | inl p ↦ elim (Bool-cases (int_ltb w.ready_replicas n)) [
                    | inr q ↦
                        rw (a, b, c, p, q)
                          (inr (refl, inr (inr (inr (n, d, inr (enough n w.ready_replicas q))))))
                    | inl q ↦
                        rw (a, b, c, p, q)
                          (inl (
                            n,
                            (
                              (eq_iff w.namespace namespace).0 a,
                              (eq_iff w.name name).0 b,
                              d,
                              current-cases w.generation w.observed_generation c,
                              positive n p,
                              q,
                            ),
                            refl,
                          ))
                  ]
                ]
              ]
        ]
      ]

  -- What the loop returns.
  abbrev pub Reported : List WorkloadStatus → Option String → Type 0
  Reported ws o =
      ((w : WorkloadStatus) × (n : ℤ) × Memᴰ w ws × IsShort namespace name w n × (o ≡ said w n))
      ⊎ ((o ≡ none) × All (IsPassed namespace name) ws)

  first_result-Reported :
      (ws : List WorkloadStatus)
      → Reported ws (first_result (workload_degraded kind namespace name) ws)
  first_result-Reported [] = inr (refl, tt)
  first_result-Reported (w ∷ ws) =
      let rest = first_result (workload_degraded kind namespace name) ws in
      ⊎_elim (λ (n, short, e). inl (w, n, Memᴰ.head refl, short, ap (λ o. or_message o rest) e))
        (λ (e, passed).
          ⊎_elim
            (λ (v, n, m, short, e').
              inl (v, n, Memᴰ.tail m, short, ap (λ o. or_message o rest) e ∙ e'))
            (λ (e', all_passed). inr (ap (λ o. or_message o rest) e ∙ e', (passed, all_passed)))
            (first_result-Reported ws))
        (workload_degraded-cases w)

-- For a ReplicaSet, a Deployment or a StatefulSet, either there is a message, with the two numbers of
-- a workload of that name whose status is not of an earlier generation, which is to have a replica or
-- more (one where nothing is said), and has fewer ready ones than that. Or there is no message, and
-- every workload of the kind has another name, a status of an earlier generation, or enough ready
-- replicas.
pub degraded_object-Reported :
    (matches : List (String × String) → List (String × String) → Bool) (s : Statuses)
    (c : Controller) (namespace name : String)
    → Reported
        (kind_of c)
        namespace
        name
        (workloads_of c s)
        (degraded_object matches s (kind_of c) namespace name)
unfolding degraded_object
degraded_object-Reported matches s replica_set namespace name =
    first_result-Reported "ReplicaSet" namespace name s.replica_sets
degraded_object-Reported matches s deployment namespace name =
    first_result-Reported "Deployment" namespace name s.deployments
degraded_object-Reported matches s stateful_set namespace name =
    first_result-Reported "StatefulSet" namespace name s.stateful_sets
