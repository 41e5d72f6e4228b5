-- ===== src/Rules/Dependency/Asked.antt =====
-- Each link that the code makes is one that the objects ask for.
use k8s_diagnose.Prelude.{
  String, Bool, true, false, not, Option, none, some, List, [], ◌∷◌, ◌≡◌, ◌∙◌, refl, sym, ap, subst,
  inl, inr, ◌==◌, ◌&&◌, ◌||◌, if◌then◌else◌, eq_iff, is_some, Memᴰ, Memᴰ-keep, arith,
}
use mathlib.Core.List.Memᴰ
use mathlib.Core.Logic.{⊎_elim}
use mathlib.Core.Option.{some-injective}
use k8s_diagnose.Rules.Registry.{ref}
use k8s_diagnose.Rules.Dependency.Objects.{
  ContainerSpec, Owner, PodObject, OwnedObject, Claim, Objects,
}
use k8s_diagnose.Rules.Dependency.References.{pod_dependencies, flat_map}
use k8s_diagnose.Rules.Dependency.Build.{
  Link, link, probe_resource, probes_of, probed_containers, owner_ref, owner_link, is_required,
  required_link, ephemeral_link, pod_links, replica_set_links, cron_job, job_links, claim_links,
}
use k8s_diagnose.Rules.Dependency.Relations.{
  Asks, plain, pod_ref, IsProbed, HasProbe, probed, needed, claimed, member, scheduled, replica_set,
  job, bound,
}

module _ {ℓ κ} {A : Type ℓ} {B : Type κ} where
  pub flat_map-Memᴰ :
      (f : A → List B) (y : B) (xs : List A)
      → Memᴰ y (flat_map f xs)
      → (x : A) × Memᴰ x xs × Memᴰ y (f x)
  flat_map-Memᴰ f y [] m = absurd (Memᴰ.not-nil m)
  flat_map-Memᴰ f y (x ∷ xs) m =
      ⊎_elim (λ h. (x, Memᴰ.head refl, h))
        (λ r. let (z, n, h) = flat_map-Memᴰ f y xs r in (z, Memᴰ.tail n, h))
        (Memᴰ.append_cases (f x) m)

module _ {ℓ} {A : Type ℓ} where
  pub only : {x y : A} → Memᴰ y (x ∷ []) → y ≡ x
  only m = ⊎_elim (λ e. e) (λ r. absurd (Memᴰ.not-nil r)) (Memᴰ.cases_cons m)

  pub then_nil :
      (b : Bool) {y : A} (xs : List A) → Memᴰ y (if b then xs else []) → (b ≡ true) × Memᴰ y xs
  then_nil true xs m = (refl, m)
  then_nil false xs m = absurd (Memᴰ.not-nil m)

  pub else_nil :
      (b : Bool) {y : A} (xs : List A) → Memᴰ y (if b then [] else xs) → (b ≡ false) × Memᴰ y xs
  else_nil true xs m = absurd (Memᴰ.not-nil m)
  else_nil false xs m = (refl, m)

owner_link-cases :
    (from namespace relation : String) (w : Option Owner) (l : Link)
    → Memᴰ l (owner_link from namespace relation w)
    → (v : Owner) × (w ≡ some v) × (l ≡ plain from (ref v.kind namespace v.name) relation)
owner_link-cases from namespace relation none l m = absurd (Memᴰ.not-nil m)
owner_link-cases from namespace relation (some v) l m = (v, refl, only m)

probes_of-HasProbe : (c : ContainerSpec) (name : String) → Memᴰ name (probes_of c) → HasProbe c name
unfolding probes_of
probes_of-HasProbe c name m =
    ⊎_elim
      (λ first.
        ⊎_elim (λ r. let (b, h) = then_nil c.readiness ("readinessProbe" ∷ []) r in inl (b, only h))
          (λ r. let (b, h) = then_nil c.liveness ("livenessProbe" ∷ []) r in inr (inl (b, only h)))
          (Memᴰ.append_cases _ first))
      (λ r. let (b, h) = then_nil c.startup ("startupProbe" ∷ []) r in inr (inr (b, only h)))
      (Memᴰ.append_cases _ m)

probed_containers-IsProbed :
    (p : PodObject) (c : ContainerSpec) → Memᴰ c (probed_containers p) → IsProbed p c
probed_containers-IsProbed p c m =
    ⊎_elim (λ r. inr (Memᴰ-keep (λ (d : ContainerSpec). d.restarts_always) c p.init_containers r))
      inl (Memᴰ.append_cases _ m)

not_either : (a b : Bool) → not (a || b) ≡ true → (a ≡ false) × (b ≡ false)
not_either a b h = ground arith

claimless : (c : Option String) (e : Bool) → (not (is_some c) && e) ≡ true → (c ≡ none) × (e ≡ true)
claimless none e h = (refl, h)
claimless (some n) e h = cc

module _ (claim_name : String → String → String)
    (matches : List (String × String) → List (String × String) → Bool) (o : Objects) where
  abbrev A : Link → Type 0
  A = Asks claim_name matches o

  pub pod_links-Asks :
      (p : PodObject) (l : Link) → Memᴰ p o.pods → Memᴰ l (pod_links claim_name p) → A l
  unfolding pod_links required_link is_required ephemeral_link
  pod_links-Asks p l listed m =
      ⊎_elim
        (λ m1.
          ⊎_elim
            (λ m2.
              ⊎_elim
                (λ m3.
                  ⊎_elim
                    (λ m4.
                      let (c, n, h) = flat_map-Memᴰ _ l (probed_containers p) m4 in
                      let (name, k, e) =
                        flat_map-Memᴰ
                          (λ probe.
                            link (probe_resource p.namespace p.name c.name probe) (pod_ref p)
                              "probe-controls")
                          l (probes_of c) h in
                      subst A (sym (only e)) (
                        probed listed (probed_containers-IsProbed p c n)
                          (probes_of-HasProbe c name k)))
                    (λ m4.
                      let (d, n, h) =
                        flat_map-Memᴰ (required_link (pod_ref p)) l (pod_dependencies p) m4 in
                      let (b, e) = then_nil (is_required d) _ h in
                      let (necessary, lasting) = not_either d.optional _ b in
                      subst A (sym (only e)) (needed listed n necessary lasting))
                    (Memᴰ.append_cases _ m3))
                (λ m3.
                  let (v, n, h) = flat_map-Memᴰ (ephemeral_link claim_name p) l p.volumes m3 in
                  let (b, e) = then_nil (not (is_some v.claim) && v.ephemeral) _ h in
                  let (free, own) = claimless v.claim v.ephemeral b in
                  subst A (sym (only e)) (claimed listed n free own))
                (Memᴰ.append_cases _ m2))
            (λ m2.
              let (w, e, k) =
                owner_link-cases (pod_ref p) p.namespace "workload-member" (owner_ref p.owners) l
                  m2 in
              subst A (sym k) (member listed e))
            (Memᴰ.append_cases _ m1))
        (λ m1.
          let (b, e) = else_nil (p.node_name == "") _ m1 in
          subst A (sym (only e)) (scheduled listed b))
        (Memᴰ.append_cases _ m)

  pub replica_set_links-Asks :
      (s : OwnedObject) (l : Link) → Memᴰ s o.replica_sets → Memᴰ l (replica_set_links s) → A l
  unfolding replica_set_links
  replica_set_links-Asks s l listed m =
      let (w, e, k) = owner_link-cases _ s.namespace "owned-workload" (owner_ref s.owners) l m in
      subst A (sym k) (replica_set listed e)

  if_some-cases :
      (w : Option Owner) (v : Owner) → cron_job w ≡ some v → (w ≡ some v) × (v.kind ≡ "CronJob")
  if_some-cases none v h = cc
  if_some-cases (some u) v h = by_kind (u.kind == "CronJob") refl h
    where
      by_kind :
          (b : Bool)
          → (u.kind == "CronJob") ≡ b
          → (if b then some u else none) ≡ some v
          → (some u ≡ some v) × (v.kind ≡ "CronJob")
      by_kind true e h = (
        h,
        ap (λ (x : Owner). x.kind) (sym (some-injective u v h)) ∙ (eq_iff u.kind "CronJob").0 e,
      )
      by_kind false e h = cc

  pub job_links-Asks : (j : OwnedObject) (l : Link) → Memᴰ j o.jobs → Memᴰ l (job_links j) → A l
  unfolding job_links
  job_links-Asks j l listed m =
      let (w, e, k) =
        owner_link-cases _ j.namespace "owned-workload" (cron_job (owner_ref j.owners)) l m in
      let (f, cron) = if_some-cases (owner_ref j.owners) w e in subst A (sym k) (job listed f cron)

  pub claim_links-Asks : (c : Claim) (l : Link) → Memᴰ c o.claims → Memᴰ l (claim_links c) → A l
  unfolding claim_links
  claim_links-Asks c l listed m =
      let (b, e) = else_nil (c.volume_name == "") _ m in subst A (sym (only e)) (bound listed b)
