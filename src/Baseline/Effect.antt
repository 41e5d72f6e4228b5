-- ===== src/Baseline/Effect.antt =====
-- What `Apply` keeps of a state, and what it means for the exit code.
use k8s_diagnose.Prelude.{
  ℕ, zero, suc, String, Bool, true, false, not, Option, none, some, List, [], ◌∷◌, ◌≡◌, ◌≤◌, arith,
  ◌==◌, ◌&&◌, if◌then◌else◌, count_if-append, contains, Bool-cases, inl, inr,
}
use native.Mathlib.Nat.{le_trans, le_refl}
use k8s_diagnose.Model.Types.{warning, Finding, RootCause, Acknowledgement, State}
use k8s_diagnose.Model.Finding.{new_finding}
use k8s_diagnose.Model.State.{add, finding_key, acknowledge}
use k8s_diagnose.Model.State.Invariant.{IsValid, add-IsValid, acknowledge-IsValid}
use k8s_diagnose.Model.Health.{policy_count, included}
use k8s_diagnose.Model.Health.Policy.{acknowledge-policy_count}
use k8s_diagnose.Baseline.Scope.{Rule, Baseline}
use k8s_diagnose.Baseline.Apply.{
  expired, expired_finding, applies, acknowledgement_of, acknowledge_counted, apply_rule,
  apply_rules, acknowledgement_by_id, acknowledge_all, apply_roots, apply,
}

-- A property of states that `Apply` keeps because its two writes keep it.
module _ (digest : String → String) (today : String) (resolve : Option (Finding → List String))
    (P : State → Type 0)
    (on_add : (s : State) (r : Rule)
      → P s
      → P (add digest s (expired_finding digest today resolve r)))
    (on_acknowledge : (s : State) (id : String) (a : Acknowledgement)
      → P s
      → P (acknowledge s id a).0) where
  acknowledge_counted-keeps :
      (id : String) (a : Acknowledgement) (s : State) (n : ℕ)
      → P s
      → P (acknowledge_counted digest today resolve id a (s, n)).0
  unfolding acknowledge_counted
  acknowledge_counted-keeps id a s n p = on_acknowledge s id a p

  pub if-keeps : (c : Bool) (x y : State × ℕ) → P x.0 → P y.0 → P (if c then x else y).0
  if-keeps true x y p q = p
  if-keeps false x y p q = q

  pub apply_rule-keeps :
      (rule : Rule) (fs : List Finding) (x : State × ℕ)
      → P x.0
      → P (apply_rule digest today resolve rule fs x).0
  unfolding apply_rule
  apply_rule-keeps rule [] x p = p
  apply_rule-keeps rule (f ∷ fs) x p = apply_rule-keeps rule fs _ (
      if-keeps (applies digest today resolve rule x.0.root_causes f) _ _
        (acknowledge_counted-keeps f.id
          (acknowledgement_of digest today resolve rule x.0.root_causes f) x.0 x.1 p)
        p)

  pub apply_rules-keeps :
      (rules : List Rule) (x : State × ℕ) → P x.0 → P (apply_rules digest today resolve rules x).0
  unfolding apply_rules
  apply_rules-keeps [] x p = p
  apply_rules-keeps (rule ∷ rules) x p = apply_rules-keeps rules _ (
      if-keeps (expired digest today resolve rule) _ _ (on_add x.0 rule p)
        (apply_rule-keeps rule x.0.findings x p))

  acknowledge_all-keeps :
      (a : Acknowledgement) (ids : List String) (x : State × ℕ)
      → P x.0
      → P (acknowledge_all digest today resolve a ids x).0
  unfolding acknowledge_all
  acknowledge_all-keeps a [] x p = p
  acknowledge_all-keeps a (id ∷ ids) x p =
      acknowledge_all-keeps a ids _ (acknowledge_counted-keeps id a x.0 x.1 p)

  given-keeps :
      (o : Option Acknowledgement) (ids : List String) (x : State × ℕ)
      → P x.0
      → P
          (elim o as (λ _. State × ℕ) [
            | none ↦ x
            | some a ↦ acknowledge_all digest today resolve a ids x
          ]).0
  given-keeps none ids x p = p
  given-keeps (some a) ids x p = acknowledge_all-keeps a ids x p

  apply_roots-keeps :
      (roots : List RootCause) (x : State × ℕ)
      → P x.0
      → P (apply_roots digest today resolve roots x).0
  unfolding apply_roots
  apply_roots-keeps [] x p = p
  apply_roots-keeps (root ∷ roots) x p = apply_roots-keeps roots _ (
      given-keeps (acknowledgement_by_id digest today resolve root.cause.id x.0.findings)
        root.related_finding_ids x p)

  pub apply-keeps : (s : State) (b : Baseline) → P s → P (apply digest today resolve s b).0
  unfolding apply
  apply-keeps s b p = elim (Bool-cases (b.path == "")) [
    | inl h ↦ rw h p
    | inr h ↦ rw h (apply_roots-keeps _ _ (apply_rules-keeps b.rules (s, 0) p))
  ]

quiet_count : (b : Bool) → b ≡ false → (if not false && b then suc zero else zero) ≡ 0
quiet_count b h = ground arith

add_expired-policy_count :
    (digest : String → String) (today : String) (resolve : Option (Finding → List String))
    (t : State) (r : Rule) (fail_on : String)
    → included fail_on warning ≡ false
    → policy_count (add digest t (expired_finding digest today resolve r)) fail_on
      ≤ policy_count t fail_on
unfolding policy_count add expired_finding new_finding
add_expired-policy_count digest today resolve t r fail_on quiet =
    let f = expired_finding digest today resolve r in
    elim (Bool-cases (contains t.seen (finding_key digest f))) [
      | inl old ↦ rw old (le_refl _)
      | inr new ↦ rw new (
          omega (
            arith,
            count_if-append (λ (f : Finding). not f.acknowledged && included fail_on f.severity)
                t.findings (f ∷ []),
            quiet_count (included fail_on warning) quiet,
          ))
    ]

module _ (digest : String → String) (today : String) (resolve : Option (Finding → List String))
    (s : State) (b : Baseline) where
  -- `Apply` keeps the invariant of a state: one finding for each key, one check for each ID, and a
  -- scoped score in its range.
  pub apply-IsValid : IsValid digest s → IsValid digest (apply digest today resolve s b).0
  apply-IsValid =
      apply-keeps digest today resolve (IsValid digest)
        (λ s r v. add-IsValid digest v (expired_finding digest today resolve r))
        (λ s id a v. acknowledge-IsValid digest v id a) s b

  -- Under a policy that counts no warnings, a baseline never makes a run fail that passed: there
  -- are at most as many counted findings after `Apply` as before.
  pub apply-policy_count :
      (fail_on : String)
      → included fail_on warning ≡ false
      → policy_count (apply digest today resolve s b).0 fail_on ≤ policy_count s fail_on
  apply-policy_count fail_on quiet =
      apply-keeps digest today resolve (λ t. policy_count t fail_on ≤ policy_count s fail_on)
        (λ t r h. le_trans (add_expired-policy_count digest today resolve t r fail_on quiet) h)
        (λ t id a h. le_trans (acknowledge-policy_count t id fail_on a) h) s b (le_refl _)
