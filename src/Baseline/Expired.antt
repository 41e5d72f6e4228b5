-- ===== src/Baseline/Expired.antt =====
-- An expired rule drops the root causes, and with them the acknowledgement of symptoms.
use k8s_diagnose.Prelude.{
  ℕ, String, true, false, Option, List, [], ◌∷◌, ◌≡◌, ◌≢◌, ◌⊎◌, inl, inr, Memᴰ, refl, ◌==◌, eq_iff,
  contains, Bool-cases, ap, ◌∙◌,
}
use mathlib.Core.List.Memᴰ
use mathlib.Core.List.{cons≢nil}
use k8s_diagnose.Model.Types.{Finding, RootCause, Acknowledgement, State}
use k8s_diagnose.Model.State.{add, finding_key, acknowledge}
use k8s_diagnose.Baseline.Scope.{Rule, Baseline}
use k8s_diagnose.Baseline.Apply.{expired, expired_finding, apply_rules, apply_roots, apply}
use k8s_diagnose.Baseline.Effect.{if-keeps, apply_rule-keeps, apply_rules-keeps}

module _ (digest : String → String) (today : String)
    (resolve : Option (Finding → List String)) where
  -- The warning of a rule is still to be added, or the root causes are gone.
  abbrev Pending : String → State → Type 0
  Pending key s = (contains s.seen key ≡ false) ⊎ (s.root_causes ≡ [])

  abbrev NoRoots : State → Type 0
  NoRoots s = s.root_causes ≡ []

  add-Pending :
      (key : String) (s : State) (f : Finding) → Pending key s → Pending key (add digest s f)
  unfolding add
  add-Pending key s f p = elim (Bool-cases (contains s.seen (finding_key digest f))) [
    | inl old ↦ rw old p
    | inr new ↦ rw new (inr refl)
  ]

  add-NoRoots : (s : State) (f : Finding) → NoRoots s → NoRoots (add digest s f)
  unfolding add
  add-NoRoots s f p = elim (Bool-cases (contains s.seen (finding_key digest f))) [
    | inl old ↦ rw old p
    | inr new ↦ rw new
  ]

  added-NoRoots :
      (s : State) (f : Finding) → Pending (finding_key digest f) s → NoRoots (add digest s f)
  unfolding add
  added-NoRoots s f (inl new) = rw new
  added-NoRoots s f (inr none_left) = add-NoRoots s f none_left

  acknowledge-Pending :
      (key : String) (s : State) (id : String) (a : Acknowledgement)
      → Pending key s
      → Pending key (acknowledge s id a).0
  unfolding acknowledge
  acknowledge-Pending key s id a p = p

  acknowledge-NoRoots :
      (s : State) (id : String) (a : Acknowledgement) → NoRoots s → NoRoots (acknowledge s id a).0
  unfolding acknowledge
  acknowledge-NoRoots s id a p = p

  apply_rules-NoRoots :
      (rule : Rule) (rules : List Rule) (x : State × ℕ)
      → Memᴰ rule rules
      → expired digest today resolve rule ≡ true
      → Pending (finding_key digest (expired_finding digest today resolve rule)) x.0
      → NoRoots (apply_rules digest today resolve rules x).0
  unfolding apply_rules
  apply_rules-NoRoots rule [] x m late p = absurd (Memᴰ.not-nil m)
  apply_rules-NoRoots rule (r ∷ rules) x (Memᴰ.head same) late p =
      apply_rules-keeps digest today resolve NoRoots
        (λ s q. add-NoRoots s (expired_finding digest today resolve q)) acknowledge-NoRoots rules _
        (rw (← same, late) (added-NoRoots x.0 (expired_finding digest today resolve rule) p))
  apply_rules-NoRoots rule (r ∷ rules) x (Memᴰ.tail m) late p =
      let key = finding_key digest (expired_finding digest today resolve rule) in
      apply_rules-NoRoots rule rules _ m late (
        if-keeps digest today resolve (Pending key)
          (λ s q. add-Pending key s (expired_finding digest today resolve q))
          (acknowledge-Pending key) (expired digest today resolve r) _ _
          (add-Pending key x.0 (expired_finding digest today resolve r) p)
          (apply_rule-keeps digest today resolve (Pending key)
            (λ s q. add-Pending key s (expired_finding digest today resolve q))
            (acknowledge-Pending key) r x.0.findings x p))

  apply_roots-none :
      (roots : List RootCause) (x : State × ℕ)
      → roots ≡ []
      → apply_roots digest today resolve roots x ≡ x
  unfolding apply_roots
  apply_roots-none [] x e = refl
  apply_roots-none (r ∷ roots) x e = absurd (cons≢nil e)

-- If some rule of a baseline has expired and its warning is new to the state, `Apply` ends with no
-- root causes, and the pass that acknowledges the findings related to an acknowledged cause does
-- nothing: the result is that of the rules alone.
pub apply-expired :
    (digest : String → String) (today : String) (resolve : Option (Finding → List String))
    (s : State) (b : Baseline) (rule : Rule)
    → b.path ≢ ""
    → Memᴰ rule b.rules
    → expired digest today resolve rule ≡ true
    → contains s.seen (finding_key digest (expired_finding digest today resolve rule)) ≡ false
    → (apply digest today resolve s b ≡ apply_rules digest today resolve b.rules (s, 0))
      × ((apply digest today resolve s b).0.root_causes ≡ [])
unfolding apply
apply-expired digest today resolve s b rule named m late new =
    let gone = apply_rules-NoRoots digest today resolve rule b.rules (s, 0) m late (inl new) in
    elim (Bool-cases (b.path == "")) [
      | inl blank ↦ absurd (named ((eq_iff b.path "").0 blank))
      | inr full ↦ rw full (
        apply_roots-none digest today resolve _ _ gone,
        ap (λ y. y.0.root_causes) (apply_roots-none digest today resolve _ _ gone) ∙ gone,
      )
    ]
