-- ===== src/Model/Health/Bounds.antt =====
-- Coverage and health are percentages, and what moves them.
use k8s_diagnose.Prelude.{
  ℕ, String, Bool, false, not, none, List, [], ◌∷◌, ◌≡◌, ◌≤◌, ◌<◌, ◌≢◌, ◌↔◌, pos, ◌+◌, ◌-◌, ◌*◌,
  ◌/◌, min, arith, count_if, count_if-append, length, contains,
}
use k8s_diagnose.Model.Types.{issue, Finding, Check, ScopedScore, State}
use k8s_diagnose.Model.State.{add, finding_key, set_scoped_score}
use k8s_diagnose.Model.Health.{coverage_counts, coverage, is_issue, health}

count_if-not {ℓ} :
    {A : Type ℓ} (p : A → Bool) (xs : List A)
    → count_if p xs + count_if (λ x. not (p x)) xs ≡ length xs
count_if-not p [] = omega arith
count_if-not p (x ∷ xs) = ground (arith, count_if-not p xs)

percent-le : (a n : ℕ) → a ≤ n → a * 100 / n ≤ 100
percent-le a n h = grind arith

percent-full : (a b : ℕ) → a + b ≢ 0 → (a * 100 / (a + b) ≡ 100) ↔ (b ≡ 0)
percent-full a b h = grind arith

-- The available and the unavailable checks are all of them; coverage is at most 100, and it is 100
-- exactly when no check is unavailable.
pub coverage_lem :
    (s : State)
    → ((coverage_counts s).0 + (coverage_counts s).1 ≡ (coverage_counts s).2)
      × (coverage s ≤ 100)
      × ((coverage s ≡ 100) ↔ ((coverage_counts s).1 ≡ 0))
unfolding coverage
coverage_lem s =
    let ok = count_if (λ (c : Check). c.available) s.checks in
    let missing = count_if (λ (c : Check). not c.available) s.checks in
    ground (
      arith,
      count_if-not (λ (c : Check). c.available) s.checks,
      percent-le ok (length s.checks),
      percent-full ok missing,
    )

-- Whatever a state holds, its health is at most 100.
pub health-le : (s : State) → health s ≤ 100
unfolding health
health-le s = grind arith

-- With a scoped score set, health is the share of the maximum in per cent, a score above the
-- maximum counting as the maximum.
pub health-set_scoped_score :
    (s : State) (w : ScopedScore) (score maximum : ℕ)
    → w.score ≡ pos score
    → w.maximum ≡ pos maximum
    → 0 < maximum
    → health (set_scoped_score s w) ≡ min score maximum * 100 / maximum
unfolding health set_scoped_score
health-set_scoped_score s w score maximum e e' h =
    rw (e, e') (ground (arith, percent-le (min score maximum) maximum))

-- A new issue drops the root causes, and without a scoped score health is then eight points lower
-- for each issue of the state and for the new one, and never below 0.
pub health-add_issue :
    (digest : String → String) (s : State) (f : Finding)
    → s.scoped_score ≡ none
    → contains s.seen (finding_key digest f) ≡ false
    → f.severity ≡ issue
    → health (add digest s f) ≡ 100 - 8 * count_if is_issue s.findings - 8
unfolding health add
health-add_issue digest s f e new i =
    rw new (rw e (ground (arith, count_if-append is_issue s.findings (f ∷ []))))
