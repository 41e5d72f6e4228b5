-- ===== src/Model/State/Invariant.antt =====
-- What every operation of `State` keeps: one finding for each key, one check for each ID, and a
-- scoped score within its range.
use k8s_diagnose.Prelude.{
  String, false, Option, none, some, List, [], ◌∷◌, ◌≡◌, refl, ◌≤◌, inl, inr, arith, ◌==◌, eq_iff,
  contains, count_if, count_if-append, ℤ, pos, negsuc, Bool-cases, ◌∙◌, ◌||◌, int_max, int_min,
}
use k8s_diagnose.Prelude.Sort.{count_if-sort}
use k8s_diagnose.Model.Types.{
  Finding, RootCause, Acknowledgement, Check, ScopedScore, Scalar, State,
}
use k8s_diagnose.Model.Finding.{fingerprint}
use k8s_diagnose.Model.State.{
  new_state, finding_key, add, put_check, add_check, observe, set_root_causes, set_scoped_score,
  acknowledge_first, acknowledge, finding_less, sort_findings,
}

abbrev pub Fits : ℤ → ℤ → Type 0
Fits (negsuc n) m = ⊥
Fits (pos n) (pos m) = n ≤ m
Fits (pos n) (negsuc m) = n ≡ 0

-- 0 ≤ score, and score ≤ maximum unless the maximum is negative
abbrev pub ScoreFits : Option ScopedScore → Type 0
ScoreFits none = Unit
ScoreFits (some v) = Fits v.score v.maximum

clamp-Fits : (score maximum : ℤ) → Fits (int_max (pos 0) (int_min maximum score)) maximum
clamp-Fits (pos n) (pos m) = ground arith
clamp-Fits (pos n) (negsuc m) = refl
clamp-Fits (negsuc n) (pos m) = ground arith
clamp-Fits (negsuc n) (negsuc m) = ground arith

absent : (k : String) (xs : List String) → contains xs k ≡ false → count_if (λ j. j == k) xs ≡ 0
absent k [] h = refl
absent k (x ∷ xs) h = ground (arith, absent k xs)

put_check-other :
    (c : Check) (k : String) (cs : List Check)
    → (c.id == k) ≡ false
    → count_if (λ d. d.id == k) (put_check c cs) ≡ count_if (λ d. d.id == k) cs
unfolding put_check
put_check-other c k [] h = rw h
put_check-other c k (d ∷ cs) h =
    ground (arith, put_check-other c k cs h, eq_iff d.id c.id, eq_iff d.id k, eq_iff c.id k)

-- A check replaces the one with its ID, or is added where there is none.
put_check-once :
    (c : Check) (k : String) (cs : List Check)
    → count_if (λ d. d.id == k) cs ≤ 1
    → count_if (λ d. d.id == k) (put_check c cs) ≤ 1
unfolding put_check
put_check-once c k [] h = ground arith
put_check-once c k (d ∷ cs) h = ground (
  arith,
  put_check-once c k cs,
  put_check-other c k cs,
  eq_iff d.id c.id,
  eq_iff d.id k,
  eq_iff c.id k,
)

acknowledge_first-keys :
    (digest : String → String) (k id : String) (a : Acknowledgement) (fs : List Finding)
    → count_if (λ f. finding_key digest f == k) (acknowledge_first id a fs).0
      ≡ count_if (λ f. finding_key digest f == k) fs
unfolding acknowledge_first finding_key fingerprint
acknowledge_first-keys digest k id a [] = refl
acknowledge_first-keys digest k id a (f ∷ fs) =
    ground (arith, acknowledge_first-keys digest k id a fs)

module _ (digest : String → String) where
  pub record IsValid (s : State) : Type 0 where
    pub seen_once : (k : String) → count_if (λ j. j == k) s.seen ≤ 1
    pub listed :
        (k : String)
        → count_if (λ f. finding_key digest f == k) s.findings ≡ count_if (λ j. j == k) s.seen
    pub checks_once : (k : String) → count_if (λ c. c.id == k) s.checks ≤ 1
    pub scored : ScoreFits s.scoped_score

  pub new_state-IsValid : IsValid new_state
  unfolding new_state
  new_state-IsValid = record {
    seen_once = λ k. omega arith;
    listed = λ k. refl;
    checks_once = λ k. omega arith;
    scored = tt;
  }

  module _ {s : State} (v : IsValid s) where
    pub add-IsValid : (f : Finding) → IsValid (add digest s f)
    unfolding add
    add-IsValid f = elim (Bool-cases (contains s.seen (finding_key digest f))) [
      | inl old ↦ rw old v
      | inr new ↦ rw new (record {
        seen_once = λ k. ground (
          arith,
          v.seen_once k,
          count_if-append (λ j. j == k) s.seen (finding_key digest f ∷ []),
          absent k s.seen,
          eq_iff (finding_key digest f) k,
        );
        listed = λ k. ground (
          arith,
          v.listed k,
          count_if-append (λ j. j == k) s.seen (finding_key digest f ∷ []),
          count_if-append (λ g. finding_key digest g == k) s.findings (f ∷ []),
        );
        checks_once = v.checks_once;
        scored = v.scored;
      })
    ]

    pub add_check-IsValid : (c : Check) → IsValid (add_check s c)
    unfolding add_check
    add_check-IsValid c = record {
      seen_once = v.seen_once;
      listed = v.listed;
      checks_once = λ k. put_check-once c k s.checks (v.checks_once k);
      scored = v.scored;
    }

    pub observe-IsValid :
        (category id : String) (value : List (String × Scalar))
        → IsValid (observe s category id value)
    unfolding observe
    observe-IsValid category id value = elim (Bool-cases (category == "" || id == "")) [
      | inl nameless ↦ rw nameless v
      | inr named ↦ rw named (record {
        seen_once = v.seen_once;
        listed = v.listed;
        checks_once = v.checks_once;
        scored = v.scored;
      })
    ]

    pub set_root_causes-IsValid : (rs : List RootCause) → IsValid (set_root_causes s rs)
    unfolding set_root_causes
    set_root_causes-IsValid rs = record {
      seen_once = v.seen_once;
      listed = v.listed;
      checks_once = v.checks_once;
      scored = v.scored;
    }

    pub set_scoped_score-IsValid : (w : ScopedScore) → IsValid (set_scoped_score s w)
    unfolding set_scoped_score
    set_scoped_score-IsValid w = record {
      seen_once = v.seen_once;
      listed = v.listed;
      checks_once = v.checks_once;
      scored = clamp-Fits w.score w.maximum;
    }

    pub acknowledge-IsValid : (id : String) (a : Acknowledgement) → IsValid (acknowledge s id a).0
    unfolding acknowledge
    acknowledge-IsValid id a = record {
      seen_once = v.seen_once;
      listed = λ k. acknowledge_first-keys digest k id a s.findings ∙ v.listed k;
      checks_once = v.checks_once;
      scored = v.scored;
    }

    pub sort_findings-IsValid : IsValid (sort_findings s)
    unfolding sort_findings
    sort_findings-IsValid = record {
      seen_once = v.seen_once;
      listed =
          λ k. count_if-sort finding_less (λ f. finding_key digest f == k) s.findings ∙ v.listed k;
      checks_once = v.checks_once;
      scored = v.scored;
    }
