-- ===== src/Report/Junit/Tallied.antt =====
-- The counts of a JUnit suite.
use k8s_diagnose.Prelude.{
  suc, String, Bool, true, false, not, List, [], ◌∷◌, ◌++◌, ◌≡◌, ◌∙◌, ◌+◌, refl, sym, ap, subst,
  inl, inr, arith, ◌==◌, ◌&&◌, if◌then◌else◌, eq_iff, length, length-append, count_if, is_empty,
  Bool-cases,
}
use k8s_diagnose.Model.Types.{
  Severity, issue, warning, unavailable, candidate, severity_eq, severity_text, Finding, State,
}
use k8s_diagnose.Model.State.{by_severity}
use k8s_diagnose.Redact.Masking.{Expression}
use k8s_diagnose.Report.Json.{Json, field, string_field, boolean}
use k8s_diagnose.Report.Findings.{finding_objects, root_objects}
use k8s_diagnose.Report.Build.{Config, build}
use k8s_diagnose.Report.Build.Counted.{Reads, Pairwise, build-Pairwise, length-keep, counted}
use k8s_diagnose.Report.Junit.{
  Suite, Roots, outcome_of, case_of, empty_suite, tally, add_cases, close_suite, roots_by_finding,
  junit,
}

-- An issue or an unavailable check that nobody has acknowledged.
abbrev pub active_with : String → Json → Bool
unfolding boolean field string_field
active_with severity f =
    not (boolean (field "acknowledged" f)) && string_field f "severity" == severity

-- What a loop adds to the counts.
record Tallied (s s' : Suite) (fs : List Json) : Type 0 where
  failed : s'.failures ≡ s.failures + count_if (active_with "issue") fs
  erred : s'.errors ≡ s.errors + count_if (active_with "unavailable") fs
  totalled : s'.failures + s'.errors + s'.skips ≡ s.failures + s.errors + s.skips + length fs
  listed : length s'.cases ≡ length s.cases + length fs

two_apart : (t : String) → (t == "issue") ≡ true → (t == "unavailable") ≡ false
two_apart t h = subst (λ d. (d == "unavailable") ≡ false) (sym ((eq_iff t "issue").0 h)) refl

tally-one :
    (f : Json) (s : Suite)
    → ((tally (outcome_of f) s).failures ≡ s.failures + (if active_with "issue" f then 1 else 0))
      × ((tally (outcome_of f) s).errors
          ≡ s.errors + (if active_with "unavailable" f then 1 else 0))
      × ((tally (outcome_of f) s).failures
            + (tally (outcome_of f) s).errors
            + (tally (outcome_of f) s).skips
          ≡ suc (s.failures + s.errors + s.skips))
      × ((tally (outcome_of f) s).cases ≡ s.cases)
unfolding tally outcome_of active_with
tally-one f s = elim (Bool-cases (boolean (field "acknowledged" f))) [
  | inl ack ↦ rw ack (omega arith, omega arith, omega arith, refl)
  | inr active ↦ elim (Bool-cases (string_field f "severity" == "issue")) [
    | inl bad ↦
        rw (active, bad, two_apart (string_field f "severity") bad)
          (omega arith, omega arith, omega arith, refl)
    | inr other ↦ elim (Bool-cases (string_field f "severity" == "unavailable")) [
      | inl missing ↦ rw (active, other, missing) (omega arith, omega arith, omega arith, refl)
      | inr rest ↦ rw (active, other, rest) (omega arith, omega arith, omega arith, refl)
    ]
  ]
]

add_cases-Tallied :
    (roots : Roots) (fs : List Json) (s : Suite) → Tallied s (add_cases roots fs s) fs
unfolding add_cases
add_cases-Tallied roots [] s = record {
  failed = omega arith;
  erred = omega arith;
  totalled = omega arith;
  listed = omega arith;
}
add_cases-Tallied roots (f ∷ fs) s =
    let s1 = record s { cases = s.cases ++ case_of roots f ∷ [] } in
    let (a, b, c, d) = tally-one f s1 in
    let t = add_cases-Tallied roots fs (tally (outcome_of f) s1) in
    record {
      failed = ground (arith, t.failed, a);
      erred = ground (arith, t.erred, b);
      totalled = omega (arith, t.totalled, c);
      listed = omega (arith, t.listed, ap length d, length-append s.cases (case_of roots f ∷ []));
    }

close_suite_lem :
    (fs : List Json) (s : Suite)
    → length s.cases ≡ length fs
    → ((close_suite fs s).tests ≡ length (close_suite fs s).cases)
      × ((close_suite fs s).tests ≡ (if is_empty fs then 1 else length fs))
      × ((close_suite fs s).failures ≡ s.failures)
      × ((close_suite fs s).errors ≡ s.errors)
      × ((close_suite fs s).skips ≡ s.skips)
unfolding close_suite
close_suite_lem [] s h =
    (omega (arith, length-append s.cases (_ ∷ [])), omega (arith, h), refl, refl, refl)
close_suite_lem (f ∷ fs) s h = (refl, h, refl, refl, refl)

-- The suite of a report has one test for each finding, or a single one where there are none. Its
-- failures, errors and skipped tests are as many as the findings: the failures are the issues and
-- the errors are the unavailable checks that are not acknowledged.
pub junit_lem :
    (marshal : Json → String) (document : Json)
    → ((junit marshal document).tests ≡ length (junit marshal document).cases)
      × ((junit marshal document).tests
          ≡ (if is_empty (finding_objects document) then 1 else length (finding_objects document)))
      × ((junit marshal document).failures
            + (junit marshal document).errors
            + (junit marshal document).skips
          ≡ length (finding_objects document))
      × ((junit marshal document).failures
          ≡ count_if (active_with "issue") (finding_objects document))
      × ((junit marshal document).errors
          ≡ count_if (active_with "unavailable") (finding_objects document))
unfolding junit
junit_lem marshal document =
    let fs = finding_objects document in
    let roots = roots_by_finding (root_objects document) [] in
    let s = add_cases roots fs (empty_suite marshal document) in
    let t = add_cases-Tallied roots fs (empty_suite marshal document) in
    let (a, b, d, e, c) = close_suite_lem fs s (omega (arith, t.listed)) in
    (
      a,
      b,
      omega (arith, t.totalled, c, d, e),
      omega (arith, d, t.failed),
      omega (arith, e, t.erred),
    )

severity_text_iff :
    (s : Severity)
    → ((severity_text s == "issue") ≡ severity_eq s issue)
      × ((severity_text s == "unavailable") ≡ severity_eq s unavailable)
severity_text_iff issue = (refl, refl)
severity_text_iff warning = (refl, refl)
severity_text_iff unavailable = (refl, refl)
severity_text_iff candidate = (refl, refl)

module _ (replace : Expression → String → String → String)
    (matches : Expression → String → Bool) where
  active_with-Reads :
      (f : Finding) (v : Json)
      → Reads replace matches f v
      → (active_with "issue" v ≡ counted issue true f)
        × (active_with "unavailable" v ≡ counted unavailable true f)
  unfolding active_with
  active_with-Reads f v (i, c, s, r, u, k, e, a) =
      rw (e, a, (severity_text_iff f.severity).0, (severity_text_iff f.severity).1)
        (ground arith, ground arith)

  count_if-Pairwise :
      (fs : List Finding) (vs : List Json)
      → Pairwise replace matches fs vs
      → (count_if (active_with "issue") vs ≡ count_if (counted issue true) fs)
        × (count_if (active_with "unavailable") vs ≡ count_if (counted unavailable true) fs)
  count_if-Pairwise [] [] h = (refl, refl)
  count_if-Pairwise [] (v ∷ vs) h = absurd h
  count_if-Pairwise (f ∷ fs) [] h = absurd h
  count_if-Pairwise (f ∷ fs) (v ∷ vs) (r, h) =
      let (a, b) = active_with-Reads f v r in
      let (c, d) = count_if-Pairwise fs vs h in (rw a (ground (arith, c)), rw b (ground (arith, d)))

-- The suite of the report of a state fails as often as the state has active issues, and has as many
-- errors as it has active unavailable checks.
pub junit-build :
    (marshal : Json → String) (replace : Expression → String → String → String)
    (matches : Expression → String → Bool) (s : State) (cfg : Config)
    (context generated_at version : String)
    → ((junit marshal (build replace matches s cfg context generated_at version)).failures
        ≡ length (by_severity s issue true))
      × ((junit marshal (build replace matches s cfg context generated_at version)).errors
          ≡ length (by_severity s unavailable true))
unfolding by_severity
junit-build marshal replace matches s cfg context generated_at version =
    let report = build replace matches s cfg context generated_at version in
    let (a, b, c, failed, erred) = junit_lem marshal report in
    let (n, m) =
      count_if-Pairwise replace matches s.findings (finding_objects report)
        (build-Pairwise replace matches s cfg context generated_at version) in
    (
      failed ∙ n ∙ sym (length-keep (counted issue true) s.findings),
      erred ∙ m ∙ sym (length-keep (counted unavailable true) s.findings),
    )
