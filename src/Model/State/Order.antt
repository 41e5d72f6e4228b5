-- ===== src/Model/State/Order.antt =====
-- `Sort`: the order of the findings.
use k8s_diagnose.Prelude.{
  String, Bool, true, false, [], ◌∷◌, ◌≡◌, ◌⊎◌, inl, inr, refl, sym, ◌&&◌, ◌==◌, eq_iff, eq_refl,
  arith, count_if, keep, ltb, concat, text_lt, and_parts,
}
use mathlib.Core.Logic.{⊎_elim}
use k8s_diagnose.Prelude.Order.{
  IsWeakOrder, nat_key, text_key, IsWeakOrder-by_key, IsWeakOrder-first_by,
}
use k8s_diagnose.Prelude.Sort.{
  IsOrdered, IsOrdered-of_IsSorted, key-cases, sort-IsSorted, count_if-sort, keep-sort,
}
use k8s_diagnose.Model.Types.{
  Severity, issue, warning, unavailable, candidate, severity_eq, separator, Finding, State,
}
use k8s_diagnose.Model.State.{weight, place, finding_less, sort_findings}

pub finding_less-IsWeakOrder : IsWeakOrder finding_less
unfolding finding_less
finding_less-IsWeakOrder =
    IsWeakOrder-first_by nat_key (λ f. weight f.severity) _
      (IsWeakOrder-first_by text_key (λ f. f.section) _
        (IsWeakOrder-by_key text_key (λ f. place f)))

-- Which of two severities is listed first.
pub data Graver : Severity → Severity → Type 0 where
  issue_warning : Graver issue warning
  issue_unavailable : Graver issue unavailable
  issue_candidate : Graver issue candidate
  warning_unavailable : Graver warning unavailable
  warning_candidate : Graver warning candidate
  unavailable_candidate : Graver unavailable candidate

weight-Graver : (a b : Severity) → ltb (weight a) (weight b) ≡ true → Graver a b
unfolding weight
weight-Graver issue issue h = cc
weight-Graver issue warning h = issue_warning
weight-Graver issue unavailable h = issue_unavailable
weight-Graver issue candidate h = issue_candidate
weight-Graver warning issue h = cc
weight-Graver warning warning h = cc
weight-Graver warning unavailable h = warning_unavailable
weight-Graver warning candidate h = warning_candidate
weight-Graver unavailable issue h = cc
weight-Graver unavailable warning h = cc
weight-Graver unavailable unavailable h = cc
weight-Graver unavailable candidate h = unavailable_candidate
weight-Graver candidate issue h = cc
weight-Graver candidate warning h = cc
weight-Graver candidate unavailable h = cc
weight-Graver candidate candidate h = cc

weight-Path : (a b : Severity) → weight a ≡ weight b → a ≡ b
unfolding weight
weight-Path issue issue h = refl
weight-Path issue warning h = cc
weight-Path issue unavailable h = cc
weight-Path issue candidate h = cc
weight-Path warning issue h = cc
weight-Path warning warning h = refl
weight-Path warning unavailable h = cc
weight-Path warning candidate h = cc
weight-Path unavailable issue h = cc
weight-Path unavailable warning h = cc
weight-Path unavailable unavailable h = refl
weight-Path unavailable candidate h = cc
weight-Path candidate issue h = cc
weight-Path candidate warning h = cc
weight-Path candidate unavailable h = cc
weight-Path candidate candidate h = refl

-- The resource with the code, as a text.
abbrev pub located : Finding → String
located f = concat (f.resource ∷ separator ∷ f.code ∷ [])

-- The order of two findings of a list: by severity, by section, by resource with code.
abbrev pub ListedBefore : Finding → Finding → Type 0
ListedBefore a b =
    Graver a.severity b.severity
    ⊎ ((a.severity ≡ b.severity)
        × ((text_lt a.section b.section ≡ true)
            ⊎ ((a.section ≡ b.section) × (text_lt (located b) (located a) ≡ false))))

finding_less-ListedBefore : (a b : Finding) → finding_less b a ≡ false → ListedBefore a b
unfolding finding_less place
finding_less-ListedBefore a b h =
    ⊎_elim (λ less. inl (weight-Graver a.severity b.severity less))
      (λ (same, h').
        inr (weight-Path a.severity b.severity same, key-cases text_key a.section b.section _ h'))
      (key-cases nat_key (weight a.severity) (weight b.severity) _ h)

-- The same severity, section, resource and code.
abbrev pub alike : Finding → Finding → Bool
alike a b =
    severity_eq a.severity b.severity
    && a.section == b.section
    && a.resource == b.resource
    && a.code == b.code

severity_eq-Path : (a b : Severity) → severity_eq a b ≡ true → a ≡ b
severity_eq-Path issue issue h = refl
severity_eq-Path issue warning h = cc
severity_eq-Path issue unavailable h = cc
severity_eq-Path issue candidate h = cc
severity_eq-Path warning issue h = cc
severity_eq-Path warning warning h = refl
severity_eq-Path warning unavailable h = cc
severity_eq-Path warning candidate h = cc
severity_eq-Path unavailable issue h = cc
severity_eq-Path unavailable warning h = cc
severity_eq-Path unavailable unavailable h = refl
severity_eq-Path unavailable candidate h = cc
severity_eq-Path candidate issue h = cc
severity_eq-Path candidate warning h = cc
severity_eq-Path candidate unavailable h = cc
severity_eq-Path candidate candidate h = refl

alike-parts :
    (a b : Finding)
    → alike a b ≡ true
    → (a.severity ≡ b.severity)
      × (a.section ≡ b.section)
      × (a.resource ≡ b.resource)
      × (a.code ≡ b.code)
alike-parts a b h =
    let (first, c) = and_parts _ (a.code == b.code) h in
    let (second, r) = and_parts _ (a.resource == b.resource) first in
    let (v, s) = and_parts (severity_eq a.severity b.severity) (a.section == b.section) second in
    (
      severity_eq-Path a.severity b.severity v,
      (eq_iff a.section b.section).0 s,
      (eq_iff a.resource b.resource).0 r,
      (eq_iff a.code b.code).0 c,
    )

text_lt_irrefl : (s : String) → text_lt s s ≡ false
text_lt_irrefl s = ground (arith, text_key.weak.asym s s)

alike-ties : (f a b : Finding) → alike f a ≡ true → alike f b ≡ true → finding_less a b ≡ false
unfolding finding_less place
alike-ties f a b h k =
    let (v, s, r, c) = alike-parts f a h in
    let (w, t, q, d) = alike-parts f b k in
    rw (sym v, sym w, sym s, sym t, sym r, sym q, sym c, sym d)
      (rw (nat_key.eq_self (weight f.severity), eq_refl f.section) (text_lt_irrefl _))

-- `Sort` puts a finding before another only if it is as grave or graver, in the order issue, warning,
-- unavailable, candidate; of one severity, by section; and in one section, by resource with code. It
-- loses and adds no finding; and findings that are alike in all four stay in the order in which they
-- were.
pub sort_findings_lem :
    (s : State)
    → IsOrdered ListedBefore (sort_findings s).findings
      × ((p : Finding → Bool) → count_if p (sort_findings s).findings ≡ count_if p s.findings)
      × ((f : Finding) → keep (alike f) (sort_findings s).findings ≡ keep (alike f) s.findings)
unfolding sort_findings
sort_findings_lem s = (
  IsOrdered-of_IsSorted ListedBefore finding_less finding_less-ListedBefore _
      (sort-IsSorted finding_less-IsWeakOrder s.findings),
  λ p. count_if-sort finding_less p s.findings,
  λ f. keep-sort finding_less (alike f) s.findings (alike-ties f),
)
