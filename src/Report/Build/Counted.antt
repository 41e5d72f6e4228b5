-- ===== src/Report/Build/Counted.antt =====
-- What a report says of its state, and what a comparison reads from it.
use k8s_diagnose.Prelude.{
  ℕ, suc, String, Bool, true, false, not, List, [], ◌∷◌, ◌≡◌, ◌+◌, refl, sym, ap, subst, inl, inr,
  arith, ◌==◌, ◌&&◌, ◌||◌, if◌then◌else◌, eq_iff, length, count_if, map, Bool-cases, keep,
}
use k8s_diagnose.Model.Types.{
  Severity, issue, warning, unavailable, candidate, severity_eq, severity_text, Finding, RootCause,
  State,
}
use k8s_diagnose.Model.State.{by_severity}
use k8s_diagnose.Redact.Masking.{Expression}
use k8s_diagnose.Report.Json.{Json, field, objects, objects_of, string, string_field, boolean}
use k8s_diagnose.Report.Findings.{finding_objects, root_objects}
use k8s_diagnose.Report.Serialize.{
  items, natural, nullable, serialize_finding, serialize_root_cause,
}
use k8s_diagnose.Report.Build.{
  Config, acknowledged_count, class_counts, severity_counts, classes_json, summary, build,
}

length-map {ℓ κ} :
    {A : Type ℓ} {B : Type κ} (f : A → B) (xs : List A) → length (map f xs) ≡ length xs
length-map f [] = refl
length-map f (x ∷ xs) = omega (arith, length-map f xs)

pub length-keep {ℓ} : {A : Type ℓ} (p : A → Bool) (xs : List A) → length (keep p xs) ≡ count_if p xs
length-keep p [] = refl
length-keep p (x ∷ xs) = ground (arith, length-keep p xs)

-- One more finding counts once, or as an acknowledged one.
one_more :
    (s : Severity) (a active : Bool) (i w u c k n : ℕ)
    → i + w + u + c + (if active then k else 0) ≡ n
    → (if severity_eq s issue && (not active || not a) then suc i else i)
        + (if severity_eq s warning && (not active || not a) then suc w else w)
        + (if severity_eq s unavailable && (not active || not a) then suc u else u)
        + (if severity_eq s candidate && (not active || not a) then suc c else c)
        + (if active then (if a then suc k else k) else 0)
      ≡ suc n
one_more issue a active i w u c k n h = ground arith
one_more warning a active i w u c k n h = ground arith
one_more unavailable a active i w u c k n h = ground arith
one_more candidate a active i w u c k n h = ground arith

abbrev pub counted : Severity → Bool → Finding → Bool
counted s active f = severity_eq f.severity s && (not active || not f.acknowledged)

count_if-severities :
    (fs : List Finding) (active : Bool)
    → count_if (counted issue active) fs
        + count_if (counted warning active) fs
        + count_if (counted unavailable active) fs
        + count_if (counted candidate active) fs
        + (if active then acknowledged_count fs else 0)
      ≡ length fs
unfolding acknowledged_count
count_if-severities [] true = omega arith
count_if-severities [] false = omega arith
count_if-severities (f ∷ fs) active =
    one_more f.severity f.acknowledged active _ _ _ _ _ _ (count_if-severities fs active)

by_severity-counts :
    (s : State) (active : Bool)
    → length (by_severity s issue active)
        + length (by_severity s warning active)
        + length (by_severity s unavailable active)
        + length (by_severity s candidate active)
        + (if active then acknowledged_count s.findings else 0)
      ≡ length s.findings
unfolding by_severity
by_severity-counts s active =
    rw
      (
        length-keep (counted issue active) s.findings,
        length-keep (counted warning active) s.findings,
        length-keep (counted unavailable active) s.findings,
        length-keep (counted candidate active) s.findings,
      )
      (count_if-severities s.findings active)

apart : (c : String) → (c == "root_cause") ≡ true → (c == "cause_candidate") ≡ false
apart c h = subst (λ d. (d == "cause_candidate") ≡ false) (sym ((eq_iff c "root_cause").0 h)) refl

classes-count :
    (rs : List RootCause)
    → (class_counts rs).0 + (class_counts rs).1 + (class_counts rs).2 ≡ length rs
unfolding class_counts
classes-count [] = omega arith
classes-count (r ∷ rs) = ground (arith, classes-count rs, apart r.classification)

-- Counts of the four severities that add up to `n`, with `k` more.
abbrev pub SeverityTally : Json → ℕ → ℕ → Type 0
SeverityTally v k n =
    (i : ℕ) × (w : ℕ) × (u : ℕ) × (c : ℕ) × (field "issue" v ≡ natural i)
    × (field "warning" v ≡ natural w)
    × (field "unavailable" v ≡ natural u)
    × (field "candidate" v ≡ natural c)
    × (i + w + u + c + k ≡ n)

abbrev pub ClassTally : Json → ℕ → Type 0
ClassTally v n =
    (c : ℕ) × (p : ℕ) × (r : ℕ) × (field "confirmed" v ≡ natural c)
    × (field "probable" v ≡ natural p)
    × (field "related" v ≡ natural r)
    × (field "total" v ≡ natural n)
    × (c + p + r ≡ n)

-- The summary of a report adds up: the findings of the four severities are all findings of the
-- state; the active ones of the four severities and the acknowledged ones, which it names, are all of
-- them too; and the root causes of the three classes are all root causes.
pub summary-totals :
    (s : State)
    → SeverityTally (field "findings" (summary s)) 0 (length s.findings)
      × (field "acknowledged_findings" (summary s) ≡ natural (acknowledged_count s.findings))
      × SeverityTally
          (field "active_findings" (summary s))
          (acknowledged_count s.findings)
          (length s.findings)
      × ClassTally (field "root_causes" (summary s)) (length s.root_causes)
unfolding summary field severity_counts classes_json
summary-totals s = (
  (_, _, _, _, refl, refl, refl, refl, by_severity-counts s false),
  refl,
  (_, _, _, _, refl, refl, refl, refl, by_severity-counts s true),
  (_, _, _, refl, refl, refl, refl, classes-count s.root_causes),
)

module _ (replace : Expression → String → String → String)
    (matches : Expression → String → Bool) where
  objects_of-findings :
      (fs : List Finding)
      → objects_of (items (serialize_finding replace) fs) ≡ map (serialize_finding replace) fs
  unfolding objects_of items serialize_finding
  objects_of-findings [] = refl
  objects_of-findings (f ∷ fs) =
      ap (λ vs. serialize_finding replace f ∷ vs) (objects_of-findings fs)

  objects_of-roots :
      (rs : List RootCause)
      → objects_of (items (serialize_root_cause replace) rs) ≡ map (serialize_root_cause replace) rs
  unfolding objects_of items serialize_root_cause
  objects_of-roots [] = refl
  objects_of-roots (r ∷ rs) = ap (λ vs. serialize_root_cause replace r ∷ vs) (objects_of-roots rs)

  pub build-objects :
      (s : State) (cfg : Config) (context generated_at version : String)
      → (finding_objects (build replace matches s cfg context generated_at version)
          ≡ map (serialize_finding replace) s.findings)
        × (root_objects (build replace matches s cfg context generated_at version)
            ≡ map (serialize_root_cause replace) s.root_causes)
  unfolding build finding_objects root_objects field objects
  build-objects s cfg context generated_at version =
      (objects_of-findings s.findings, objects_of-roots s.root_causes)

  string-nullable : (s : String) → string (nullable s) ≡ s
  unfolding string nullable
  string-nullable s = elim (Bool-cases (s == "")) [
    | inl nameless ↦ rw nameless (sym ((eq_iff s "").0 nameless))
    | inr named ↦ rw named refl
  ]

  -- What the comparison, the history and the other outputs read of a finding.
  abbrev pub Reads : Finding → Json → Type 0
  Reads f v =
      (string_field v "id" ≡ f.id)
      × (string_field v "code" ≡ f.code)
      × (string_field v "section" ≡ f.section)
      × (string_field v "resource" ≡ f.resource)
      × (string_field v "rule_id" ≡ f.rule_id)
      × (string_field v "stable_key" ≡ f.stable_key)
      × (string_field v "severity" ≡ severity_text f.severity)
      × (boolean (field "acknowledged" v) ≡ f.acknowledged)

  serialize_finding-Reads : (f : Finding) → Reads f (serialize_finding replace f)
  unfolding serialize_finding string_field string field boolean
  serialize_finding-Reads f = (
    refl,
    refl,
    refl,
    string-nullable f.resource,
    string-nullable f.rule_id,
    string-nullable f.stable_key,
    refl,
    refl,
  )

  -- Two lists of one length, with the finding that each value stands for.
  abbrev pub Pairwise : List Finding → List Json → Type 0
  Pairwise [] [] = Unit
  Pairwise [] (v ∷ vs) = ⊥
  Pairwise (f ∷ fs) [] = ⊥
  Pairwise (f ∷ fs) (v ∷ vs) = Reads f v × Pairwise fs vs

  All-Reads : (fs : List Finding) → Pairwise fs (map (serialize_finding replace) fs)
  All-Reads [] = tt
  All-Reads (f ∷ fs) = (serialize_finding-Reads f, All-Reads fs)

  -- The findings of a report are those of the state, in order, and read back as they were: ID, code,
  -- section, resource, rule, stable key, severity and acknowledgement.
  pub build-Pairwise :
      (s : State) (cfg : Config) (context generated_at version : String)
      → Pairwise s.findings
          (finding_objects (build replace matches s cfg context generated_at version))
  build-Pairwise s cfg context generated_at version =
      subst (Pairwise s.findings) (sym (build-objects s cfg context generated_at version).0)
        (All-Reads s.findings)
