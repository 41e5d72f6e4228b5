-- ===== src/Model/Finding.antt =====
-- Findings: `NewFinding`, `defaultConfidence`, `compactEvidence`, `Fingerprint`, `CorrelationKey`.
-- `digest` stands for the first 20 hexadecimal digits of the SHA-256 sum of a text.
pub mod Confidence
pub mod Compact
use k8s_diagnose.Prelude.{
  ℕ, String, Bool, true, false, Option, none, List, [], ◌∷◌, ℤ, pos, int_ltb, if◌then◌else◌, ◌==◌,
  contains, trim_space, join, concat, ◌||◌,
}
use k8s_diagnose.Redact.{sanitize_text}
use k8s_diagnose.Model.Types.{
  Severity, issue, warning, unavailable, candidate, severity_text, separator, Evidence, Finding,
}

unfoldable pub default_confidence : Severity → ℤ
default_confidence issue = pos 95
default_confidence warning = pos 70
default_confidence unavailable = pos 100
default_confidence candidate = pos 40

-- The two adjustments at the start of `NewFinding`.
unfoldable pub adjust_confidence : Severity → ℤ → ℤ
unfolding default_confidence
adjust_confidence severity confidence =
    let chosen = (if int_ltb confidence (pos 0) then default_confidence severity else confidence) in
    if int_ltb (pos 100) chosen then pos 100 else chosen

-- `value.Value = strings.TrimSpace(redact.SanitizeText(value.Value))`
unfoldable pub clean_evidence : Evidence → Evidence
unfolding sanitize_text trim_space
clean_evidence e = record e { value = trim_space (sanitize_text e.value) }

unfoldable pub evidence_key : Evidence → String
unfolding concat
evidence_key e = concat (e.kind ∷ separator ∷ e.key ∷ separator ∷ e.value ∷ [])

-- The loop of `compactEvidence`; `seen` holds the keys of the values that were passed on.
unfoldable pub compact_from : List String → List Evidence → List Evidence
compact_from seen [] = []
compact_from seen (e ∷ es) =
    let value = clean_evidence e in
    let skipped = compact_from seen es in
    let added = value ∷ compact_from (evidence_key value ∷ seen) es in
    if value.value == "" || contains seen (evidence_key value) then skipped else added

unfoldable pub compact_evidence : List Evidence → List Evidence
unfolding compact_from clean_evidence evidence_key
compact_evidence values = compact_from [] values

unfoldable pub correlation_key : Finding → String
unfolding join
correlation_key f = join separator (f.code ∷ f.resource ∷ f.stable_key ∷ [])

module _ (digest : String → String) where
  unfoldable pub fingerprint : Finding → String
  unfolding join
  fingerprint f =
      let stable = (if f.stable_key == "" then f.reason else f.stable_key) in
      digest (join separator (f.code ∷ f.resource ∷ severity_text f.severity ∷ stable ∷ []))

  unfoldable pub new_finding :
      Severity
      → (code section resource reason stable_key message : String) → ℤ
      → List Evidence
      → Finding
  unfolding adjust_confidence compact_evidence fingerprint
  new_finding severity code section resource reason stable_key message confidence evidence =
      let f : Finding = record {
        id = "";
        rule_id = "";
        code = code;
        severity = severity;
        section = section;
        message = sanitize_text message;
        resource = resource;
        reason = sanitize_text reason;
        stable_key = stable_key;
        confidence = adjust_confidence severity confidence;
        evidence = compact_evidence evidence;
        acknowledged = false;
        acknowledgement = none;
      } in
      record f { id = fingerprint f }
