-- ===== src/Model/Finding/Confidence.antt =====
-- The confidence that `NewFinding` gives a finding.
use k8s_diagnose.Prelude.{String, List, ◌≡◌, ◌≤◌, ℤ, pos, negsuc, arith, ◌⊎◌}
use k8s_diagnose.Redact.Clean.{IsClean, sanitize_text-IsClean}
use k8s_diagnose.Model.Types.{Severity, Evidence, issue, warning, unavailable, candidate}
use k8s_diagnose.Model.Finding.{default_confidence, adjust_confidence, new_finding}

-- A number from 0 to 100.
abbrev pub IsPercent : ℤ → Type 0
IsPercent (pos n) = n ≤ 100
IsPercent (negsuc n) = ⊥

-- A negative confidence asks for the default of the severity, one above 100 is cut to 100, and any
-- other is kept.
abbrev pub Adjusted : Severity → ℤ → ℤ → Type 0
Adjusted severity (negsuc n) c = c ≡ default_confidence severity
Adjusted severity (pos n) c = ((n ≤ 100) × (c ≡ pos n)) ⊎ ((101 ≤ n) × (c ≡ pos 100))

adjust_confidence-Adjusted :
    (severity : Severity) (c : ℤ)
    → IsPercent (adjust_confidence severity c) × Adjusted severity c (adjust_confidence severity c)
unfolding adjust_confidence
adjust_confidence-Adjusted severity (pos n) = ground arith
adjust_confidence-Adjusted issue (negsuc n) = ground arith
adjust_confidence-Adjusted warning (negsuc n) = ground arith
adjust_confidence-Adjusted unavailable (negsuc n) = ground arith
adjust_confidence-Adjusted candidate (negsuc n) = ground arith

-- A finding of `NewFinding` has a confidence from 0 to 100: the default of its severity where a
-- negative one is asked for, 100 where more is asked for, and otherwise the one asked for. Its
-- message and its reason hold no terminal control and no bidirectional override.
pub new_finding-IsClean :
    (digest : String → String) (severity : Severity)
    (code section resource reason stable_key message : String) (c : ℤ) (evidence : List Evidence)
    → let f =
        new_finding digest severity code section resource reason stable_key message c evidence in
      IsPercent f.confidence
      × Adjusted severity c f.confidence
      × IsClean f.message
      × IsClean f.reason
unfolding new_finding
new_finding-IsClean digest severity code section resource reason stable_key message c evidence =
    let (percent, adjusted) = adjust_confidence-Adjusted severity c in
    (percent, adjusted, sanitize_text-IsClean message, sanitize_text-IsClean reason)
