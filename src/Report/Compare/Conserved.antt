-- ===== src/Report/Compare/Conserved.antt =====
-- A comparison accounts for every value of both reports once.
use k8s_diagnose.Prelude.{◌≡◌, ◌+◌, length}
use k8s_diagnose.Report.Json.{Json}
use k8s_diagnose.Report.Findings.{Objects}
use k8s_diagnose.Report.Compare.{Difference}
use k8s_diagnose.Report.Compare.Placed.{Placed}
use k8s_diagnose.Report.Compare.Sizes.{with_after}

abbrev pub Accounts : Difference → Objects → Objects → Type 0
Accounts d b a =
    (d.unchanged
        + length d.changed
        + length d.worsened
        + length d.improved
        + length d.resolved
        + length d.unknown
      ≡ length b)
    × (d.unchanged
          + length d.changed
          + length d.worsened
          + length d.improved
          + length d.new
          + with_after d.unknown
        ≡ length a)
