-- ===== src/Rules/RootCause/Confirmed.antt =====
-- A confidence that can confirm a root cause comes from a code that shows the cause itself.
use k8s_diagnose.Prelude.{true, false, ℤ, pos, negsuc, int_leb, int_min, ◌≡◌, arith, refl}
use k8s_diagnose.Model.Types.{Finding}
use k8s_diagnose.Rules.RootCause.{is_log, symptom_code, strong_root_code, root_assessment}

capped :
    (c : ℤ)
    → (int_leb (pos 90) (int_min c (pos 70)) ≡ false)
      × (int_leb (pos 90) (int_min c (pos 85)) ≡ false)
capped (pos n) = ground arith
capped (negsuc n) = (refl, refl)

-- A finding is assessed at a confidence of 90 or more only if its code is one that shows a cause
-- directly, is neither a symptom nor a log signature, and its own confidence is 90 or more.
pub root_assessment-confirms :
    (f : Finding)
    → int_leb (pos 90) (root_assessment f).0 ≡ true
    → (strong_root_code f.code ≡ true)
      × (symptom_code f.code ≡ false)
      × (is_log f ≡ false)
      × (int_leb (pos 90) f.confidence ≡ true)
unfolding root_assessment
root_assessment-confirms f h = ground (arith, capped f.confidence)
