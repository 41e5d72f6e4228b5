-- ===== src/Report/Build/Stored.antt =====
-- A finding of the current report against the same finding of a stored one.
use k8s_diagnose.Prelude.{
  String, Bool, true, false, some, List, [], ◌∷◌, ◌≡◌, refl, subst, inl, inr, arith, ◌==◌, ◌&&◌,
  if◌then◌else◌, Bool-cases, Memᴰ, contains_Memᴰ,
}
use mathlib.Core.List.Memᴰ
use k8s_diagnose.Model.Types.{Acknowledgement, Finding}
use k8s_diagnose.Redact.Masking.{Expression, is_sensitive_key}
use k8s_diagnose.Report.Json.{Json, json_eq, fields_eq, field, text}
use k8s_diagnose.Report.Sanitize.{mask_structured, sort_fields, insert_field}
use k8s_diagnose.Report.Serialize.{serialize_finding, acknowledgement_json, entry_unless_empty}
use k8s_diagnose.Report.Compare.{stable_finding, stable_fields, fields_at}

module _ (replace : Expression → String → String → String)
    (matches : Expression → String → Bool) where
  last_field : (a b : Bool) → b ≡ false → (a && b) ≡ false
  last_field a b h = ground arith

  -- The stored struct is a map, whose keys are written in another order.
  acknowledgement-differs :
      (a : Acknowledgement)
      → json_eq
          (mask_structured replace matches (acknowledgement_json replace (some a)))
          (acknowledgement_json replace (some a))
        ≡ false
  unfolding mask_structured acknowledgement_json entry_unless_empty json_eq sort_fields insert_field
  acknowledgement-differs a = elim (Bool-cases (a.source == "")) [
    | inl no_source ↦ elim (Bool-cases (a.workload == "")) [
      | inl no_workload ↦ rw (no_source, no_workload) refl
      | inr workload ↦ rw (no_source, workload) refl
    ]
    | inr source ↦ elim (Bool-cases (a.workload == "")) [
      | inl no_workload ↦ rw (source, no_workload) refl
      | inr workload ↦ rw (source, workload) refl
    ]
  ]

  if-differs :
      (b : Bool) (v w : Json)
      → json_eq v w ≡ false
      → json_eq (text "<masked>") w ≡ false
      → json_eq (if b then text "<masked>" else v) w ≡ false
  if-differs true v w h k = k
  if-differs false v w h k = h

  masked-differs :
      (a : Acknowledgement)
      → json_eq (text "<masked>") (acknowledgement_json replace (some a)) ≡ false
  unfolding acknowledgement_json json_eq
  masked-differs a = refl

  field-differs :
      (f : Finding) (a : Acknowledgement)
      → f.acknowledgement ≡ some a
      → json_eq
          (field "acknowledgement" (mask_structured replace matches (serialize_finding replace f)))
          (field "acknowledgement" (serialize_finding replace f))
        ≡ false
  unfolding mask_structured serialize_finding sort_fields insert_field field
  field-differs f a e = rw e (
      if-differs (is_sensitive_key matches "acknowledgement") _ _ (acknowledgement-differs a)
        (masked-differs a))

fields_at-differs :
    (k : String) (ks : List String) (v w : Json)
    → Memᴰ k ks
    → json_eq (field k v) (field k w) ≡ false
    → fields_eq (fields_at ks v) (fields_at ks w) ≡ false
unfolding fields_at json_eq
fields_at-differs k [] v w m h = absurd (Memᴰ.not-nil m)
fields_at-differs k (j ∷ ks) v w (Memᴰ.head e) h =
    ground (arith, subst (λ i. json_eq (field i v) (field i w) ≡ false) e h)
fields_at-differs k (j ∷ ks) v w (Memᴰ.tail m) h = ground (arith, fields_at-differs k ks v w m h)

-- For an acknowledged finding the comparison of the stable parts fails between the current report and
-- the same finding as a stored report has it, although nothing has changed: the current one holds the
-- acknowledgement as a struct, and the stored one as a map, which are written in different orders.
pub stored-differs :
    (replace : Expression → String → String → String) (matches : Expression → String → Bool)
    (f : Finding) (a : Acknowledgement)
    → f.acknowledgement ≡ some a
    → json_eq
        (stable_finding (mask_structured replace matches (serialize_finding replace f)))
        (stable_finding (serialize_finding replace f))
      ≡ false
unfolding stable_finding json_eq
stored-differs replace matches f a e =
    fields_at-differs "acknowledgement" stable_fields
      (mask_structured replace matches (serialize_finding replace f)) (serialize_finding replace f)
      (contains_Memᴰ "acknowledgement" stable_fields refl) (field-differs replace matches f a e)
