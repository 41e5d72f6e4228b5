-- ===== src/Redact/Masking.antt =====
-- `MaskSecrets` and `IsSensitiveKey` of internal/redact/redact.go, and `MaskSecrets` of
-- internal/console/console.go. `replace` stands for `ReplaceAllString` of the regular expressions
-- that the file compiles, and `matches` for `MatchString`.
use k8s_diagnose.Prelude.{String, Bool, not, ◌==◌, ◌||◌, if◌then◌else◌}
use k8s_diagnose.Redact.{sanitize_text}

-- The compiled expressions, named as the variables are.
pub data Expression : Type 0 where
  authorization cookie_header bearer key_value sensitive_key : Expression
  uri_credential jwt vendor_token private_key : Expression

module _ (replace : Expression → String → String → String) where
  unfoldable pub redact_secrets : String → String
  unfolding sanitize_text
  redact_secrets value =
      let v1 = replace private_key "<masked-private-key>" (sanitize_text value) in
      let v2 = replace authorization "${1}<masked>" v1 in
      let v3 = replace cookie_header "${1}<masked>" v2 in
      let v4 = replace bearer "Bearer <masked>" v3 in
      let v5 = replace key_value "${1}<masked>" v4 in
      let v6 = replace uri_credential "${1}<masked>${2}" v5 in
      let v7 = replace jwt "<masked-jwt>" v6 in
      let v8 = replace vendor_token "<masked-token>" v7 in if value == "" then value else v8

  -- The one of the console, which redacts only where masking is on.
  unfoldable pub mask_secrets : String → Bool → String
  unfolding sanitize_text redact_secrets
  mask_secrets value enabled =
      let clean = sanitize_text value in
      if not enabled || clean == "" then clean else redact_secrets clean

module _ (matches : Expression → String → Bool) where
  unfoldable pub is_sensitive_key : String → Bool
  is_sensitive_key value = matches sensitive_key value
