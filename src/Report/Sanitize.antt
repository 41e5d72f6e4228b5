-- ===== src/Report/Sanitize.antt =====
-- `maskStructured`, which is `Sanitize`, of internal/report/report.go.
pub mod Masked
use k8s_diagnose.Prelude.{String, Bool, true, false, if◌then◌else◌, text_lt}
use k8s_diagnose.Redact.Masking.{Expression, mask_secrets, is_sensitive_key}
use k8s_diagnose.Report.Json.{
  Json, Items, Fields, null, bool, number, text, array, object, no_items, item, no_fields, entry,
}

-- The entries in the order of their keys, as a map is written.
unfoldable pub insert_field : String → Json → Fields → Fields
insert_field k v no_fields = entry k v no_fields
insert_field k v (entry j w fs) =
    let rest = insert_field k v fs in
    if text_lt j k then entry j w rest else entry k v (entry j w fs)

unfoldable pub sort_fields : Fields → Fields
unfolding insert_field
sort_fields no_fields = no_fields
sort_fields (entry k v fs) = insert_field k v (sort_fields fs)

module _ (replace : Expression → String → String → String)
    (matches : Expression → String → Bool) where
  -- A struct is encoded and decoded first, which makes it a map.
  unfoldable mutual
    unfolding mask_secrets is_sensitive_key sort_fields

    pub mask_structured : Json → Json
    mask_structured null = null
    mask_structured (bool b) = bool b
    mask_structured (number n) = number n
    mask_structured (text s) = text (mask_secrets replace s true)
    mask_structured (array xs) = array (mask_items xs)
    mask_structured (object fs) = object (sort_fields (mask_fields fs))

    pub mask_items : Items → Items
    mask_items no_items = no_items
    mask_items (item x xs) = item (mask_structured x) (mask_items xs)

    pub mask_fields : Fields → Fields
    mask_fields no_fields = no_fields
    mask_fields (entry k v fs) =
        let masked = mask_structured v in
        entry k (if is_sensitive_key matches k then text "<masked>" else masked) (mask_fields fs)
