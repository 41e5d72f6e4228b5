-- ===== src/Report/Sanitize/Masked.antt =====
-- What leaves the program: masked texts, and no value under a sensitive key.
use k8s_diagnose.Prelude.{
  String, Bool, true, false, ◌≡◌, refl, ◌⊎◌, inl, inr, if◌then◌else◌, Bool-cases, text_lt,
}
use k8s_diagnose.Redact.Masking.{Expression, mask_secrets, is_sensitive_key}
use k8s_diagnose.Report.Json.{
  Json, Items, Fields, null, bool, number, text, array, object, no_items, item, no_fields, entry,
}
use k8s_diagnose.Report.Sanitize.{
  insert_field, sort_fields, mask_structured, mask_items, mask_fields,
}

module _ (replace : Expression → String → String → String)
    (matches : Expression → String → Bool) where
  -- Each text is one that was masked, or stands for the value of a sensitive key.
  unfoldable mutual
    pub IsMasked : Json → Type 0
    IsMasked null = Unit
    IsMasked (bool b) = Unit
    IsMasked (number n) = Unit
    IsMasked (text s) = (o : String) × (s ≡ mask_secrets replace o true)
    IsMasked (array xs) = ItemsMasked xs
    IsMasked (object fs) = FieldsMasked fs

    pub ItemsMasked : Items → Type 0
    ItemsMasked no_items = Unit
    ItemsMasked (item x xs) = IsMasked x × ItemsMasked xs

    pub FieldsMasked : Fields → Type 0
    FieldsMasked no_fields = Unit
    FieldsMasked (entry k v fs) =
        (((is_sensitive_key matches k ≡ true) × (v ≡ text "<masked>"))
          ⊎ ((is_sensitive_key matches k ≡ false) × IsMasked v))
        × FieldsMasked fs

  FieldsMasked-insert :
      (k : String) (v : Json) (fs : Fields)
      → FieldsMasked (entry k v fs)
      → FieldsMasked (insert_field k v fs)
  unfolding insert_field FieldsMasked
  FieldsMasked-insert k v no_fields h = h
  FieldsMasked-insert k v (entry j w fs) (p, (q, h)) = elim (Bool-cases (text_lt j k)) [
    | inl before ↦ rw before (q, FieldsMasked-insert k v fs (p, h))
    | inr after ↦ rw after (p, (q, h))
  ]

  FieldsMasked-sort : (fs : Fields) → FieldsMasked fs → FieldsMasked (sort_fields fs)
  unfolding sort_fields FieldsMasked
  FieldsMasked-sort no_fields h = tt
  FieldsMasked-sort (entry k v fs) (p, h) =
      FieldsMasked-insert k v (sort_fields fs) (p, FieldsMasked-sort fs h)

  -- What the test of a key leaves of its value.
  by_key :
      (b : Bool) (v : Json)
      → IsMasked v
      → ((b ≡ true) × ((if b then text "<masked>" else v) ≡ text "<masked>"))
        ⊎ ((b ≡ false) × IsMasked (if b then text "<masked>" else v))
  by_key true v h = inl (refl, refl)
  by_key false v h = inr (refl, h)

  mutual
    unfolding mask_structured IsMasked

    mask_structured-IsMasked : (v : Json) → IsMasked (mask_structured replace matches v)
    mask_structured-IsMasked null = tt
    mask_structured-IsMasked (bool b) = tt
    mask_structured-IsMasked (number n) = tt
    mask_structured-IsMasked (text s) = (s, refl)
    mask_structured-IsMasked (array xs) = mask_items-Masked xs
    mask_structured-IsMasked (object fs) =
        FieldsMasked-sort (mask_fields replace matches fs) (mask_fields-Masked fs)

    mask_items-Masked : (xs : Items) → ItemsMasked (mask_items replace matches xs)
    mask_items-Masked no_items = tt
    mask_items-Masked (item x xs) = (mask_structured-IsMasked x, mask_items-Masked xs)

    mask_fields-Masked : (fs : Fields) → FieldsMasked (mask_fields replace matches fs)
    mask_fields-Masked no_fields = tt
    mask_fields-Masked (entry k v fs) = (
      by_key (is_sensitive_key matches k) (mask_structured replace matches v)
          (mask_structured-IsMasked v),
      mask_fields-Masked fs,
    )

-- What `Sanitize` gives has only texts that `MaskSecrets` gave, or `<masked>`: and that is the value
-- of every sensitive key, at any depth.
pub sanitize-IsMasked :
    (replace : Expression → String → String → String) (matches : Expression → String → Bool)
    (v : Json)
    → IsMasked replace matches (mask_structured replace matches v)
sanitize-IsMasked replace matches v = mask_structured-IsMasked replace matches v
