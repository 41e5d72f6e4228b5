-- ===== src/History/Store.antt =====
-- `Load` and `Append` of internal/history/history.go, over the rows of the table, the newest first:
-- what its SQL statements select, insert and delete. A document is written and read back unchanged.
-- Opening the file, its schema and failures of the database are left out.
pub mod Kept
use k8s_diagnose.Prelude.{
  ℕ, zero, suc, String, Bool, true, false, not, Option, none, some, List, [], ◌∷◌, ◌++◌, ◌==◌, ◌&&◌,
  ◌||◌, ◌⊎◌, inl, inr, if◌then◌else◌, concat, keep, ℤ, pos, int_ltb, pos_part,
}
use mathlib.Core.List.{reverse}
use k8s_diagnose.Redact.Masking.{Expression}
use k8s_diagnose.Report.Json.{
  Json, Items, Fields, null, bool, number, text, array, object, no_items, item, no_fields, entry,
  sprint, json_eq, field, objects, string_field,
}
use k8s_diagnose.Report.Findings.{finding_objects, root_objects}
use k8s_diagnose.Report.Compare.{fields_at, stable_items}
use k8s_diagnose.Report.Sanitize.{mask_structured}
use k8s_diagnose.Report.Build.{schema}

pub record Row : Type 0 where
  pub target : String × String × String
  pub document : Json

-- `targetKey`
unfoldable pub target_key : Json → String × String × String
unfolding field string_field
target_key document =
    let target = field "target" document in
    (string_field target "context", string_field target "namespace", string_field target "mode")

abbrev pub same_target : String × String × String → String × String × String → Bool
same_target (c, n, m) (c', n', m') = c == c' && n == n' && m == m'

abbrev is_text : String → Json → Bool
is_text s (text t) = t == s
is_text s _ = false

abbrev is_array : Json → Bool
is_array (array xs) = true
is_array _ = false

-- The checks of `decodeDocument` on a document; the left side is the error.
unfoldable pub decode_document : Json → String ⊎ Json
unfolding field sprint concat
decode_document document =
    if not (is_text schema (field "schema" document))
    then inl (concat ("履歴DB内の診断スキーマには対応していません: " ∷ sprint (field "schema" document) ∷ []))
    else if is_array (field "findings" document)
    then inr document
    else inl "履歴DB内に不正な診断レコードがあります"

unfoldable pub stable_findings : List Json → Items
unfolding fields_at
stable_findings [] = no_items
stable_findings (f ∷ fs) =
    item (object (fields_at ("id" ∷ "severity" ∷ "confidence" ∷ "acknowledged" ∷ []) f))
      (stable_findings fs)

unfoldable pub stable_roots : List Json → Items
unfolding fields_at stable_items objects field
stable_roots [] = no_items
stable_roots (r ∷ rs) =
    item
      (object (
        entry "cause"
          (object
            (fields_at ("id" ∷ "severity" ∷ "confidence" ∷ "acknowledged" ∷ []) (field "cause" r)))
          (entry "direct_impacts" (array (stable_items (objects (field "direct_impacts" r)))) (
            entry "propagated_impacts"
              (array (stable_items (objects (field "propagated_impacts" r))))
              (fields_at
                ("id" ∷ "confirmed" ∷ "classification" ∷ "confidence" ∷ "health_penalty"
                  ∷ "impact_summary" ∷ "remediations" ∷ "commands" ∷ "related_finding_ids" ∷ [])
                r)))))
      (stable_roots rs)

-- What `stateKey` encodes; the order of its keys does not matter, since two are compared.
unfoldable pub state_key : Json → Json
unfolding stable_findings stable_roots finding_objects root_objects field
state_key document = object (
    entry "findings" (array (stable_findings (finding_objects document))) (
      entry "observations" (field "observations" document) (
        entry "root_causes" (array (stable_roots (root_objects document)))
          (entry "summary" (field "summary" document) no_fields))))

unfoldable pub take : ℕ → List Row → List Row
take zero rows = []
take (suc n) [] = []
take (suc n) (r ∷ rs) = r ∷ take n rs

-- `WHERE context_name=? AND namespace_name=? AND mode_name=?`
unfoldable pub rows_of : String × String × String → List Row → List Row
rows_of target rows = keep (λ (r : Row). same_target r.target target) rows

abbrev pub join_decoded : String ⊎ Json → String ⊎ List Json → String ⊎ List Json
join_decoded (inl e) rest = inl e
join_decoded (inr d) (inl e) = inl e
join_decoded (inr d) (inr ds) = inr (d ∷ ds)

-- The loop over the rows, which ends at the first document that is no report.
unfoldable pub decode_rows : List Row → String ⊎ List Json
unfolding decode_document
decode_rows [] = inr []
decode_rows (r ∷ rs) = join_decoded (decode_document r.document) (decode_rows rs)

abbrev pub oldest_first : String ⊎ List Json → String ⊎ List Json
oldest_first (inl e) = inl e
oldest_first (inr ds) = inr (reverse ds)

unfoldable pub load : List Row → Json → ℤ → String ⊎ List Json
unfolding rows_of target_key take decode_rows
load rows current limit =
    if int_ltb limit (pos 1)
    then inr []
    else oldest_first (decode_rows (take (pos_part limit) (rows_of (target_key current) rows)))

-- What `retain` keeps: at least one row.
unfoldable pub retained : ℤ → ℕ
retained retain = if int_ltb retain (pos 1) then 1 else pos_part retain

abbrev pub same_state : String ⊎ Json → Json → String ⊎ Bool
unfolding json_eq state_key
same_state (inl e) document = inl e
same_state (inr previous) document = inr (json_eq (state_key previous) (state_key document))

-- Whether the newest row of the target has the state that is to be stored.
unfoldable pub is_unchanged : List Row → Json → String ⊎ Bool
unfolding decode_document json_eq state_key
is_unchanged [] document = inr false
is_unchanged (r ∷ rs) document = same_state (decode_document r.document) document

unfoldable pub insert_row : List Row → Json → ℤ → List Row
unfolding take retained target_key
insert_row rows document retain =
    take (retained retain) (record { target = target_key document; document = document } ∷ rows)

-- The result, and whether a row was stored.
abbrev pub store_unless : String ⊎ Bool → List Row → Json → ℤ → String ⊎ (List Row × Bool)
unfolding insert_row
store_unless (inl e) rows document retain = inl e
store_unless (inr true) rows document retain = inr (rows, false)
store_unless (inr false) rows document retain = inr (insert_row rows document retain, true)

module _ (replace : Expression → String → String → String)
    (matches : Expression → String → Bool) where
  unfoldable pub append : List Row → Json → ℤ → Bool → String ⊎ (List Row × Bool)
  unfolding store_unless is_unchanged mask_structured rows_of target_key
  append rows document retain skip =
      let clean = mask_structured replace matches document in
      let same = is_unchanged (rows_of (target_key clean) rows) clean in
      store_unless (if skip then same else inr false) rows clean retain
