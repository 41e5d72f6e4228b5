-- ===== src/Rules/Registry/Accepted.antt =====
-- What the registry accepts, and the inputs that it asks for.
use k8s_diagnose.Prelude.{
  String, Option, none, some, List, [], ◌∷◌, ◌++◌, ◌≡◌, ◌≤◌, ◌↔◌, inl, inr, refl, arith,
  if◌then◌else◌, ◌==◌, ◌&&◌, ◌||◌, eq_iff, eq_refl, contains, contains-append, any, count_if,
  count_if-pos, any_iff, Bool-cases, Memᴰ, ap, ◌∙◌, sym,
}
use mathlib.Core.List.Memᴰ
use k8s_diagnose.Rules.Registry.{
  Rule, accept, check_ids, new_registry, metadata_for, enabled, required_keys,
}

-- The set of `RequiredKeys` holds a key exactly when a rule that the mode enables lists it as
-- required or optional.
pub required_keys_lem :
    (rules : List Rule) (mode key : String)
    → contains (required_keys rules mode) key
      ≡ any
          (λ r.
            enabled r.metadata mode
            && (contains r.metadata.required key || contains r.metadata.optional key))
          rules
unfolding required_keys
required_keys_lem [] mode key = refl
required_keys_lem (r ∷ rs) mode key =
    let rest = required_keys_lem rs mode key in
    let here =
      contains-append key (r.metadata.required ++ r.metadata.optional) (required_keys rs mode) in
    let more = contains-append key r.metadata.required r.metadata.optional in
    elim (Bool-cases (enabled r.metadata mode)) [
      | inl on ↦ rw on (
          here
          ∙ ap (λ b. b || contains (required_keys rs mode) key) more
          ∙ ap (λ b. (contains r.metadata.required key || contains r.metadata.optional key) || b)
              rest)
      | inr off ↦ rw off rest
    ]

check_ids_iff :
    (rules : List Rule) (seen : List String)
    → (check_ids rules seen ≡ none) ↔ (
        (id : String)
        → count_if (λ r. r.metadata.id == id) rules
          ≤ (if (id == "") || contains seen id then 0 else 1))
unfolding check_ids
check_ids_iff [] seen = (λ _ id. ground arith, λ _. refl)
check_ids_iff (r ∷ rs) seen =
    let id = r.metadata.id in
    let (to, from) = check_ids_iff rs (id ∷ seen) in
    (
      λ e k.
          let left : check_ids rs (id ∷ seen) ≡ none = ground (arith, e) in
          ground (arith, e, to left k, eq_iff id k, eq_iff id "", eq_iff k ""),
      λ h.
          let rest = from (λ k. ground (arith, h k, eq_iff id k)) in
          ground (arith, h id, rest, eq_refl id),
    )

accept_iff : (o : Option String) (rules : List Rule) → (accept o rules ≡ inr rules) ↔ (o ≡ none)
accept_iff none rules = (λ _. refl, λ _. refl)
accept_iff (some message) rules = (λ e. cc, λ e. cc)

-- `NewRegistry` accepts a list of rules exactly when no rule has an empty ID and no two have the
-- same; it then holds the rules as they are.
pub new_registry_iff :
    (rules : List Rule)
    → (new_registry rules ≡ inr rules)
      ↔ ((id : String) → count_if (λ r. r.metadata.id == id) rules ≤ (if id == "" then 0 else 1))
unfolding new_registry
new_registry_iff rules =
    let (to, from) = check_ids_iff rules [] in
    let (opens, closes) = accept_iff (check_ids rules []) rules in
    (λ e id. ground (arith, to (opens e) id), λ h. closes (from (λ id. ground (arith, h id))))

check_ids-metadata_for :
    (r : Rule) (rules : List Rule)
    → Memᴰ r rules
    → count_if (λ q. q.metadata.id == r.metadata.id) rules ≤ 1
    → metadata_for rules r.metadata.id ≡ some r.metadata
unfolding metadata_for
check_ids-metadata_for r [] m once = absurd (Memᴰ.not-nil m)
check_ids-metadata_for r (q ∷ rules) (Memᴰ.head e) once = rw (sym e, eq_refl r.metadata.id) refl
check_ids-metadata_for r (q ∷ rules) (Memᴰ.tail m) once =
    elim (Bool-cases (q.metadata.id == r.metadata.id)) [
      | inl same ↦ absurd (
          omega (
            arith,
            rw same at once,
            (count_if-pos (λ p. p.metadata.id == r.metadata.id) rules).1 (
                (any_iff (λ p. p.metadata.id == r.metadata.id) rules).1
                  (r, m, eq_refl r.metadata.id)),
          ))
      | inr other ↦ rw other (check_ids-metadata_for r rules m (rw other at once))
    ]

-- In a registry that is accepted, the metadata of each rule are found by the rule's ID.
pub metadata_for-new_registry :
    (rules : List Rule) (r : Rule)
    → new_registry rules ≡ inr rules
    → Memᴰ r rules
    → metadata_for rules r.metadata.id ≡ some r.metadata
metadata_for-new_registry rules r accepted m =
    let once = (new_registry_iff rules).0 accepted r.metadata.id in
    check_ids-metadata_for r rules m (ground (arith, once))
