-- ===== src/Kube/Replay/Agreement.antt =====
-- When the scope of a saved snapshot allows a diagnosis.
use k8s_diagnose.Prelude.{
  String, Bool, true, false, not, Option, none, some, ◌≡◌, ◌↔◌, ◌∙◌, refl, sym, ap, ◌==◌, eq_iff,
  eq_refl, if◌then◌else◌,
}
use k8s_diagnose.Kube.Replay.{SnapshotScope, same_bool, validate_replay_scope}

same_bool-Path : (a b : Bool) → not (same_bool a b) ≡ false → a ≡ b
same_bool-Path true true h = refl
same_bool-Path true false h = h
same_bool-Path false true h = sym h
same_bool-Path false false h = refl

same_bool_refl : (a : Bool) → not (same_bool a a) ≡ false
same_bool_refl true = refl
same_bool_refl false = refl

abbrev pub Agrees : Option SnapshotScope → String → String → Bool → Type 0
Agrees file namespace mode unused =
    (s : SnapshotScope) × (file ≡ some s)
    × ((mode == "") ≡ false)
    × (s.namespace ≡ namespace)
    × (s.mode ≡ mode)
    × (s.unused ≡ unused)

some_not_none {ℓ} : {A : Type ℓ} (m : A) → some m ≡ none → ⊥
some_not_none m h = cc

guarded :
    (b : Bool) (m : String) (rest : Option String)
    → (if b then some m else rest) ≡ none
    → (b ≡ false) × (rest ≡ none)
guarded true m rest h = absurd (some_not_none m h)
guarded false m rest h = (refl, h)

not_is_false : (b : Bool) → not b ≡ false → b ≡ true
not_is_false true h = refl
not_is_false false h = sym h

agreed :
    (t : SnapshotScope) (namespace mode : String) (unused : Bool)
    → (mode == "") ≡ false
    → t.namespace ≡ namespace
    → t.mode ≡ mode
    → t.unused ≡ unused
    → validate_replay_scope (some t) namespace mode unused ≡ none
unfolding validate_replay_scope
agreed t namespace mode unused named a b c =
    rw (a, b, c, named, eq_refl namespace, eq_refl mode, same_bool_refl unused) refl

-- A saved snapshot is replayed without an error exactly when it has a scope, and that scope has the
-- namespace, the mode and the setting for unused resources of the run, and a mode that is not empty.
pub validate_replay_scope_iff :
    (file : Option SnapshotScope) (namespace mode : String) (unused : Bool)
    → (validate_replay_scope file namespace mode unused ≡ none) ↔ Agrees file namespace mode unused
unfolding validate_replay_scope
validate_replay_scope_iff none namespace mode unused = (
  λ h. absurd (some_not_none _ h),
  λ (s, missing, a, b, c, d). absurd (some_not_none s (sym missing)),
)
validate_replay_scope_iff (some s) namespace mode unused = (
  λ h.
      let (named, h1) = guarded (s.mode == "") _ _ h in
      let (a, h2) = guarded (not (s.namespace == namespace)) _ _ h1 in
      let (b, h3) = guarded (not (s.mode == mode)) _ _ h2 in
      let (c, h4) = guarded (not (same_bool s.unused unused)) _ _ h3 in
      let modes = (eq_iff s.mode mode).0 (not_is_false (s.mode == mode) b) in
      (
        s,
        refl,
        ap (λ m. m == "") (sym modes) ∙ named,
        (eq_iff s.namespace namespace).0 (not_is_false (s.namespace == namespace) a),
        modes,
        same_bool-Path s.unused unused c,
      ),
  λ (t, p, named, a, b, c).
      ap (λ f. validate_replay_scope f namespace mode unused) p
      ∙ agreed t namespace mode unused named a b c,
)
