-- ===== src/History/Flaps/Runs.antt =====
-- A flap has both states and reaches the threshold; and every key that does so is reported.
use k8s_diagnose.Prelude.{
  ◌+◌, if◌then◌else◌, ℕ, String, true, Option, none, some, List, [], ◌∷◌, ◌≡◌, ◌<◌, ◌≤◌, refl, sym,
  inl, inr, arith, subst, ℤ, pos, int_leb, length, Memᴰ, All, All-append, any_iff, Bool-cases,
}
use mathlib.Core.List.Memᴰ
use k8s_diagnose.Report.Json.{Json}
use k8s_diagnose.History.Flaps.{
  Evaluation, abnormal, unknown, normal, evaluation_eq, Trend, Sample, evaluated, is_flap,
  flap_trend, flaps, add_flaps, flaps_of, transitions_of, transitions_from, is_transition,
  contains_state,
}

transitions_from-le : (a : Evaluation) (bs : List Evaluation) → transitions_from a bs ≤ length bs
unfolding transitions_from
transitions_from-le a [] = omega arith
transitions_from-le a (b ∷ bs) = ground (arith, transitions_from-le b bs)

transitions_of-lt :
    (states : List Evaluation) → 0 < length states → transitions_of states < length states
unfolding transitions_of
transitions_of-lt [] h = omega (arith, h)
transitions_of-lt (a ∷ bs) h = omega (arith, transitions_from-le a bs)

evaluation_eq-Path : (a b : Evaluation) → evaluation_eq a b ≡ true → a ≡ b
evaluation_eq-Path abnormal abnormal h = refl
evaluation_eq-Path abnormal unknown h = cc
evaluation_eq-Path abnormal normal h = cc
evaluation_eq-Path unknown abnormal h = cc
evaluation_eq-Path unknown unknown h = refl
evaluation_eq-Path unknown normal h = cc
evaluation_eq-Path normal abnormal h = cc
evaluation_eq-Path normal unknown h = cc
evaluation_eq-Path normal normal h = refl

Memᴰ-of_contains_state :
    (target : Evaluation) (states : List Evaluation)
    → contains_state states target ≡ true
    → Memᴰ target states
unfolding contains_state
Memᴰ-of_contains_state target states h =
    let (s, m, e) = (any_iff (λ s. evaluation_eq s target) states).0 h in
    subst (λ x. Memᴰ x states) (evaluation_eq-Path s target e) m

-- A change between the two states that were evaluated.
abbrev pub changed : Evaluation → Evaluation → ℕ
changed abnormal normal = 1
changed normal abnormal = 1
changed _ _ = 0

abbrev pub changes_from : Evaluation → List Evaluation → ℕ
changes_from a [] = 0
changes_from a (b ∷ bs) = changed a b + changes_from b bs

-- How often the state changes from one sample to the next.
abbrev pub changes : List Evaluation → ℕ
changes [] = 0
changes (a ∷ bs) = changes_from a bs

is_transition-changed : (a b : Evaluation) → (if is_transition a b then 1 else 0) ≡ changed a b
unfolding is_transition
is_transition-changed abnormal abnormal = refl
is_transition-changed abnormal unknown = refl
is_transition-changed abnormal normal = refl
is_transition-changed unknown abnormal = refl
is_transition-changed unknown unknown = refl
is_transition-changed unknown normal = refl
is_transition-changed normal abnormal = refl
is_transition-changed normal unknown = refl
is_transition-changed normal normal = refl

transitions_from-changes :
    (a : Evaluation) (bs : List Evaluation) → transitions_from a bs ≡ changes_from a bs
unfolding transitions_from
transitions_from-changes a [] = refl
transitions_from-changes a (b ∷ bs) =
    ground (arith, transitions_from-changes b bs, is_transition-changed a b)

transitions_of-changes : (states : List Evaluation) → transitions_of states ≡ changes states
unfolding transitions_of
transitions_of-changes [] = refl
transitions_of-changes (a ∷ bs) = transitions_from-changes a bs

-- What a flap is: the key, its latest finding, and its states at the samples.
abbrev pub IsFlap : ℤ → List Sample → Trend → Type 0
IsFlap threshold samples t =
    (key : String) × (f : Json) × (evaluated samples key ≡ some (f, t.states))
    × (t ≡ flap_trend f t.states)
    × (t.transitions ≡ changes t.states)
    × (int_leb threshold (pos t.transitions) ≡ true)
    × (t.transitions < length t.states)
    × Memᴰ abnormal t.states
    × Memᴰ normal t.states

length-pos {ℓ} : {A : Type ℓ} {x : A} (xs : List A) → Memᴰ x xs → 0 < length xs
length-pos [] m = absurd (Memᴰ.not-nil m)
length-pos (y ∷ ys) m = omega arith

is_flap-parts :
    (threshold : ℤ) (states : List Evaluation)
    → is_flap threshold states ≡ true
    → (int_leb threshold (pos (transitions_of states)) ≡ true)
      × (contains_state states abnormal ≡ true)
      × (contains_state states normal ≡ true)
unfolding is_flap
is_flap-parts threshold states h = ground arith

contains_state-of_Memᴰ :
    (target : Evaluation) (states : List Evaluation)
    → Memᴰ target states
    → evaluation_eq target target ≡ true
    → contains_state states target ≡ true
unfolding contains_state
contains_state-of_Memᴰ target states m h =
    (any_iff (λ s. evaluation_eq s target) states).1 (target, m, h)

pub is_flap-of_parts :
    (threshold : ℤ) (states : List Evaluation)
    → int_leb threshold (pos (changes states)) ≡ true
    → Memᴰ abnormal states
    → Memᴰ normal states
    → is_flap threshold states ≡ true
unfolding is_flap
is_flap-of_parts threshold states enough bad good = ground (
  arith,
  enough,
  transitions_of-changes states,
  contains_state-of_Memᴰ abnormal states bad refl,
  contains_state-of_Memᴰ normal states good refl,
)

flaps_of-IsFlap :
    (threshold : ℤ) (samples : List Sample) (key : String) (f : Json) (states : List Evaluation)
    → evaluated samples key ≡ some (f, states)
    → All (IsFlap threshold samples) (flaps_of threshold f states)
unfolding is_flap flap_trend
flaps_of-IsFlap threshold samples key f states e = elim (Bool-cases (is_flap threshold states)) [
  | inr none_here ↦ rw none_here tt
  | inl flap ↦
      let (enough, bad, good) = is_flap-parts threshold states flap in
      let m = Memᴰ-of_contains_state abnormal states bad in
      rw flap (
        (
          key,
          f,
          e,
          refl,
          transitions_of-changes states,
          enough,
          transitions_of-lt states (length-pos states m),
          m,
          Memᴰ-of_contains_state normal states good,
        ),
        tt,
      )
]

module _ (threshold : ℤ) (samples : List Sample) where
  add_flaps-IsFlap :
      (key : String) (o : Option (Json × List Evaluation)) (rest : List Trend × ℕ)
      → evaluated samples key ≡ o
      → All (IsFlap threshold samples) rest.0
      → All (IsFlap threshold samples) (add_flaps threshold o rest).0
  unfolding add_flaps
  add_flaps-IsFlap key none rest e h = h
  add_flaps-IsFlap key (some (value, states)) (trends, unknowns) e h =
      All-append _ (flaps_of threshold value states) trends
        (flaps_of-IsFlap threshold samples key value states e) h

  pub flaps-IsFlap :
      (ks : List String) → All (IsFlap threshold samples) (flaps threshold samples ks).0
  unfolding flaps
  flaps-IsFlap [] = tt
  flaps-IsFlap (k ∷ ks) = add_flaps-IsFlap k (evaluated samples k) _ refl (flaps-IsFlap ks)

  Memᴰ-add_flaps :
      (t : Trend) (o : Option (Json × List Evaluation)) (rest : List Trend × ℕ)
      → Memᴰ t rest.0
      → Memᴰ t (add_flaps threshold o rest).0
  unfolding add_flaps
  Memᴰ-add_flaps t none rest m = m
  Memᴰ-add_flaps t (some (value, states)) (trends, unknowns) m =
      Memᴰ.append_right (flaps_of threshold value states) m

  add_flaps-reports :
      (f : Json) (states : List Evaluation) (rest : List Trend × ℕ)
      → is_flap threshold states ≡ true
      → Memᴰ (flap_trend f states) (add_flaps threshold (some (f, states)) rest).0
  unfolding add_flaps
  add_flaps-reports f states (trends, unknowns) flap = rw flap (Memᴰ.head refl)

  pub flaps-reports :
      (ks : List String) (k : String) (f : Json) (states : List Evaluation)
      → Memᴰ k ks
      → evaluated samples k ≡ some (f, states)
      → is_flap threshold states ≡ true
      → Memᴰ (flap_trend f states) (flaps threshold samples ks).0
  unfolding flaps
  flaps-reports [] k f states m e flap = absurd (Memᴰ.not-nil m)
  flaps-reports (j ∷ ks) k f states (Memᴰ.head h) e flap =
      rw (sym h, e) (add_flaps-reports f states (flaps threshold samples ks) flap)
  flaps-reports (j ∷ ks) k f states (Memᴰ.tail m) e flap =
      Memᴰ-add_flaps _ (evaluated samples j) _ (flaps-reports ks k f states m e flap)
