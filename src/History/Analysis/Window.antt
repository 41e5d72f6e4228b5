-- ===== src/History/Analysis/Window.antt =====
-- The window of `Analyze`, and what `AddFindings` keeps.
use k8s_diagnose.Prelude.{
  ℕ, zero, suc, String, List, [], ◌∷◌, ◌++◌, ◌-◌, ◌≡◌, ◌≤◌, ◌∙◌, inl, inr, refl, sym, ap, arith, ℤ,
  pos, negsuc, length, length-append, ltb, All, All-append, min, Bool-cases, contains,
}
use mathlib.Core.List.{append-nil, append_assoc}
use k8s_diagnose.Report.Json.{Json}
use k8s_diagnose.Model.Types.{Finding, warning, State}
use k8s_diagnose.Model.Finding.{new_finding}
use k8s_diagnose.Model.State.{add, set_root_causes, finding_key}
use k8s_diagnose.Model.State.Invariant.{IsValid, add-IsValid, set_root_causes-IsValid}
use k8s_diagnose.History.Flaps.{Trend}
use k8s_diagnose.History.Analysis.{
  Analysis, window_of, drop, recent, trend_finding, add_trends, add_findings,
}

length-drop : (n : ℕ) (xs : List Json) → length (drop n xs) ≡ length xs - n
unfolding drop
length-drop zero xs = omega arith
length-drop (suc n) [] = omega arith
length-drop (suc n) (x ∷ xs) = omega (arith, length-drop n xs)

not_le_zero : (n : ℕ) → ¬ (suc n ≤ 0)
not_le_zero n h = omega (arith, h)

-- Dropping fewer than all before the last one leaves it at the end.
drop-append :
    (n : ℕ) (xs : List Json) (x : Json)
    → n ≤ length xs
    → (older : List Json) × (newer : List Json) × (xs ≡ older ++ newer)
      × (drop n (xs ++ x ∷ []) ≡ newer ++ x ∷ [])
unfolding drop
drop-append zero xs x h = ([], xs, refl, refl)
drop-append (suc n) [] x h = absurd (not_le_zero n h)
drop-append (suc n) (y ∷ ys) x h =
    let (older, newer, e, d) = drop-append n ys x (omega (arith, h)) in
    (y ∷ older, newer, ap (λ zs. y ∷ zs) e, d)

window_of-ge : (w : ℤ) → 2 ≤ window_of w
unfolding window_of
window_of-ge (pos n) = ground arith
window_of-ge (negsuc n) = ground arith

-- `Analyze` looks at the current report and at those before it without a gap: at no more than the
-- window, which is at least 2, and at all of them where they are fewer.
pub recent_lem :
    (previous : List Json) (current : Json) (w : ℤ)
    → (older : List Json) × (newer : List Json) × (previous ≡ older ++ newer)
      × (recent previous current w ≡ newer ++ current ∷ [])
      × (length (recent previous current w) ≡ min (window_of w) (suc (length previous)))
      × (2 ≤ window_of w)
unfolding recent
recent_lem previous current w =
    let n = length-append previous (current ∷ []) in
    elim (Bool-cases (ltb (window_of w) (length (previous ++ current ∷ [])))) [
      | inr all ↦
          rw all ([], previous, refl, refl, ground (arith, n, window_of-ge w), window_of-ge w)
      | inl more ↦
          let (older, newer, e, d) =
            drop-append (length (previous ++ current ∷ []) - window_of w) previous current
              (ground (arith, n, window_of-ge w)) in
          rw more (
            older,
            newer,
            e,
            d,
            ground (
              arith,
              n,
              length-drop (length (previous ++ current ∷ []) - window_of w)
                  (previous ++ current ∷ []),
            ),
            window_of-ge w,
          )
    ]

module _ (digest : String → String) where
  abbrev AllWarnings : List Finding → Type 0
  AllWarnings fs = All (λ f. f.severity ≡ warning) fs

  add_one :
      (s : State) (f : Finding)
      → f.severity ≡ warning
      → (added : List Finding) × ((add digest s f).findings ≡ s.findings ++ added)
        × AllWarnings added
        × (length added ≤ 1)
  unfolding add
  add_one s f w = elim (Bool-cases (contains s.seen (finding_key digest f))) [
    | inl old ↦ rw old ([], sym (append-nil s.findings), tt, omega arith)
    | inr new ↦ rw new (f ∷ [], refl, (w, tt), omega arith)
  ]

  add_trends-adds :
      (ts : List Trend) (s : State)
      → (added : List Finding) × ((add_trends digest s ts).findings ≡ s.findings ++ added)
        × AllWarnings added
        × (length added ≤ length ts)
  unfolding add_trends trend_finding new_finding
  add_trends-adds [] s = ([], sym (append-nil s.findings), tt, omega arith)
  add_trends-adds (t ∷ ts) s =
      let f = trend_finding digest t in
      let (one, e, w, n) = add_one s f refl in
      let (more, e', w', n') = add_trends-adds ts (add digest s f) in
      (
        one ++ more,
        e' ∙ ap (λ fs. fs ++ more) e ∙ append_assoc s.findings one more,
        All-append _ one more w w',
        omega (arith, n, n', length-append one more),
      )

  add_trends-IsValid :
      (ts : List Trend) (s : State) → IsValid digest s → IsValid digest (add_trends digest s ts)
  unfolding add_trends
  add_trends-IsValid [] s v = v
  add_trends-IsValid (t ∷ ts) s v =
      add_trends-IsValid ts _ (add-IsValid digest v (trend_finding digest t))

-- `AddFindings` on a valid state leaves a valid state with the same root causes. It keeps the
-- findings, in order, and adds warnings behind them, at most one for each trend.
pub add_findings-keeps :
    (digest : String → String) (s : State) (a : Analysis)
    → IsValid digest s
    → IsValid digest (add_findings digest s a)
      × ((add_findings digest s a).root_causes ≡ s.root_causes)
      × ((added : List Finding) × ((add_findings digest s a).findings ≡ s.findings ++ added)
          × All (λ f. f.severity ≡ warning) added
          × (length added ≤ length a.trends))
unfolding add_findings set_root_causes
add_findings-keeps digest s a v = (
  set_root_causes-IsValid digest (add_trends-IsValid digest a.trends s v) s.root_causes,
  refl,
  add_trends-adds digest a.trends s,
)
