-- ===== src/History/Analysis/Reported.antt =====
-- `Analyze` misses no trend: the keys that it goes through are those of every sample.
use k8s_diagnose.Prelude.{
  String, Bool, true, Option, none, some, List, [], ◌∷◌, ◌++◌, ◌≡◌, ◌∙◌, refl, sym, ap, arith, ◌||◌,
  eq_iff, ℤ, map, last_or, Memᴰ, any, contains, contains-append, contains_Memᴰ, lookup, is_some,
  is_empty, not, ◌&&◌, subst, ◌≤◌, length, int_leb, pos,
}
use mathlib.Core.List.Memᴰ
use mathlib.Core.List.{reverse, reverse_aux}
use k8s_diagnose.Prelude.Sort.{Memᴰ-sort, sort_strings}
use k8s_diagnose.Report.Json.{Json}
use k8s_diagnose.Report.Findings.{Objects, keys}
use k8s_diagnose.History.Samples.{active_finding_map, restart_map, sample_keys, all_keys, add_keys}
use k8s_diagnose.History.Flaps.{
  Evaluation, Sample, actives, with_states, evaluated, latest, first_value, or_else, abnormal,
  normal, flap_trend, flaps,
}
use k8s_diagnose.History.Flaps.Runs.{changes, is_flap-of_parts, flaps-reports}
use k8s_diagnose.History.Restarts.{records_of, with_record, restart_count, restart_trend}
use k8s_diagnose.History.Restarts.Growing.{
  IsRising, rises, HasGained, is_growing-of_parts, length-map, restarts-reports,
}
use k8s_diagnose.History.Analysis.{analyze, all_trends, recent, sample_of, trend_less}

contains-add_keys :
    (k : String) (ks set : List String)
    → contains (add_keys ks set) k ≡ (contains ks k || contains set k)
unfolding add_keys
contains-add_keys k [] set = refl
contains-add_keys k (j ∷ ks) set = ground (
  arith,
  contains-add_keys k ks set,
  contains-add_keys k ks (set ++ j ∷ []),
  contains-append k set (j ∷ []),
  eq_iff j k,
)

contains-keys : (k : String) (m : Objects) → contains (keys m) k ≡ is_some (lookup k m)
unfolding lookup
contains-keys k [] = refl
contains-keys k ((j, v) ∷ m) = ground (arith, contains-keys k m)

abbrev has_key : String → Objects → Bool
has_key k m = is_some (lookup k m)

contains-all_keys :
    (k : String) (ms : List Objects) (set : List String)
    → contains (all_keys ms set) k ≡ (any (has_key k) ms || contains set k)
unfolding all_keys
contains-all_keys k [] set = refl
contains-all_keys k (m ∷ ms) set = ground (
  arith,
  contains-all_keys k ms (add_keys (keys m) set),
  contains-add_keys k (keys m) set,
  contains-keys k m,
)

Memᴰ-sample_keys :
    (k : String) (ms : List Objects) → any (has_key k) ms ≡ true → Memᴰ k (sample_keys ms)
unfolding sample_keys sort_strings
Memᴰ-sample_keys k ms h =
    (Memᴰ-sort _ k (all_keys ms [])).1
      (contains_Memᴰ k (all_keys ms []) (ground (arith, contains-all_keys k ms [], h)))

any-reverse_aux :
    (p : Objects → Bool) (l r : List Objects) → any p (reverse_aux l r) ≡ (any p l || any p r)
any-reverse_aux p [] r = refl
any-reverse_aux p (x ∷ l) r = ground (arith, any-reverse_aux p l (x ∷ r))

is_some-or_else : (a b : Option Json) → is_some (or_else a b) ≡ (is_some a || is_some b)
is_some-or_else none b = refl
is_some-or_else (some v) b = refl

first_value-any : (k : String) (ms : List Objects) → is_some (first_value k ms) ≡ any (has_key k) ms
unfolding first_value
first_value-any k [] = refl
first_value-any k (m ∷ ms) =
    ground (arith, first_value-any k ms, is_some-or_else (lookup k m) (first_value k ms))

latest-any : (k : String) (ms : List Objects) → is_some (latest k ms) ≡ any (has_key k) ms
unfolding latest
latest-any k ms = ground (arith, first_value-any k (reverse ms), any-reverse_aux (has_key k) ms [])

is_empty-with_record :
    (o : Option Json) (rs : List Json)
    → is_empty (with_record o rs) ≡ (not (is_some o) && is_empty rs)
is_empty-with_record none rs = refl
is_empty-with_record (some r) rs = refl

records_of-any :
    (k : String) (ms : List Objects) → not (is_empty (records_of k ms)) ≡ any (has_key k) ms
unfolding records_of
records_of-any k [] = refl
records_of-any k (m ∷ ms) =
    ground (arith, records_of-any k ms, is_empty-with_record (lookup k m) (records_of k ms))

is_some-with_states :
    (samples : List Sample) (k : String) (o : Option Json)
    → is_some (with_states samples k o) ≡ is_some o
unfolding with_states
is_some-with_states samples k none = refl
is_some-with_states samples k (some v) = refl

evaluated-latest :
    (samples : List Sample) (k : String) (f : Json) (states : List Evaluation)
    → evaluated samples k ≡ some (f, states)
    → is_some (latest k (actives samples)) ≡ true
unfolding evaluated
evaluated-latest samples k f states e =
    sym (is_some-with_states samples k (latest k (actives samples))) ∙ ap (λ o. is_some o) e

actives-sample_of : (ds : List Json) → actives (map sample_of ds) ≡ map active_finding_map ds
unfolding sample_of
actives-sample_of [] = refl
actives-sample_of (d ∷ ds) = ap (λ ms. active_finding_map d ∷ ms) (actives-sample_of ds)

-- `Analyze` reports a flap for every key that is active in a sample of the window, with an abnormal
-- and a normal state among its own and the threshold reached by its transitions.
pub analyze-flap :
    (previous : List Json) (current : Json) (window threshold growth : ℤ) (k : String) (f : Json)
    (states : List Evaluation)
    → evaluated (map sample_of (recent previous current window)) k ≡ some (f, states)
    → int_leb threshold (pos (changes states)) ≡ true
    → Memᴰ abnormal states
    → Memᴰ normal states
    → Memᴰ (flap_trend f states) (analyze previous current window threshold growth).trends
unfolding analyze all_trends
analyze-flap previous current window threshold growth k f states e enough bad good =
    let flap = is_flap-of_parts threshold states enough bad good in
    let documents = recent previous current window in
    let samples = map sample_of documents in
    let found = map active_finding_map documents in
    (Memᴰ-sort trend_less _ _).1 (
      Memᴰ.append_left _ (
        flaps-reports threshold samples (sample_keys found) k f states
          (Memᴰ-sample_keys k found (
            subst (λ ms. any (has_key k) ms ≡ true) (actives-sample_of documents)
              (sym (latest-any k (actives samples)) ∙ evaluated-latest samples k f states e)))
          e flap))

-- `Analyze` reports growth for every container that is in three samples or more of the window and
-- whose counts never fall, rise at least twice and gain the threshold or more.
pub analyze-growth :
    (previous : List Json) (current : Json) (window threshold growth : ℤ) (k : String) (r : Json)
    (rs : List Json)
    → records_of k (map restart_map (recent previous current window)) ≡ r ∷ rs
    → 2 ≤ length rs
    → IsRising (restart_count r) (map restart_count rs)
    → 2 ≤ rises (restart_count r) (map restart_count rs)
    → HasGained growth (restart_count r) (map restart_count rs)
    → Memᴰ
        (restart_trend (last_or r rs) (restart_count r) (map restart_count rs))
        (analyze previous current window threshold growth).trends
unfolding analyze all_trends
analyze-growth previous current window threshold growth k r rs e many rising twice gained =
    let grows =
      is_growing-of_parts growth (restart_count r) (map restart_count rs)
        (omega (arith, many, length-map restart_count rs)) rising twice gained in
    let documents = recent previous current window in
    let samples = map sample_of documents in
    let counters = map restart_map documents in
    let found = map active_finding_map documents in
    (Memᴰ-sort trend_less _ _).1 (
      Memᴰ.append_right (flaps threshold samples (sample_keys found)).0 (
        restarts-reports growth counters (sample_keys counters) k r rs
          (Memᴰ-sample_keys k counters
            (sym (records_of-any k counters) ∙ ap (λ xs. not (is_empty xs)) e))
          e grows))
