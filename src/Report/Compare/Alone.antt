-- ===== src/Report/Compare/Alone.antt =====
-- The IDs that a comparison goes through, and the values behind them.
use k8s_diagnose.Prelude.{
  String, Bool, true, false, not, List, ◌≡◌, ◌∙◌, sym, ap, subst, inl, arith, Memᴰ, All, All-weaken,
  All-Memᴰ, All-of_Memᴰ, contains, contains_Memᴰ, contains-Memᴰ, lookup,
}
use k8s_diagnose.Report.Json.{string_field}
use k8s_diagnose.Report.Findings.{Objects, has, keys, value_at, values_for_ids, correlation_map}
use k8s_diagnose.Report.Compare.{plain_pair}
use k8s_diagnose.Report.Compare.Maps.{Entries-lookup, has-value_at, has-keys}
use k8s_diagnose.Report.Compare.Paired.{
  IsById, Owned, correlation, correlation_map-Entries, values_for_ids-Owned,
}
use k8s_diagnose.Report.Compare.Picked.{picked, picked-All, common, both, both-before, both-after}
use k8s_diagnose.Report.Compare.Placed.{Known, Alone, Paired, Correlated}

module _ (m : Objects) (b : IsById m) where
  -- A key is the ID of its value.
  value_at-id : (i : String) → has m i ≡ true → string_field (value_at m i) "id" ≡ i
  value_at-id i h = Entries-lookup _ i (value_at m i) m b.named (has-value_at m i h)

  value_at-Known : (i : String) → has m i ≡ true → Known m (value_at m i)
  value_at-Known i h = ap (λ j. lookup j m) (value_at-id i h) ∙ has-value_at m i h

  listed : (i : String) → Memᴰ i (keys m) → has m i ≡ true
  listed i r = sym (has-keys m i) ∙ contains-Memᴰ i (keys m) r

  module _ (other : Objects) where
    abbrev pub alone : List String
    alone = picked (λ i. not (has other i)) (keys m)

    fails : (t : Bool) → not t ≡ true → t ≡ false
    fails t h = ground arith

    pub alone-Alone : All (λ i. Alone m other (value_at m i)) alone
    alone-Alone =
        All-weaken _ (λ i. Alone m other (value_at m i)) alone
          (λ i (t, r, s). (
            value_at-Known i (listed i r),
            ap (has other) (value_at-id i (listed i r)) ∙ fails (has other i) t,
          ))
          (picked-All (λ i. not (has other i)) (keys m))

    alone-listed : All (λ i. (has m i ≡ true) × (contains alone i ≡ true)) alone
    alone-listed =
        All-weaken _ (λ i. (has m i ≡ true) × (contains alone i ≡ true)) alone
          (λ i (t, r, s). (listed i r, contains-Memᴰ i alone s))
          (picked-All (λ i. not (has other i)) (keys m))

    -- A value of the correlation map of those IDs stands under its correlation, and is one of them.
    pub correlated-Alone :
        (roots : Bool) (k : String)
        → has (correlation_map (values_for_ids m alone) roots) k ≡ true
        → (correlation roots (value_at (correlation_map (values_for_ids m alone) roots) k) ≡ k)
          × Alone m other (value_at (correlation_map (values_for_ids m alone) roots) k)
    unfolding Owned
    correlated-Alone roots k h =
        let c = correlation_map (values_for_ids m alone) roots in
        let (e, (o, i)) =
          Entries-lookup _ k (value_at c k) c
            (correlation_map-Entries roots m alone (values_for_ids m alone)
              (values_for_ids-Owned m b alone alone alone-listed))
            (has-value_at c k h) in
        (
          e,
          subst (Alone m other) o (
              All-Memᴰ (λ j. Alone m other (value_at m j)) alone alone-Alone
                (contains_Memᴰ _ alone i)),
        )

module _ (roots : Bool) (b a : Objects) (bb : IsById b) (ba : IsById a) where
  pub common-Paired :
      All (λ i. Paired roots b a (plain_pair (value_at b i) (value_at a i))) (common b a bb ba)
  common-Paired =
      All-weaken _ (λ i. Paired roots b a (plain_pair (value_at b i) (value_at a i)))
        (common b a bb ba)
        (λ i (t, r, s). inl (
          value_at-Known b bb i (listed b bb i r),
          value_at-Known a ba i t,
          value_at-id b bb i (listed b bb i r) ∙ sym (value_at-id a ba i t),
        ))
        (picked-All (has a) (keys b))

  pub both-Correlated :
      All
        (λ k.
          Correlated roots b a
            (value_at (correlation_map (values_for_ids b (alone b bb a)) roots) k)
            (value_at (correlation_map (values_for_ids a (alone a ba b)) roots) k))
        (both
          (correlation_map (values_for_ids b (alone b bb a)) roots)
          (correlation_map (values_for_ids a (alone a ba b)) roots))
  both-Correlated =
      let bc = correlation_map (values_for_ids b (alone b bb a)) roots in
      let ac = correlation_map (values_for_ids a (alone a ba b)) roots in
      All-of_Memᴰ _ (both bc ac) (λ k m.
        let (e, x) =
          correlated-Alone b bb a roots k (All-Memᴰ _ (both bc ac) (both-before bc ac) m) in
        let (f, y) =
          correlated-Alone a ba b roots k (All-Memᴰ _ (both bc ac) (both-after bc ac) m) in
        (x, y, e ∙ sym f))
