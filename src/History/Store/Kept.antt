-- ===== src/History/Store/Kept.antt =====
-- What is stored can be loaded, and is stored once.
use k8s_diagnose.Prelude.{
  ℕ, zero, suc, String, Bool, true, false, List, [], ◌∷◌, ◌++◌, ◌≡◌, ◌≤◌, ◌∙◌, ◌⊎◌, inl, inr, refl,
  sym, ap, subst, arith, if◌then◌else◌, eq_refl, length, ℤ, pos, negsuc, int_ltb, pos_part,
  Bool-cases, All,
}
use mathlib.Core.List.{reverse, reverse_aux}
use k8s_diagnose.Redact.Masking.{Expression}
use k8s_diagnose.Report.Json.{Json}
use k8s_diagnose.Report.Compare.Same.{semantic_eq_refl}
use k8s_diagnose.Report.Sanitize.{mask_structured}
use k8s_diagnose.History.Store.{
  Row, target_key, same_target, decode_document, take, rows_of, decode_rows, oldest_first, load,
  retained, same_state, is_unchanged, insert_row, store_unless, append, state_key,
}

-- The document that a successful load ends with.
abbrev pub EndsWith : String ⊎ List Json → Json → Type 0
EndsWith (inl e) d = ⊥
EndsWith (inr ds) d = (older : List Json) × (ds ≡ older ++ d ∷ [])

same_target_refl : (t : String × String × String) → same_target t t ≡ true
same_target_refl (c, n, m) = ground (arith, eq_refl c, eq_refl n, eq_refl m)

-- Each row holds a report that can be read back.
abbrev pub IsReadable : List Row → Type 0
IsReadable rows = All (λ (r : Row). decode_document r.document ≡ inr r.document) rows

take-IsReadable : (n : ℕ) (rows : List Row) → IsReadable rows → IsReadable (take n rows)
unfolding take
take-IsReadable zero rows h = tt
take-IsReadable (suc n) [] h = tt
take-IsReadable (suc n) (r ∷ rs) (p, h) = (p, take-IsReadable n rs h)

take-length : (n : ℕ) (rows : List Row) → length (take n rows) ≤ n
unfolding take
take-length zero rows = omega arith
take-length (suc n) [] = omega arith
take-length (suc n) (r ∷ rs) = omega (arith, take-length n rs)

rows_of-IsReadable :
    (t : String × String × String) (rows : List Row) → IsReadable rows → IsReadable (rows_of t rows)
unfolding rows_of
rows_of-IsReadable t [] h = tt
rows_of-IsReadable t (r ∷ rs) (p, h) = elim (Bool-cases (same_target r.target t)) [
  | inl same ↦ rw same (p, rows_of-IsReadable t rs h)
  | inr other ↦ rw other (rows_of-IsReadable t rs h)
]

decode_rows-IsReadable :
    (rows : List Row) → IsReadable rows → (ds : List Json) × (decode_rows rows ≡ inr ds)
unfolding decode_rows
decode_rows-IsReadable [] h = ([], refl)
decode_rows-IsReadable (r ∷ rs) (p, h) =
    let (ds, e) = decode_rows-IsReadable rs h in rw (p, e) (r.document ∷ ds, refl)

reverse_aux-append : (l r s : List Json) → reverse_aux l (r ++ s) ≡ reverse_aux l r ++ s
reverse_aux-append [] r s = refl
reverse_aux-append (x ∷ l) r s = reverse_aux-append l (x ∷ r) s

decode_rows-EndsWith :
    (r : Row) (rows : List Row)
    → decode_document r.document ≡ inr r.document
    → IsReadable rows
    → EndsWith (oldest_first (decode_rows (r ∷ rows))) r.document
unfolding decode_rows
decode_rows-EndsWith r rows p h =
    let (ds, e) = decode_rows-IsReadable rows h in
    rw (p, e) (reverse ds, reverse_aux-append ds [] (r.document ∷ []))

retained-suc : (retain : ℤ) → (n : ℕ) × (retained retain ≡ suc n)
unfolding retained
retained-suc (pos zero) = (0, refl)
retained-suc (pos (suc n)) = (n, ground arith)
retained-suc (negsuc n) = (0, refl)

true_not_false : true ≡ false → ⊥
true_not_false h = cc

limit-suc : (limit : ℤ) → int_ltb limit (pos 1) ≡ false → (n : ℕ) × (pos_part limit ≡ suc n)
limit-suc (pos zero) h = absurd (true_not_false h)
limit-suc (pos (suc n)) h = (n, refl)
limit-suc (negsuc n) h = absurd (true_not_false h)

rows_of-own : (r : Row) (rows : List Row) → rows_of r.target (r ∷ rows) ≡ r ∷ rows_of r.target rows
unfolding rows_of
rows_of-own r rows =
    ap (λ b. if b then r ∷ rows_of r.target rows else rows_of r.target rows)
      (same_target_refl r.target)

-- What a load reads where there is a row of its target on top.
load-cons :
    (r : Row) (rows : List Row) (current : Json) (limit : ℤ) (n : ℕ)
    → target_key current ≡ r.target
    → int_ltb limit (pos 1) ≡ false
    → pos_part limit ≡ suc n
    → load (r ∷ rows) current limit
      ≡ oldest_first (decode_rows (r ∷ take n (rows_of r.target rows)))
unfolding load take
load-cons r rows current limit n t some_rows e =
    let read : ℕ → List Row → String ⊎ List Json = λ m rs. oldest_first (decode_rows (take m rs)) in
    ap
      (λ (b : Bool).
        if b then inr [] else read (pos_part limit) (rows_of (target_key current) (r ∷ rows)))
      some_rows
    ∙ ap (λ m. read m (rows_of (target_key current) (r ∷ rows))) e
    ∙ ap (λ k. read (suc n) (rows_of k (r ∷ rows))) t
    ∙ ap (read (suc n)) (rows_of-own r rows)

load-EndsWith :
    (r : Row) (rows : List Row) (current : Json) (limit : ℤ)
    → decode_document r.document ≡ inr r.document
    → IsReadable rows
    → target_key current ≡ r.target
    → int_ltb limit (pos 1) ≡ false
    → EndsWith (load (r ∷ rows) current limit) r.document
load-EndsWith r rows current limit p h t some_rows =
    let (n, e) = limit-suc limit some_rows in
    subst (λ o. EndsWith o r.document) (sym (load-cons r rows current limit n t some_rows e))
      (decode_rows-EndsWith r (take n (rows_of r.target rows)) p
        (take-IsReadable n (rows_of r.target rows) (rows_of-IsReadable r.target rows h)))

insert_row-cons :
    (rows : List Row) (d : Json) (retain : ℤ)
    → (n : ℕ) × (retained retain ≡ suc n)
      × (insert_row rows d retain ≡ record { target = target_key d; document = d } ∷ take n rows)
unfolding insert_row take
insert_row-cons rows d retain = let (n, e) = retained-suc retain in (n, e, rw e refl)

is_unchanged-stored :
    (d : Json) (rows : List Row)
    → decode_document d ≡ inr d
    → is_unchanged
        (rows_of (target_key d) (record { target = target_key d; document = d } ∷ rows))
        d
      ≡ inr true
unfolding is_unchanged same_state
is_unchanged-stored d rows valid =
    rw (rows_of-own (record { target = target_key d; document = d }) rows)
      (ap (λ o. same_state o d) valid ∙ ap inr (semantic_eq_refl (state_key d)))

-- A document whose sanitized form is a report is stored by `Append`, in a table of readable rows, which
-- stays one and holds no more rows than are retained. A `Load` for the same target and at least one
-- row then succeeds, and ends with that form; and a second `Append` of the document that skips an
-- unchanged state stores nothing.
pub append-load :
    (replace : Expression → String → String → String) (matches : Expression → String → Bool)
    (rows : List Row) (document current : Json) (retain limit : ℤ)
    → IsReadable rows
    → decode_document (mask_structured replace matches document)
      ≡ inr (mask_structured replace matches document)
    → target_key current ≡ target_key (mask_structured replace matches document)
    → int_ltb limit (pos 1) ≡ false
    → (stored : List Row) × (append replace matches rows document retain false ≡ inr (stored, true))
      × IsReadable stored
      × (length stored ≤ retained retain)
      × EndsWith (load stored current limit) (mask_structured replace matches document)
      × (append replace matches stored document retain true ≡ inr (stored, false))
unfolding append
append-load replace matches rows document current retain limit readable valid t some_rows =
    let clean = mask_structured replace matches document in
    let (n, e, c) = insert_row-cons rows clean retain in
    let r : Row = record { target = target_key clean; document = clean } in
    let rest = take-IsReadable n rows readable in
    (
      r ∷ take n rows,
      ap (λ rs. inr (rs, true)) c,
      (valid, rest),
      omega (arith, e, take-length n rows),
      load-EndsWith r (take n rows) current limit valid rest t some_rows,
      ap (λ same. store_unless same (r ∷ take n rows) clean retain)
          (is_unchanged-stored clean (take n rows) valid),
    )
