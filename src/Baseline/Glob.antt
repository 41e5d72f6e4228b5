-- ===== src/Baseline/Glob.antt =====
-- `match` decides when a pattern with `*` and `?` describes a whole text.
use Prim.Native.Char.{Char, code}
use Prim.Native.String.{[], ◌∷◌}
use k8s_diagnose.Prelude.{
  String, true, ◌≡◌, ◌≢◌, ◌↔◌, refl, arith, nat_eq, nat_eq_iff, eq_iff, Bool-cases, inl, inr, sym,
  subst,
}
use k8s_diagnose.Baseline.Pattern.{star, one, match}

-- `*` stands for any text without a newline, `?` for one character that is none, and any other
-- character for itself.
pub data Matches : String → String → Type 0 where
  empty : Matches [] []
  star_ends : {c : Char} {p v : String} → code c ≡ b'*' → Matches p v → Matches (c ∷ p) v
  star_takes :
      {c d : Char} {p v : String}
      → code c ≡ b'*'
      → code d ≢ b'\n'
      → Matches (c ∷ p) v
      → Matches (c ∷ p) (d ∷ v)
  question :
      {c d : Char} {p v : String}
      → code c ≡ b'?'
      → code d ≢ b'\n'
      → Matches p v
      → Matches (c ∷ p) (d ∷ v)
  literal :
      {c d : Char} {p v : String}
      → code c ≢ b'*'
      → code c ≢ b'?'
      → code c ≡ code d
      → Matches p v
      → Matches (c ∷ p) (d ∷ v)

star-Matches :
    (c : Char) (p v : String)
    → code c ≡ b'*'
    → ((w : String) → match p w ≡ true → Matches p w)
    → star (match p) v ≡ true
    → Matches (c ∷ p) v
unfolding star
star-Matches c p [] e rest h = star_ends e (rest [] h)
star-Matches c p (d ∷ v) e rest h = elim (Bool-cases (match p (d ∷ v))) [
  | inl here ↦ star_ends e (rest (d ∷ v) here)
  | inr later ↦ star_takes e (ground arith) (star-Matches c p v e rest (ground arith))
]

one-Matches :
    (c : Char) (p v : String)
    → code c ≢ b'*'
    → ((w : String) → match p w ≡ true → Matches p w)
    → one (code c) (match p) v ≡ true
    → Matches (c ∷ p) v
unfolding one
one-Matches c p [] e rest h = cc
one-Matches c p (d ∷ v) e rest h = elim (Bool-cases (nat_eq (code c) b'?')) [
  | inl any_one ↦ question ((nat_eq_iff _ _).0 any_one) (ground arith) (rest v (ground arith))
  | inr itself ↦ literal e (ground arith) (ground arith) (rest v (ground arith))
]

match-Matches : (p v : String) → match p v ≡ true → Matches p v
unfolding match
match-Matches [] v h = subst (Matches []) (sym ((eq_iff v "").0 h)) empty
match-Matches (c ∷ p) v h = elim (Bool-cases (nat_eq (code c) b'*')) [
  | inl wild ↦ star-Matches c p v ((nat_eq_iff _ _).0 wild) (match-Matches p) (ground arith)
  | inr single ↦ one-Matches c p v (ground arith) (match-Matches p) (ground arith)
]

star_of : (p v : String) → match p v ≡ true → star (match p) v ≡ true
unfolding star
star_of p [] h = h
star_of p (d ∷ v) h = rw h

Matches-match : {p v : String} → Matches p v → match p v ≡ true
unfolding match star one
Matches-match empty = refl
Matches-match (star_ends {c} {p} {v} e m) = ground (arith, star_of p v (Matches-match m))
Matches-match (star_takes {c} {d} {p} {v} e k m) = ground (arith, Matches-match m)
Matches-match (question e k m) = ground (arith, Matches-match m)
Matches-match (literal e k same m) = ground (arith, Matches-match m)

-- `match` holds exactly when the pattern describes the whole text.
pub match_iff : (p v : String) → (match p v ≡ true) ↔ Matches p v
match_iff p v = (match-Matches p v, Matches-match)
