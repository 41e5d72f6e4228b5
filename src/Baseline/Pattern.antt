-- ===== src/Baseline/Pattern.antt =====
-- `match`: patterns with `*` and `?`.
use Prim.Native.Char.{code}
use Prim.Native.String.{[], ◌∷◌}
use k8s_diagnose.Prelude.{ℕ, String, Bool, false, not, if◌then◌else◌, ◌==◌, ◌&&◌, ◌||◌, nat_eq}

-- `.` of a regular expression: any character but a newline
abbrev pub is_dot : ℕ → Bool
is_dot c = not (nat_eq c b'\n')

-- `.*`, and then the rest of the pattern
unfoldable pub star : (String → Bool) → String → Bool
star rest [] = rest []
star rest (d ∷ v) = rest (d ∷ v) || (is_dot (code d) && star rest v)

-- `.` or a quoted character, and then the rest of the pattern
unfoldable pub one : ℕ → (String → Bool) → String → Bool
one c rest [] = false
one c rest (d ∷ v) = (if nat_eq c b'?' then is_dot (code d) else nat_eq c (code d)) && rest v

-- `match`: the anchored regular expression that is built from a pattern with `*` and `?`.
unfoldable pub match : String → String → Bool
match [] v = v == ""
match (c ∷ p) v =
    let wild = star (match p) v in
    let single = one (code c) (match p) v in if nat_eq (code c) b'*' then wild else single
