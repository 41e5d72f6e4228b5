-- ===== src/Redact/Clean.antt =====
-- Sanitized text holds no terminal control and no bidirectional override.
use Prim.Native.Char.{code}
use Prim.Native.String.{[], ◌∷◌}
use k8s_diagnose.Prelude.{String, ◌≡◌, refl, true, ◌≢◌, arith, ◌≤◌, ◌<◌, ◌⊎◌, ℕ}
use k8s_diagnose.Redact.{keeps_rune, sanitize_text}

-- A rune that a terminal may be shown, stated by the ranges of Unicode.
abbrev pub IsPlainRune : ℕ → Type 0
IsPlainRune r =
    ((r ≡ b'\n') ⊎ (r ≡ b'\t') ⊎ (0x20 ≤ r))
    × (r ≢ 0x7f)
    × ((r < 0x80) ⊎ (0x9f < r))
    × (r ≢ 0x200e)
    × (r ≢ 0x200f)
    × ((r < 0x202a) ⊎ (0x202e < r))
    × ((r < 0x2066) ⊎ (0x2069 < r))

abbrev pub IsClean : String → Type 0
IsClean [] = Unit
IsClean (c ∷ s) = IsPlainRune (code c) × IsClean s

keeps_rune-IsPlainRune : (r : ℕ) → keeps_rune r ≡ true → IsPlainRune r
unfolding keeps_rune
keeps_rune-IsPlainRune r h = ground arith

IsPlainRune-keeps_rune : (r : ℕ) → IsPlainRune r → keeps_rune r ≡ true
unfolding keeps_rune
IsPlainRune-keeps_rune r h = ground arith

pub sanitize_text-IsClean : (s : String) → IsClean (sanitize_text s)
unfolding sanitize_text
sanitize_text-IsClean [] = tt
sanitize_text-IsClean (c ∷ s) =
    ground (arith, keeps_rune-IsPlainRune (code c), sanitize_text-IsClean s)

-- Clean text is left as it is.
pub sanitize_text-id : (s : String) → IsClean s → sanitize_text s ≡ s
unfolding sanitize_text
sanitize_text-id [] h = refl
sanitize_text-id (c ∷ s) (plain, clean) =
    rw (IsPlainRune-keeps_rune (code c) plain, sanitize_text-id s clean)
