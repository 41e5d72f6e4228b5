-- ===== src/Redact.antt =====
-- internal/redact/redact.go: removal of control and bidirectional characters from untrusted text.
-- `MaskSecrets` is a chain of regular expressions and is not modelled.
pub mod Clean
pub mod Masking
use Prim.Native.Char.{code}
use Prim.Native.String.{[], ◌∷◌}
use k8s_diagnose.Prelude.{ℕ, String, Bool, true, false, ◌&&◌, ◌||◌, ltb, leb, nat_eq, if◌then◌else◌}

-- The cases of the `switch`: `true` keeps the rune, `false` is its -1.
unfoldable pub keeps_rune : ℕ → Bool
keeps_rune r =
    if nat_eq r b'\n' || nat_eq r b'\t'
    then true
    else if ltb r 0x20 || nat_eq r 0x7f || (leb 0x80 r && leb r 0x9f)
    then false
    else if nat_eq r 0x200e
        || nat_eq r 0x200f
        || (leb 0x202a r && leb r 0x202e)
        || (leb 0x2066 r && leb r 0x2069)
    then false
    else true

unfoldable pub sanitize_text : String → String
sanitize_text [] = []
sanitize_text (c ∷ s) = let rest = sanitize_text s in if keeps_rune (code c) then c ∷ rest else rest
