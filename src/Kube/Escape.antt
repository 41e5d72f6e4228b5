-- ===== src/Kube/Escape.antt =====
-- `url.PathEscape` of Go's net/url, over the UTF-8 bytes of a text.
use k8s_diagnose.Prelude.{
  ℕ, String, Bool, List, [], ◌∷◌, ◌+◌, ◌-◌, ◌/◌, ◌%◌, if◌then◌else◌, ◌||◌, ◌&&◌, concat, leb, ltb,
  nat_eq,
}
use Prim.Native.Char.{code}
use Prim.Native.String.{[], ◌∷◌}

utf8 : ℕ → List ℕ
utf8 c =
    if ltb c 0x80
    then c ∷ []
    else if ltb c 0x800
    then (0xc0 + c / 64) ∷ (0x80 + c % 64) ∷ []
    else if ltb c 0x10000
    then (0xe0 + c / 4096) ∷ (0x80 + c / 64 % 64) ∷ (0x80 + c % 64) ∷ []
    else (0xf0 + c / 262144) ∷ (0x80 + c / 4096 % 64) ∷ (0x80 + c / 64 % 64) ∷ (0x80 + c % 64) ∷ []

-- The letters, the digits and the signs that stay in a segment of a path.
keeps_byte : ℕ → Bool
keeps_byte c =
    (leb b'a' c && leb c b'z')
    || (leb b'A' c && leb c b'Z')
    || (leb b'0' c && leb c b'9')
    || nat_eq c b'-'
    || nat_eq c b'_'
    || nat_eq c b'.'
    || nat_eq c b'~'
    || nat_eq c b'$'
    || nat_eq c b'&'
    || nat_eq c b'+'
    || nat_eq c b':'
    || nat_eq c b'='
    || nat_eq c b'@'

nth : ℕ → String → String
nth n [] = ""
nth n (c ∷ s) = let rest = nth (n - 1) s in if nat_eq n 0 then c ∷ "" else rest

escape_bytes : List ℕ → String
unfolding nth
escape_bytes [] = ""
escape_bytes (b ∷ bs) =
    concat (
      "%"
      ∷ nth (b / 16) "0123456789ABCDEF"
      ∷ nth (b % 16) "0123456789ABCDEF"
      ∷ escape_bytes bs
      ∷ [])

unfoldable pub path_escape : String → String
unfolding utf8 keeps_byte escape_bytes
path_escape [] = ""
path_escape (c ∷ s) =
    concat
      ((if keeps_byte (code c) then c ∷ "" else escape_bytes (utf8 (code c))) ∷ path_escape s ∷ [])
