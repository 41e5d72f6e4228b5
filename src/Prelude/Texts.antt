-- ===== src/Prelude/Texts.antt =====
-- The functions of Go's `strings`, `strconv` and `fmt` that the source calls, over native texts.
-- A text stands for a valid UTF-8 string: its order by code points is Go's order by bytes.
use Prim.Native.Nat.{ℕ, zero, suc, ◌/◌, ◌%◌}
use Prim.Native.Char.{Char, code}
use Prim.Native.String.{String, [], ◌∷◌, compare}
use Prim.Native.String
use mathlib.Core.Bool.{Bool, ◌&&◌, ◌||◌}
use mathlib.Core.List.{List, [], ◌∷◌}
use text.Mathlib.Text.{◌==◌, is_lt}
use k8s_diagnose.Prelude.Tests.{ltb, leb, nat_eq, if◌then◌else◌}
use k8s_diagnose.Prelude.Integers.{ℤ, pos, negsuc}

-- `s < t`
abbrev pub text_lt : String → String → Bool
text_lt s t = is_lt (compare s t)

-- `strings.Join(parts, "")`, which is also `+` and the `%s` of a format
unfoldable pub concat : List String → String
concat [] = ""
concat (s ∷ ss) = String.◌++◌ s (concat ss)

unfoldable pub join : String → List String → String
unfolding concat
join sep [] = ""
join sep (s ∷ []) = s
join sep (s ∷ t ∷ ss) = concat (s ∷ sep ∷ join sep (t ∷ ss) ∷ [])

strip_from : String → String → String → String
strip_from whole [] rest = rest
strip_from whole (p ∷ ps) [] = whole
strip_from whole (p ∷ ps) (c ∷ s) =
    let further = strip_from whole ps s in if nat_eq (code p) (code c) then further else whole

-- `strings.TrimPrefix(s, prefix)`
unfoldable pub strip_prefix : String → String → String
unfolding strip_from
strip_prefix prefix s = strip_from s prefix s

-- `unicode.IsSpace`
unfoldable pub is_space : ℕ → Bool
is_space c =
    (leb 9 c && leb c 13)
    || nat_eq c 32
    || nat_eq c 0x85
    || nat_eq c 0xa0
    || nat_eq c 0x1680
    || (leb 0x2000 c && leb c 0x200a)
    || nat_eq c 0x2028
    || nat_eq c 0x2029
    || nat_eq c 0x202f
    || nat_eq c 0x205f
    || nat_eq c 0x3000

trim_left : String → String
trim_left [] = []
trim_left (c ∷ s) = let rest = trim_left s in if is_space (code c) then rest else c ∷ s

trim_right : String → String
trim_right [] = []
trim_right (c ∷ s) =
    let rest = trim_right s in if is_space (code c) && rest == "" then "" else c ∷ rest

-- `strings.TrimSpace`
unfoldable pub trim_space : String → String
unfolding trim_left trim_right is_space
trim_space s = trim_left (trim_right s)

abbrev cons_first : Char → List String → List String
cons_first c [] = (c ∷ []) ∷ []
cons_first c (p ∷ ps) = (c ∷ p) ∷ ps

-- `strings.Split(s, sep)` for a separator of one character
unfoldable pub split_at : ℕ → String → List String
split_at sep [] = "" ∷ []
split_at sep (c ∷ s) =
    let rest = split_at sep s in if nat_eq (code c) sep then "" ∷ rest else cons_first c rest

unfoldable pub split_slash : String → List String
unfolding split_at
split_slash s = split_at b'/' s

abbrev digit : ℕ → String
digit n =
    if nat_eq n 0
    then "0"
    else if nat_eq n 1
    then "1"
    else if nat_eq n 2
    then "2"
    else if nat_eq n 3
    then "3"
    else if nat_eq n 4
    then "4"
    else if nat_eq n 5
    then "5"
    else if nat_eq n 6
    then "6"
    else if nat_eq n 7
    then "7"
    else if nat_eq n 8
    then "8"
    else "9"

-- The fuel `n + 1` is enough: each round divides by ten.
decimal_from : ℕ → ℕ → String → String
decimal_from zero n acc = acc
decimal_from (suc f) n acc =
    let more = decimal_from f (n / 10) (String.◌++◌ (digit (n % 10)) acc) in
    if ltb n 10 then String.◌++◌ (digit n) acc else more

-- `strconv.Itoa` and `%d` at a non-negative number
unfoldable pub decimal : ℕ → String
unfolding decimal_from
decimal n = decimal_from (suc n) n ""

unfoldable pub int_decimal : ℤ → String
unfolding decimal
int_decimal (pos n) = decimal n
int_decimal (negsuc n) = String.◌++◌ "-" (decimal (suc n))

lower_by : String → String → Char → Char
lower_by [] _ c = c
lower_by (u ∷ us) [] c = c
lower_by (u ∷ us) (l ∷ ls) c =
    let rest = lower_by us ls c in if nat_eq (code c) (code u) then l else rest

-- `strings.ToLower` on ASCII text, which is what resource kinds and identifiers are
unfoldable pub lower : String → String
unfolding lower_by
lower [] = []
lower (c ∷ s) = lower_by "ABCDEFGHIJKLMNOPQRSTUVWXYZ" "abcdefghijklmnopqrstuvwxyz" c ∷ lower s
