-- ===== src/Common/Text.antt =====
-- What the source uses of Rust's `str`: `trim`, `is_empty`, and `parse` into a `u32`.
use Prim.Native.Char.{Char, code}
use Prim.Native.String.{◌++◌}
use Prim.Native.Nat.{zero, suc, ◌/◌, ◌%◌, ℕ, ◌+◌, ◌-◌, ◌*◌, ◌^◌}
use Prim.Native.String.{String}
use mathlib.Core.Bool.{Bool, true, false, ◌&&◌, ◌||◌}
use mathlib.Core.List.{List, [], ◌∷◌}
use mathlib.Core.Option.{Option, none, some}
use voxply_server.Common.Tests.{ltb, leb, if◌then◌else◌}

abbrev same : ℕ → ℕ → Bool
same a b = leb a b && leb b a

-- the property White_Space of Unicode
abbrev is_whitespace : ℕ → Bool
is_whitespace c =
    (leb 9 c && leb c 13)
    || same c 32
    || same c 133
    || same c 160
    || same c 5760
    || (leb 8192 c && leb c 8202)
    || same c 8232
    || same c 8233
    || same c 8239
    || same c 8287
    || same c 12288

unfoldable pub is_empty : String → Bool
is_empty String.[] = true
is_empty (String.◌∷◌ c s) = false

trim_start : String → String
trim_start String.[] = String.[]
trim_start (String.◌∷◌ c s) =
    let rest = trim_start s in if is_whitespace (code c) then rest else String.◌∷◌ c s

trim_end : String → String
unfolding is_empty
trim_end String.[] = String.[]
trim_end (String.◌∷◌ c s) =
    let rest = trim_end s in
    if is_whitespace (code c) && is_empty rest then String.[] else String.◌∷◌ c rest

unfoldable pub trim : String → String
unfolding trim_start trim_end
trim s = trim_end (trim_start s)

-- the value of the digits read so far, or `none` at a character that is no digit
digits : ℕ → String → Option ℕ
digits n String.[] = some n
digits n (String.◌∷◌ c s) =
    let rest = digits (n * 10 + (code c - 48)) s in
    if leb 48 (code c) && leb (code c) 57 then rest else none

fits : ℕ → Option ℕ → Option ℕ
fits w none = none
fits w (some n) = if ltb n (2 ^ w) then some n else none

drop_plus : String → String
drop_plus String.[] = String.[]
drop_plus (String.◌∷◌ c s) = if same (code c) 43 then s else String.◌∷◌ c s

-- `s.parse().ok()` into an unsigned integer of `w` bits: an optional `+`, then one digit at least
unfoldable pub parse_bits : ℕ → String → Option ℕ
unfolding digits fits drop_plus is_empty
parse_bits w s = if is_empty (drop_plus s) then none else fits w (digits 0 (drop_plus s))

abbrev pub parse_u32 : String → Option ℕ
parse_u32 = parse_bits 32

-- the bytes of an ASCII text
unfoldable pub codes : String → List ℕ
codes String.[] = []
codes (String.◌∷◌ c s) = code c ∷ codes s

unfoldable pub consed : Char → Option (String × String) → Option (String × String)
consed c none = none
consed c (some (before, after)) = some (String.◌∷◌ c before, after)

-- the text before the first character of the code `at`, and the text after it
unfoldable pub split_at : ℕ → String → Option (String × String)
unfolding consed
split_at at String.[] = none
split_at at (String.◌∷◌ c s) =
    let rest = split_at at s in if same (code c) at then some (String.[], s) else consed c rest

abbrev pub split_at_dot : String → Option (String × String)
split_at_dot = split_at 46

abbrev pub split_at_colon : String → Option (String × String)
split_at_colon = split_at 58

abbrev digit : ℕ → String
digit n =
    if leb n 0
    then "0"
    else if leb n 1
    then "1"
    else if leb n 2
    then "2"
    else if leb n 3
    then "3"
    else if leb n 4
    then "4"
    else if leb n 5
    then "5"
    else if leb n 6
    then "6"
    else if leb n 7
    then "7"
    else if leb n 8
    then "8"
    else "9"

-- the digits of a number that has at most `fuel` of them
unfoldable pub to_decimal : ℕ → ℕ → String
to_decimal zero n = String.[]
to_decimal (suc fuel) n =
    let front = to_decimal fuel (n / 10) in if leb n 9 then digit n else front ++ digit (n % 10)

-- `strip_prefix`, which takes the prefix first here
unfoldable pub strip_prefix : String → String → Option String
strip_prefix String.[] s = some s
strip_prefix (String.◌∷◌ p ps) String.[] = none
strip_prefix (String.◌∷◌ p ps) (String.◌∷◌ c s) =
    let rest = strip_prefix ps s in if same (code p) (code c) then rest else none
