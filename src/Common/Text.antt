-- ===== src/Common/Text.antt =====
-- Go's `strings`, `strconv` and `unicode` as far as the program uses them, over native texts.
-- A text is a list of code points; Go compares bytes, which for UTF-8 is the same order.
pub mod Order
pub mod Blank
pub mod Split
pub mod Trim
use Prim.Native.Char.{Char, code}
use Prim.Native.String
use Prim.Native.String.{String, [], ◌∷◌}
use Prim.Native.Nat.{ℕ, zero, suc, ◌/◌, ◌%◌}
use mathlib.Core.Bool.{Bool, true, false, ◌&&◌, ◌||◌, not}
use mathlib.Core.List.{List, [], ◌∷◌}
use text.Mathlib.Text.{◌==◌}
use cluster_inventory_api.Common.Tests.{ltb, leb, nat_eq, if◌then◌else◌}

-- The pieces of a `fmt.Sprintf`, one after the other.
unfoldable pub concat : List String → String
concat [] = ""
concat (s ∷ rest) = String.◌++◌ s (concat rest)

-- strings.Join
unfoldable pub join : String → List String → String
join sep [] = ""
join sep (s ∷ []) = s
join sep (s ∷ t ∷ rest) = concat (s ∷ sep ∷ join sep (t ∷ rest) ∷ [])

-- unicode.IsSpace
unfoldable pub is_space : ℕ → Bool
is_space c =
    leb 9 c && leb c 13
    || nat_eq c 32
    || nat_eq c 0x85
    || nat_eq c 0xa0
    || nat_eq c 0x1680
    || leb 0x2000 c && leb c 0x200a
    || nat_eq c 0x2028
    || nat_eq c 0x2029
    || nat_eq c 0x202f
    || nat_eq c 0x205f
    || nat_eq c 0x3000

unfoldable pub trim_left : String → String
trim_left [] = ""
trim_left (c ∷ s) = let rest = trim_left s in if is_space (code c) then rest else c ∷ s

unfoldable pub trim_right : String → String
trim_right [] = ""
trim_right (c ∷ s) =
    let rest = trim_right s in if is_space (code c) && rest == "" then "" else c ∷ rest

-- strings.TrimSpace
unfoldable pub trim_space : String → String
unfolding trim_left trim_right is_space
trim_space s = trim_right (trim_left s)

-- strings.Split at one character: the piece in hand, in reverse, comes last.
split_from : ℕ → List String → String → String → List String
split_from sep parts cur [] = mathlib.Core.List.◌++◌ parts (cur ∷ [])
split_from sep parts cur (c ∷ s) =
    let closed = split_from sep (mathlib.Core.List.◌++◌ parts (cur ∷ [])) "" s in
    let longer = split_from sep parts (String.◌++◌ cur (c ∷ [])) s in
    if nat_eq (code c) sep then closed else longer

unfoldable pub split : ℕ → String → List String
unfolding split_from
split sep s = split_from sep [] "" s

-- The text of a digit; a number above nine is not one.
unfoldable pub digit : ℕ → String
digit zero = "0"
digit (suc zero) = "1"
digit (suc (suc zero)) = "2"
digit (suc (suc (suc zero))) = "3"
digit (suc (suc (suc (suc zero)))) = "4"
digit (suc (suc (suc (suc (suc zero))))) = "5"
digit (suc (suc (suc (suc (suc (suc zero)))))) = "6"
digit (suc (suc (suc (suc (suc (suc (suc zero))))))) = "7"
digit (suc (suc (suc (suc (suc (suc (suc (suc zero)))))))) = "8"
digit _ = "9"

decimal_from : ℕ → ℕ → String
decimal_from zero n = ""
decimal_from (suc fuel) n =
    let high = decimal_from fuel (n / 10) in
    if ltb n 10 then digit n else concat (high ∷ digit (n % 10) ∷ [])

-- `%d`: a number has fewer than `n + 1` digits.
unfoldable pub decimal : ℕ → String
unfolding decimal_from digit concat
decimal n = decimal_from (suc n) n

hex_digit : ℕ → String
hex_digit d =
    if nat_eq d 10
    then "a"
    else if nat_eq d 11
    then "b"
    else if nat_eq d 12
    then "c"
    else if nat_eq d 13
    then "d"
    else if nat_eq d 14
    then "e"
    else if nat_eq d 15
    then "f"
    else digit d

escape : Char → String
escape c =
    let n = code c in
    if nat_eq n 34
    then "\\\""
    else if nat_eq n 92
    then "\\\\"
    else if nat_eq n 7
    then "\\a"
    else if nat_eq n 8
    then "\\b"
    else if nat_eq n 9
    then "\\t"
    else if nat_eq n 10
    then "\\n"
    else if nat_eq n 11
    then "\\v"
    else if nat_eq n 12
    then "\\f"
    else if nat_eq n 13
    then "\\r"
    else if ltb n 32 || nat_eq n 127
    then concat ("\\x" ∷ hex_digit (n / 16) ∷ hex_digit (n % 16) ∷ [])
    else c ∷ ""

escape_all : String → String
escape_all [] = ""
escape_all (c ∷ s) = String.◌++◌ (escape c) (escape_all s)

-- `%q`; code points above 127 are taken to be printable.
unfoldable pub quote : String → String
unfolding escape_all escape hex_digit digit concat
quote s = concat ("\"" ∷ escape_all s ∷ "\"" ∷ [])
