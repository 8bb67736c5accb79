-- ===== src/Prelude/Words.antt =====
-- Python's `strip`, `split(",")`, `str(n)` and `int(s)`, on ASCII text.
pub mod RoundTrip
use Prim.Native.Nat.{ℕ, zero, suc, ◌+◌, ◌-◌, ◌*◌, ◌/◌, ◌%◌}
use Prim.Native.Char.{Char, code}
use Prim.Native.String.{String}
use mathlib.Core.Bool.{Bool, true, false, ◌||◌, ◌&&◌}
use mathlib.Core.Option.{Option, none, some}
use mathlib.Core.List.{List, [], ◌∷◌}
use kafka_playgroud.Prelude.Tests.{◌==◌, nat_eq, string_eq, leb, ltb, if◌then◌else◌}
use kafka_playgroud.Prelude.Int.{ℤ, pos, negsuc}

abbrev pub is_space : ℕ → Bool
is_space c = c == 32 || (leb 9 c && leb c 13) || (leb 28 c && leb c 31)

lstrip : String → String
lstrip String.[] = ""
lstrip (String.◌∷◌ c s) = let rest = lstrip s in if is_space (code c) then rest else String.◌∷◌ c s

rstrip : String → String
rstrip String.[] = ""
rstrip (String.◌∷◌ c s) =
    let rest = rstrip s in if is_space (code c) && rest == "" then "" else String.◌∷◌ c rest

unfoldable pub strip : String → String
unfolding lstrip rstrip
strip s = lstrip (rstrip s)

abbrev onto_first : Char → List String → List String
onto_first c [] = String.◌∷◌ c "" ∷ []
onto_first c (w ∷ ws) = String.◌∷◌ c w ∷ ws

unfoldable pub split_commas : String → List String
split_commas String.[] = "" ∷ []
split_commas (String.◌∷◌ c s) =
    let rest = split_commas s in if code c == 44 then "" ∷ rest else onto_first c rest

digit : ℕ → Char
digit zero = "0"
digit (suc zero) = "1"
digit (suc (suc zero)) = "2"
digit (suc (suc (suc zero))) = "3"
digit (suc (suc (suc (suc zero)))) = "4"
digit (suc (suc (suc (suc (suc zero))))) = "5"
digit (suc (suc (suc (suc (suc (suc zero)))))) = "6"
digit (suc (suc (suc (suc (suc (suc (suc zero))))))) = "7"
digit (suc (suc (suc (suc (suc (suc (suc (suc zero)))))))) = "8"
digit _ = "9"

-- The decimal digits of `n` in front of a text; fuel above `n` is enough.
digits : ℕ → ℕ → String → String
digits zero n out = out
digits (suc fuel) n out =
    let rest = digits fuel (n / 10) (String.◌∷◌ (digit (n % 10)) out) in
    if ltb n 10 then String.◌∷◌ (digit n) out else rest

-- `str(n)` of a number that is not negative
unfoldable pub str_of : ℕ → String
unfolding digits digit
str_of n = digits (suc n) n ""

abbrev is_digit : ℕ → Bool
is_digit c = leb 48 c && leb c 57

-- Digits, with an underscore allowed between two of them; `after` says that a digit came before.
read_digits : Bool → ℕ → String → Option ℕ
read_digits after n String.[] = if after then some n else none
read_digits after n (String.◌∷◌ c s) =
    let d = is_digit (code c) in
    let rest = read_digits d (if d then n * 10 + (code c - 48) else n) s in
    if d || (after && code c == 95) then rest else none

abbrev negated : Option ℕ → Option ℤ
negated none = none
negated (some zero) = some (pos zero)
negated (some (suc n)) = some (negsuc n)

abbrev positive : Option ℕ → Option ℤ
positive none = none
positive (some n) = some (pos n)

read_int : String → Option ℤ
unfolding read_digits
read_int String.[] = none
read_int (String.◌∷◌ c s) =
    if code c == 45
    then negated (read_digits false 0 s)
    else if code c == 43
    then positive (read_digits false 0 s)
    else positive (read_digits false 0 (String.◌∷◌ c s))

-- `int(s)`; `none` is `ValueError`
unfoldable pub int_of : String → Option ℤ
unfolding read_int strip
int_of s = read_int (strip s)
