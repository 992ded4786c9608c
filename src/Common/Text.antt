-- ===== src/Common/Text.antt =====
-- The text functions of Go's standard library that the program calls.
use Prim.Native.Nat.{ℕ, zero, suc, ◌-◌, ◌/◌, ◌%◌}
use Prim.Native.Char.{Char, code}
use Prim.Native.String.{String, ◌++◌}
use mathlib.Core.Path.{◌≡◌, refl}
use native.Mathlib.Decide.{ℕ_discrete}
use mathlib.Core.Bool.{Bool, true, false, ◌||◌, ◌&&◌}
use mathlib.Core.List.{List}
use mathlib.Core.Option
use mathlib.Core.Option.{Option, none, some}
use notyetanotherenvoybacken.Common.Tests.{◌==◌, if◌then◌else◌, ltb, leb, nat_eq}

unfoldable pub digit : ℕ → String
digit zero = "0"
digit (suc zero) = "1"
digit (suc (suc zero)) = "2"
digit (suc (suc (suc zero))) = "3"
digit (suc (suc (suc (suc zero)))) = "4"
digit (suc (suc (suc (suc (suc zero))))) = "5"
digit (suc (suc (suc (suc (suc (suc zero)))))) = "6"
digit (suc (suc (suc (suc (suc (suc (suc zero))))))) = "7"
digit (suc (suc (suc (suc (suc (suc (suc (suc zero)))))))) = "8"
digit _ = "9"

-- One round for each digit: more fuel than the number has digits.
unfoldable pub decimal_rounds : ℕ → ℕ → String
decimal_rounds zero n = digit n
decimal_rounds (suc f) n =
    let rest = decimal_rounds f (n / 10) in if ltb n 10 then digit n else rest ++ digit (n % 10)

-- `fmt.Sprintf("%d", n)` of a number that is not negative
unfoldable pub decimal : ℕ → String
unfolding digit decimal_rounds
decimal n = decimal_rounds n n

-- `strings.ReplaceAll(s, old, new)` where `old` is one character
unfoldable pub replace_all : ℕ → String → String → String
replace_all old new String.[] = ""
replace_all old new (String.◌∷◌ c s) =
    let rest = replace_all old new s in if code c == old then new ++ rest else String.◌∷◌ c rest

-- Whether the character of this code stands in the text.
unfoldable pub has_char : ℕ → String → Bool
has_char old String.[] = false
has_char old (String.◌∷◌ c s) = if code c == old then true else has_char old s

-- `strings.SplitN(s, sep, 2)` where `sep` is one character: the parts around its first occurrence
unfoldable pub cut : ℕ → String → Option (String × String)
cut sep String.[] = none
cut sep (String.◌∷◌ c s) =
    let rest = cut sep s in
    if code c == sep then some ("", s) else Option.map (λ (a, b). (String.◌∷◌ c a, b)) rest

-- `strings.Join(parts, separator)`
unfoldable pub join : String → List String → String
join separator List.[] = ""
join separator (List.◌∷◌ s List.[]) = s
join separator (List.◌∷◌ s (List.◌∷◌ t rest)) = s ++ separator ++ join separator (List.◌∷◌ t rest)

-- `fmt.Sprintf` with `%s` alone: the pieces in order
abbrev pub sprintf : List String → String
sprintf List.[] = ""
sprintf (List.◌∷◌ s List.[]) = s
sprintf (List.◌∷◌ s (List.◌∷◌ t rest)) = s ++ sprintf (List.◌∷◌ t rest)

abbrev pub nth_char : Char → ℕ → String → Char
nth_char c n String.[] = c
nth_char c zero (String.◌∷◌ d s) = d
nth_char c (suc n) (String.◌∷◌ d s) = nth_char c n s

abbrev pub lower_char : Char → Char
lower_char c =
    if ltb (code c) b'A' || ltb b'Z' (code c)
    then c
    else nth_char c (code c - b'A') "abcdefghijklmnopqrstuvwxyz"

-- `strings.ToLower` of ASCII text
unfoldable pub to_lower : String → String
to_lower String.[] = ""
to_lower (String.◌∷◌ c s) = String.◌∷◌ (lower_char c) (to_lower s)

abbrev is_space : ℕ → Bool
is_space c = c == 32 || (leb 9 c && leb c 13)

unfoldable pub trim_left : String → String
trim_left String.[] = ""
trim_left (String.◌∷◌ c s) =
    let rest = trim_left s in if is_space (code c) then rest else String.◌∷◌ c s

-- a white space before nothing goes as well
abbrev put_unless_blank : Char → String → String
put_unless_blank c String.[] = if is_space (code c) then "" else String.◌∷◌ c ""
put_unless_blank c (String.◌∷◌ d s) = String.◌∷◌ c (String.◌∷◌ d s)

unfoldable pub trim_right : String → String
trim_right String.[] = ""
trim_right (String.◌∷◌ c s) = put_unless_blank c (trim_right s)

-- `strings.TrimSpace` of ASCII text
unfoldable pub trim_space : String → String
unfolding trim_left trim_right
trim_space s = trim_left (trim_right s)

decimal-8080 : decimal 8080 ≡ "8080"
unfolding decimal
decimal-8080 = refl

to_lower-Header : to_lower "X-Api-Key" ≡ "x-api-key"
unfolding to_lower
to_lower-Header = refl

trim_space-token : trim_space " a b\n" ≡ "a b"
unfolding trim_space ℕ_discrete
trim_space-token = refl
