-- ===== src/Base/Text.antt =====
-- Go's strings.TrimSpace, strings.Split, strings.SplitN and strconv.Atoi, on the characters of a
-- text.
pub mod Laws
use Prim.Native.Nat.{ℕ, ◌+◌, ◌-◌, ◌*◌, ◌^◌}
use Prim.Native.Char.{Char, code}
use Prim.Native.String
use Prim.Native.String.{String}
use mathlib.Core.Bool.{Bool, true, false, ◌&&◌, ◌||◌}
use mathlib.Core.Option.{Option, none, some}
use mathlib.Core.List.{List, [], ◌∷◌}
use signal_flow.Base.Tests.{ltb, leb, nat_eq, if◌then◌else◌}
use signal_flow.Base.Int.{ℤ, pos, negsuc, sub_ℕ}

-- unicode.IsSpace.
abbrev pub is_space : Char → Bool
is_space c =
    (leb 9 (code c) && leb (code c) 13)
    || nat_eq (code c) 0x20
    || nat_eq (code c) 0x85
    || nat_eq (code c) 0xA0
    || nat_eq (code c) 0x1680
    || (leb 0x2000 (code c) && leb (code c) 0x200A)
    || nat_eq (code c) 0x2028
    || nat_eq (code c) 0x2029
    || nat_eq (code c) 0x202F
    || nat_eq (code c) 0x205F
    || nat_eq (code c) 0x3000

unfoldable pub trim_left : String → String
trim_left String.[] = String.[]
trim_left (String.◌∷◌ c s) = if is_space c then trim_left s else String.◌∷◌ c s

-- The character before what is left of the text behind it.
abbrev pub keep_before : Char → String → String
keep_before c String.[] = if is_space c then String.[] else String.◌∷◌ c String.[]
keep_before c (String.◌∷◌ d s) = String.◌∷◌ c (String.◌∷◌ d s)

unfoldable pub trim_right : String → String
trim_right String.[] = String.[]
trim_right (String.◌∷◌ c s) = keep_before c (trim_right s)

unfoldable pub trim_space : String → String
unfolding trim_left trim_right
trim_space s = trim_right (trim_left s)

-- The parts of a split, with the character put before the first.
abbrev pub push_first : Char → List String → List String
push_first c [] = String.◌∷◌ c String.[] ∷ []
push_first c (p ∷ ps) = String.◌∷◌ c p ∷ ps

-- strings.Split by a separator of one character, which is given by its code.
unfoldable pub split : ℕ → String → List String
split sep String.[] = String.[] ∷ []
split sep (String.◌∷◌ c s) =
    let rest = split sep s in if nat_eq (code c) sep then String.[] ∷ rest else push_first c rest

abbrev pub with_first : Char → Option (String × String) → Option (String × String)
with_first c none = none
with_first c (some (p, q)) = some (String.◌∷◌ c p, q)

-- strings.SplitN(s, sep, 2) where it gives two parts.
unfoldable pub split_pair : ℕ → String → Option (String × String)
split_pair sep String.[] = none
split_pair sep (String.◌∷◌ c s) =
    let rest = split_pair sep s in
    if nat_eq (code c) sep then some (String.[], s) else with_first c rest

abbrev max_uint : ℕ
max_uint = 2 ^ 64 - 1

-- The number that decimal digits spell behind `n`; `none` where another character stands. The
-- scan ends where the number has left 64 bits.
unfoldable pub digits_from : ℕ → String → Option ℕ
digits_from n String.[] = some n
digits_from n (String.◌∷◌ c s) =
    let m = n * 10 + (code c - b'0') in
    let rest = digits_from m s in
    if leb b'0' (code c) && leb (code c) b'9'
    then (if leb m max_uint then rest else some m)
    else none

abbrev pub max_int : ℕ
max_int = 2 ^ 63 - 1

-- The value that Atoi returns beside its error: zero for what is no number, and the nearest int
-- for a number out of range.
abbrev clamp_pos : Option ℕ → ℤ
clamp_pos none = pos 0
clamp_pos (some n) = if leb n max_int then pos n else pos max_int

abbrev clamp_neg : Option ℕ → ℤ
clamp_neg none = pos 0
clamp_neg (some n) = if leb n (max_int + 1) then sub_ℕ 0 n else negsuc max_int

-- At least one digit.
unfoldable pub digits : String → Option ℕ
unfolding digits_from
digits String.[] = none
digits (String.◌∷◌ c s) = digits_from 0 (String.◌∷◌ c s)

unfoldable pub atoi : String → ℤ
unfolding digits
atoi String.[] = pos 0
atoi (String.◌∷◌ c s) =
    if nat_eq (code c) b'-'
    then clamp_neg (digits s)
    else if nat_eq (code c) b'+'
    then clamp_pos (digits s)
    else clamp_pos (digits (String.◌∷◌ c s))
