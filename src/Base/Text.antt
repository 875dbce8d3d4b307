-- ===== src/Base/Text.antt =====
-- The string built-ins that the source calls on its inputs: `trim`, `toLowerCase`, `toUpperCase`
-- and `===`, on texts as lists of UTF-16 code units. The case mappings are written out where the
-- result is ASCII; they keep every other unit, which the source's ASCII patterns refuse anyway.
pub mod Laws
pub mod Dotted
use moventra_tms.Base.Tests.{ltb, leb, ◌==◌, if◌then◌else◌}
use moventra_tms.Base.Json.{Text, codes}
use moventra_tms.Base.Lists.{allb, anyb, contains}
use Prim.Native.Nat.{ℕ, ◌+◌, ◌-◌}
use mathlib.Core.Bool.{Bool, true, false, ◌&&◌, ◌||◌}
use mathlib.Core.List.{List, [], ◌∷◌, ◌++◌, reverse}

-- WhiteSpace and LineTerminator of ECMAScript.
unfoldable pub is_space : ℕ → Bool
is_space c =
    (leb 9 c && leb c 13)
    || c == 32
    || c == 0xa0
    || c == 0x1680
    || (leb 0x2000 c && leb c 0x200a)
    || c == 0x2028
    || c == 0x2029
    || c == 0x202f
    || c == 0x205f
    || c == 0x3000
    || c == 0xfeff

unfoldable pub trim_start : Text → Text
trim_start [] = []
trim_start (c ∷ s) = let rest = trim_start s in if is_space c then rest else c ∷ s

unfoldable pub trim : Text → Text
unfolding trim_start
trim s = reverse (trim_start (reverse (trim_start s)))

abbrev pub is_lower : ℕ → Bool
is_lower c = leb b'a' c && leb c b'z'

abbrev pub is_upper : ℕ → Bool
is_upper c = leb b'A' c && leb c b'Z'

abbrev pub is_digit : ℕ → Bool
is_digit c = leb b'0' c && leb c b'9'

-- `K` (KELVIN SIGN) and `İ` are the two units beyond ASCII whose lower case holds an ASCII letter.
unfoldable pub lower_unit : ℕ → Text
lower_unit c =
    if is_upper c
    then (c + 32) ∷ []
    else if c == 0x212a
    then b'k' ∷ []
    else if c == 0x130
    then b'i' ∷ 0x307 ∷ []
    else c ∷ []

unfoldable pub to_lower_case : Text → Text
unfolding lower_unit
to_lower_case [] = []
to_lower_case (c ∷ s) = lower_unit c ++ to_lower_case s

-- The units beyond ASCII whose upper case is ASCII: `ß ı ſ` and the Latin ligatures.
unfoldable pub upper_unit : ℕ → Text
upper_unit c =
    if is_lower c
    then (c - 32) ∷ []
    else if c == 0xdf
    then codes "SS"
    else if c == 0x131
    then codes "I"
    else if c == 0x17f
    then codes "S"
    else if c == 0xfb00
    then codes "FF"
    else if c == 0xfb01
    then codes "FI"
    else if c == 0xfb02
    then codes "FL"
    else if c == 0xfb03
    then codes "FFI"
    else if c == 0xfb04
    then codes "FFL"
    else if c == 0xfb05
    then codes "ST"
    else if c == 0xfb06
    then codes "ST"
    else c ∷ []

unfoldable pub to_upper_case : Text → Text
unfolding upper_unit
to_upper_case [] = []
to_upper_case (c ∷ s) = upper_unit c ++ to_upper_case s

unfoldable pub text_eq : Text → Text → Bool
text_eq [] [] = true
text_eq [] (d ∷ t) = false
text_eq (c ∷ s) [] = false
text_eq (c ∷ s) (d ∷ t) = c == d && text_eq s t

-- `new Set([…]).has(s)`
unfoldable pub one_of : List Text → Text → Bool
unfolding text_eq
one_of [] s = false
one_of (t ∷ ts) s = text_eq t s || one_of ts s
