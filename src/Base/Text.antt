-- ===== src/Base/Text.antt =====
-- Text as a list of code points, with the methods of `str` that the program uses.
use Prim.Native.Nat.{ℕ}
use Prim.Native.Nat.{zero, suc, ◌+◌, ◌-◌, ◌/◌, ◌%◌}
use Prim.Native.Char.{code}
use Prim.Native.String.{String}
use mathlib.Core.Bool.{Bool, true, false, ◌&&◌, ◌||◌}
use mathlib.Core.List.{List, [], ◌∷◌, reverse, map}
use september.Base.Tests.{leb, ◌==◌, if◌then◌else◌}

abbrev pub Text : Type 0
Text = List ℕ

-- char::is_whitespace: the code points with the property White_Space.
unfoldable pub is_whitespace : ℕ → Bool
is_whitespace c =
    (leb 9 c && leb c 13)
    || c == 32
    || c == 133
    || c == 160
    || c == 5760
    || (leb 8192 c && leb c 8202)
    || c == 8232
    || c == 8233
    || c == 8239
    || c == 8287
    || c == 12288

-- char::is_control: the general category Cc.
unfoldable pub is_control : ℕ → Bool
is_control c = leb c 31 || (leb 127 c && leb c 159)

unfoldable pub starts_with : Text → Text → Bool
starts_with s [] = true
starts_with [] (p ∷ pattern) = false
starts_with (c ∷ s) (p ∷ pattern) = c == p && starts_with s pattern

unfoldable pub ends_with : Text → Text → Bool
ends_with s pattern = starts_with (reverse s) (reverse pattern)

unfoldable pub contains : Text → Text → Bool
contains [] pattern = starts_with [] pattern
contains (c ∷ s) pattern = starts_with (c ∷ s) pattern || contains s pattern

unfoldable pub trim_start : Text → Text
trim_start [] = []
trim_start (c ∷ s) = let rest = trim_start s in if is_whitespace c then rest else c ∷ s

unfoldable pub trim_end : Text → Text
trim_end s = reverse (trim_start (reverse s))

unfoldable pub trim : Text → Text
trim s = trim_end (trim_start s)

unfoldable pub any : (ℕ → Bool) → Text → Bool
any p [] = false
any p (c ∷ s) = p c || any p s

unfoldable pub all : (ℕ → Bool) → Text → Bool
all p [] = true
all p (c ∷ s) = p c && all p s

unfoldable pub is_empty : Text → Bool
is_empty [] = true
is_empty (c ∷ s) = false

-- str::to_lowercase and str::to_uppercase on ASCII; other letters are left alone. The texts that a
-- lower-cased one is compared with have no letter that another alphabet's letter maps to. What is
-- upper-cased are capability lines, which are taken to be ASCII, as RFC 3977 has them: the long s, the
-- dotless i and the ligatures would map into ASCII.
lower : ℕ → ℕ
lower c = if leb 65 c && leb c 90 then c + 32 else c

upper : ℕ → ℕ
upper c = if leb 97 c && leb c 122 then c - 32 else c

unfoldable pub to_lowercase : Text → Text
unfolding lower
to_lowercase = map lower

unfoldable pub to_uppercase : Text → Text
unfolding upper
to_uppercase = map upper

-- The code points of a literal.
abbrev pub codes : String → Text
codes String.[] = []
codes (String.◌∷◌ c s) = code c ∷ codes s

-- The decimal digits of a number, of at most 20 digits as a u64 has.
digits : ℕ → ℕ → Text → Text
digits zero n text = text
digits (suc fuel) n text =
    let s = (48 + n % 10) ∷ text in
    let longer = digits fuel (n / 10) s in if leb 10 n then longer else s

unfoldable pub decimal : ℕ → Text
unfolding digits
decimal n = digits 20 n []
