-- ===== src/Prelude/Text.antt =====
-- The methods of JavaScript's `String` that the program uses.
use Prim.Native.Nat.{ℕ, zero, suc, ◌+◌, ◌/◌, ◌%◌}
use Prim.Native.Char.{code}
use Prim.Native.String.{String}
use mathlib.Core.Bool.{Bool, true, false, ◌&&◌, ◌||◌}
use cyclewarden.Prelude.Tests.{ltb, leb, nat_beq, if◌then◌else◌}

-- White space and line terminators of ECMAScript.
unfoldable pub is_space : ℕ → Bool
is_space c =
    (leb 9 c && leb c 13)
    || nat_beq c 32
    || nat_beq c 160
    || nat_beq c 0x1680
    || (leb 0x2000 c && leb c 0x200a)
    || nat_beq c 0x2028
    || nat_beq c 0x2029
    || nat_beq c 0x202f
    || nat_beq c 0x205f
    || nat_beq c 0x3000
    || nat_beq c 0xfeff

-- A text is falsy when it is empty.
abbrev pub is_blank : String → Bool
is_blank String.[] = true
is_blank (String.◌∷◌ c s) = false

trim_start : String → String
unfolding is_space
trim_start String.[] = ""
trim_start (String.◌∷◌ c s) = if is_space (code c) then trim_start s else String.◌∷◌ c s

trim_end : String → String
unfolding is_space
trim_end String.[] = ""
trim_end (String.◌∷◌ c s) =
    let rest = trim_end s in if is_blank rest && is_space (code c) then "" else String.◌∷◌ c rest

-- `s.trim()`
unfoldable pub trim : String → String
unfolding trim_start trim_end
trim s = trim_end (trim_start s)

-- `s.length`: UTF-16 code units.
unfoldable pub utf16_length : String → ℕ
utf16_length String.[] = 0
utf16_length (String.◌∷◌ c s) = (if ltb (code c) 0x10000 then 1 else 2) + utf16_length s

infixr 65 ◌++ₛ◌
-- Text concatenation.
abbrev pub ◌++ₛ◌ : String → String → String
String.[] ++ₛ t = t
(String.◌∷◌ c s) ++ₛ t = String.◌∷◌ c (s ++ₛ t)

-- The n-th character of a text, as a text.
unfoldable pub char_at : ℕ → String → String
char_at n String.[] = ""
char_at zero (String.◌∷◌ c s) = String.◌∷◌ c ""
char_at (suc n) (String.◌∷◌ c s) = char_at n s

unfoldable pub digit : ℕ → String
unfolding char_at
digit n = char_at n "0123456789"

-- The decimal digits of `n` before `rest`. Each of the `fuel` steps divides by ten, so that `n` steps are
-- enough.
decimal_from : ℕ → ℕ → String → String
unfolding digit
decimal_from zero n rest = digit n ++ₛ rest
decimal_from (suc fuel) n rest =
    let more = decimal_from fuel (n / 10) (digit (n % 10) ++ₛ rest) in
    if ltb n 10 then digit n ++ₛ rest else more

-- `String(n)`
unfoldable pub decimal : ℕ → String
unfolding decimal_from
decimal n = decimal_from n n ""
