-- ===== src/Base/Text.antt =====
-- Strings as lists of UTF-16 code units, and the functions of the standard library on them.
-- `to_lower` is exact for code units below 256, which is what the wire decoder yields.
use Prim.Native.Char.{code}
use Prim.Native.Nat.{ℕ, zero, suc, ◌+◌, ◌/◌, ◌%◌}
use Prim.Native.String.{String}
use mathlib.Core.Bool.{Bool, true, false, ◌&&◌, ◌||◌, not}
use mathlib.Core.Path.{◌≡◌}
use mathlib.Core.Logic.{◌↔◌}
use mathlib.Core.List.{List, [], ◌∷◌, ◌++◌, map}
use native.Mathlib.Omega.{arith}
use dnsdata_js.Base.Tests.{leb, ltb, ◌==◌, if◌then◌else◌}

abbrev pub Text : Type 0
Text = List ℕ

-- The code points of a literal.
abbrev pub codes : String → Text
codes String.[] = []
codes (String.◌∷◌ c s) = code c ∷ codes s

abbrev pub dot : ℕ
dot = b'.'

-- `a === b` on strings, and on any two arrays of numbers compared element by element.
unfoldable pub text_eq : Text → Text → Bool
text_eq [] [] = true
text_eq (x ∷ xs) (y ∷ ys) = x == y && text_eq xs ys
text_eq _ _ = false

pub text_eq_iff : (a b : Text) → (text_eq a b ≡ true) ↔ (a ≡ b)
unfolding text_eq
text_eq_iff (x ∷ a) (y ∷ b) = ground (arith, text_eq_iff a b)
text_eq_iff _ _ = ground arith

-- `toLowerCase` of one code unit of Latin-1: A-Z, and À-Þ but ×.
unfoldable pub lower_unit : ℕ → ℕ
lower_unit c =
    if (leb 0x41 c && leb c 0x5a) || (leb 0xc0 c && leb c 0xde && not (c == 0xd7))
    then c + 32
    else c

unfoldable pub to_lower : Text → Text
unfolding lower_unit
to_lower = map lower_unit

-- `parts.join(sep)`
unfoldable pub join : Text → List Text → Text
join sep [] = []
join sep (p ∷ []) = p
join sep (p ∷ q ∷ ps) = p ++ sep ++ join sep (q ∷ ps)

-- The first piece of `s.split(c)` gets one more unit in front.
abbrev pub cons_first : ℕ → List Text → List Text
cons_first c [] = (c ∷ []) ∷ []
cons_first c (p ∷ ps) = (c ∷ p) ∷ ps

-- `s.split(sep)`
unfoldable pub split : ℕ → Text → List Text
split sep [] = [] ∷ []
split sep (c ∷ s) = let ps = split sep s in if c == sep then [] ∷ ps else cons_first c ps

-- `s.endsWith('.')`
unfoldable pub ends_with_dot : Text → Bool
ends_with_dot [] = false
ends_with_dot (c ∷ []) = c == dot
ends_with_dot (c ∷ d ∷ s) = ends_with_dot (d ∷ s)

-- `s.slice(0, -1)`
unfoldable pub drop_last : Text → Text
drop_last [] = []
drop_last (c ∷ []) = []
drop_last (c ∷ d ∷ s) = c ∷ drop_last (d ∷ s)

-- `s.endsWith('.') ? s.slice(0, -1) : s`
unfoldable pub strip_trailing_dot : Text → Text
unfolding ends_with_dot drop_last
strip_trailing_dot s = if ends_with_dot s then drop_last s else s

-- `String(n)`, with fuel for the digits.
unfoldable pub digits_onto : ℕ → ℕ → Text → Text
digits_onto zero n out = out
digits_onto (suc f) n out =
    let rest = digits_onto f (n / 10) ((48 + n % 10) ∷ out) in
    if ltb n 10 then (48 + n) ∷ out else rest

-- A number has at most as many decimal digits as it has units, and always one.
unfoldable pub decimal : ℕ → Text
unfolding digits_onto
decimal n = digits_onto (suc n) n []

abbrev pub hex_digit : ℕ → ℕ
hex_digit n = if ltb n 10 then 48 + n else 87 + n

abbrev pub hex_digit_upper : ℕ → ℕ
hex_digit_upper n = if ltb n 10 then 48 + n else 55 + n

-- `Buffer.from(b).toString('hex')`
unfoldable pub to_hex_lower : List ℕ → Text
to_hex_lower [] = []
to_hex_lower (b ∷ bs) = hex_digit (b / 16) ∷ hex_digit (b % 16) ∷ to_hex_lower bs

-- The same, `.toUpperCase()`.
unfoldable pub to_hex_upper : List ℕ → Text
to_hex_upper [] = []
to_hex_upper (b ∷ bs) = hex_digit_upper (b / 16) ∷ hex_digit_upper (b % 16) ∷ to_hex_upper bs

-- `n.toString(16)`, with fuel for the digits.
unfoldable pub hex_onto : ℕ → ℕ → Text → Text
hex_onto zero n out = out
hex_onto (suc f) n out =
    let rest = hex_onto f (n / 16) (hex_digit (n % 16) ∷ out) in
    if ltb n 16 then hex_digit n ∷ out else rest

unfoldable pub hex_number : ℕ → Text
unfolding hex_onto
hex_number n = hex_onto (suc n) n []
