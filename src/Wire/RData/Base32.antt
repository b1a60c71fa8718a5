-- ===== src/Wire/RData/Base32.antt =====
-- packages/core/src/wire/rdata_decoder.ts: `base32hex_encode`.
use dnsdata_js.Base.{ℕ, zero, suc, ◌+◌, ◌*◌, ◌/◌, ◌%◌, ◌^◌, List, [], ◌∷◌, ◌++◌, ltb, if◌then◌else◌}
use dnsdata_js.Base.Slices.{Bytes}
use dnsdata_js.Base.Text.{Text}

abbrev pub base32hex_digit : ℕ → ℕ
base32hex_digit v = if ltb v 10 then 48 + v else 55 + v

-- The bits of an octet, the highest first.
unfoldable pub bit_list : ℕ → ℕ → List ℕ
bit_list zero b = []
bit_list (suc j) b = b / 2 ^ j % 2 ∷ bit_list j b

unfoldable pub all_bits : Bytes → List ℕ
unfolding bit_list
all_bits [] = []
all_bits (b ∷ bs) = bit_list 8 b ++ all_bits bs

-- Five bits to a digit; the last ones are filled up with zeros.
unfoldable pub digits_of : List ℕ → Text
digits_of [] = []
digits_of (a ∷ []) = base32hex_digit (a * 16) ∷ []
digits_of (a ∷ b ∷ []) = base32hex_digit (a * 16 + b * 8) ∷ []
digits_of (a ∷ b ∷ c ∷ []) = base32hex_digit (a * 16 + b * 8 + c * 4) ∷ []
digits_of (a ∷ b ∷ c ∷ d ∷ []) = base32hex_digit (a * 16 + b * 8 + c * 4 + d * 2) ∷ []
digits_of (a ∷ b ∷ c ∷ d ∷ e ∷ bits) =
    base32hex_digit (a * 16 + b * 8 + c * 4 + d * 2 + e) ∷ digits_of bits

unfoldable pub base32hex_encode : Bytes → Text
unfolding digits_of all_bits
base32hex_encode b = digits_of (all_bits b)
