-- ===== src/Wire/Builder.antt =====
-- packages/core/src/wire/dns_wire_util.ts: `WireBuilder` and `compare_uint8arrays`.
use dnsdata_js.Base.{
  ℕ, ◌+◌, ◌-◌, ◌/◌, ◌%◌, ◌^◌, ◌<◌, ◌≤◌, List, [], ◌∷◌, ◌++◌, ltb, ◌==◌, if◌then◌else◌, length,
}
use dnsdata_js.Base.Order.{Sign, sign_of_sub}
use dnsdata_js.Base.Slices.{Bytes}
pub mod Laws
pub mod Order

-- `buf`
pub record WireBuilder : Type 0 where
  pub buf : Bytes

abbrev pub new_builder : WireBuilder
new_builder = record { buf = [] }

unfoldable pub length_of : WireBuilder → ℕ
length_of w = length w.buf

unfoldable pub append_uint8 : ℕ → WireBuilder → WireBuilder
append_uint8 v w = record w { buf = w.buf ++ v % 256 ∷ [] }

unfoldable pub append_uint16 : ℕ → WireBuilder → WireBuilder
append_uint16 v w = record w { buf = w.buf ++ v / 2 ^ 8 % 256 ∷ v % 256 ∷ [] }

-- `>>` works on v modulo 2^32, of which each line keeps eight bits.
unfoldable pub append_uint32 : ℕ → WireBuilder → WireBuilder
append_uint32 v w = record w {
  buf = w.buf ++ v / 2 ^ 24 % 256 ∷ v / 2 ^ 16 % 256 ∷ v / 2 ^ 8 % 256 ∷ v % 256 ∷ [];
}

unfoldable pub append_bytes : Bytes → WireBuilder → WireBuilder
append_bytes [] w = w
append_bytes (b ∷ bs) w = append_bytes bs (record w { buf = w.buf ++ b ∷ [] })

unfoldable pub build : WireBuilder → Bytes
build w = w.buf

-- The sign of the result, which is all its callers use: the loop over the common length, then
-- the difference of the lengths.
unfoldable pub compare_uint8arrays : Bytes → Bytes → Sign
unfolding sign_of_sub
compare_uint8arrays [] b = sign_of_sub 0 (length b)
compare_uint8arrays (x ∷ a) [] = sign_of_sub (length (x ∷ a)) 0
compare_uint8arrays (x ∷ a) (y ∷ b) = if x == y then compare_uint8arrays a b else sign_of_sub x y
