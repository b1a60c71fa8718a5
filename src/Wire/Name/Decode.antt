-- ===== src/Wire/Name/Decode.antt =====
-- packages/core/src/wire/dns_wire.ts: `wire2domain_name`, the decoder without compression.
pub mod RoundTrip
use dnsdata_js.Base.{
  ℕ, zero, suc, Bool, true, false, [], ◌∷◌, ◌++◌, ltb, leb, ◌==◌, if◌then◌else◌, length, take, drop,
}
use dnsdata_js.Base.Slices.{Bytes}
use dnsdata_js.Base.Text.{Text, dot}
use dnsdata_js.Base.Result.{wire_error, Result, ok, err, stuck}

-- The loop on the octets from `i` on; `first` is `i === 0`.
unfoldable pub decode_loop : ℕ → Bool → Bytes → Text → Result Text
decode_loop fuel first [] x = ok x
decode_loop zero first (s ∷ wire) x = stuck
decode_loop (suc fuel) first (s ∷ wire) x =
    let root = decode_loop fuel false wire (x ++ dot ∷ []) in
    let label =
      decode_loop fuel false (drop s wire) ((if first then x else x ++ dot ∷ []) ++ take s wire) in
    if s == 0
    then root
    else if leb 0x40 s
    then err wire_error
    else if ltb (length wire) s
    then err wire_error
    else label

-- Each round takes an octet at least.
unfoldable pub wire2domain_name : Bytes → Result Text
unfolding decode_loop
wire2domain_name wire = decode_loop (length wire) true wire []
