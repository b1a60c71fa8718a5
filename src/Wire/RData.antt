-- ===== src/Wire/RData.antt =====
-- packages/core/src/wire/rdata_decoder.ts: presentation forms of record data. The base64 text of
-- octets is the parameter `base64`.
use dnsdata_js.Base.{
  ℕ, zero, suc, ◌+◌, ◌-◌, ◌*◌, ◌/◌, ◌%◌, ◌^◌, Bool, true, false, ◌&&◌, ◌||◌, not, if◌then◌else◌,
  List, [], ◌∷◌, ◌++◌, ◌==◌, leb, ltb, length, map, drop, is_empty,
}
use dnsdata_js.Base.Text.{Text, codes, join, decimal, to_hex_lower, to_hex_upper}
use dnsdata_js.Base.Slices.{Bytes, byte_at, be16, slice}
use dnsdata_js.Base.Result.{Result, ok, err, stuck, rdata_decode, throw_if, rethrow_as, ◌>>=◌, ◌>>◌}
use dnsdata_js.Wire.Name.{parse_domain_name}
use dnsdata_js.Wire.RData.Base32.{base32hex_encode}
use dnsdata_js.Wire.View.{uint16_at, get_uint32}
use dnsdata_js.Types.RrType.{rr_type_name}
pub mod Bitmap
pub mod Base32

abbrev pub space : Text
space = codes " "

unfoldable pub format_generic_rdata : Bytes → Text
unfolding decimal to_hex_lower
format_generic_rdata rdata =
    if length rdata == 0
    then codes "\\# 0"
    else codes "\\# " ++ decimal (length rdata) ++ space ++ to_hex_lower rdata

unfoldable pub format_ipv4 : Bytes → Text
unfolding join decimal
format_ipv4 b = join (codes ".") (
    decimal (byte_at b 0)
    ∷ decimal (byte_at b 1)
    ∷ decimal (byte_at b 2)
    ∷ decimal (byte_at b 3)
    ∷ [])

unfoldable pub decode_a : Bytes → Result Text
unfolding format_ipv4
decode_a rdata = throw_if (not (length rdata == 4)) rdata_decode >> ok (format_ipv4 rdata)

unfoldable pub decode_single_name : Bytes → ℕ → Result Text
unfolding parse_domain_name
decode_single_name msg rdata_start =
    rethrow_as rdata_decode (parse_domain_name msg rdata_start) >>= λ p. ok p.name

unfoldable pub decode_mx : Bytes → Bytes → ℕ → Result Text
unfolding parse_domain_name decimal
decode_mx msg rdata rdata_start =
    throw_if (ltb (length rdata) 3) rdata_decode
    >> rethrow_as rdata_decode (parse_domain_name msg (rdata_start + 2))
    >>= λ p. ok (decimal (uint16_at rdata 0) ++ space ++ p.name)

unfoldable pub decode_soa : Bytes → Bytes → ℕ → Result Text
unfolding parse_domain_name decimal get_uint32 join
decode_soa msg rdata rdata_start = do
  mname ← rethrow_as rdata_decode (parse_domain_name msg rdata_start)
  rname ← rethrow_as rdata_decode (parse_domain_name msg mname.next)
  throw_if (ltb (rdata_start + length rdata) (rname.next + 20)) rdata_decode
  serial ← get_uint32 msg rname.next
  refresh ← get_uint32 msg (rname.next + 4)
  retry ← get_uint32 msg (rname.next + 8)
  expire ← get_uint32 msg (rname.next + 12)
  minimum ← get_uint32 msg (rname.next + 16)
  ok (
      join space
        (mname.name ∷ rname.name ∷ map decimal (serial ∷ refresh ∷ retry ∷ expire ∷ minimum ∷ [])))

unfoldable pub decode_srv : Bytes → Bytes → ℕ → Result Text
unfolding parse_domain_name decimal join
decode_srv msg rdata rdata_start =
    throw_if (ltb (length rdata) 7) rdata_decode
    >> rethrow_as rdata_decode (parse_domain_name msg (rdata_start + 6))
    >>= λ p. ok (
        join space (
          decimal (uint16_at rdata 0)
          ∷ decimal (uint16_at rdata 2)
          ∷ decimal (uint16_at rdata 4)
          ∷ p.name
          ∷ []))

unfoldable pub decode_dnskey : (Bytes → Text) → Bytes → Result Text
unfolding decimal join
decode_dnskey base64 rdata =
    throw_if (ltb (length rdata) 4) rdata_decode
    >> ok (
        join space (
          decimal (uint16_at rdata 0)
          ∷ decimal (byte_at rdata 2)
          ∷ decimal (byte_at rdata 3)
          ∷ base64 (drop 4 rdata)
          ∷ []))

unfoldable pub decode_ds : Bytes → Result Text
unfolding decimal join to_hex_lower
decode_ds rdata =
    throw_if (ltb (length rdata) 4) rdata_decode
    >> ok (
        join space (
          decimal (uint16_at rdata 0)
          ∷ decimal (byte_at rdata 2)
          ∷ decimal (byte_at rdata 3)
          ∷ to_hex_lower (drop 4 rdata)
          ∷ []))

-- The inner loop of `decode_bitmap` over the bits of an octet, from bit `n` before the end on.
unfoldable pub bits_of : ℕ → ℕ → ℕ → List ℕ
bits_of zero byte base = []
bits_of (suc n) byte base =
    let rest = bits_of n byte (base + 1) in if byte / 2 ^ n % 2 == 1 then base ∷ rest else rest

-- The loop over the octets of a window. As the window's octets are 32 at most, `|` adds.
unfoldable pub types_of : ℕ → Bytes → List ℕ
unfolding bits_of
types_of base [] = []
types_of base (byte ∷ bytes) = bits_of 8 byte base ++ types_of (base + 8) bytes

-- The loop of `decode_bitmap` on what is left. Each round takes three octets at least.
unfoldable pub bitmap_loop : ℕ → Bytes → Result (List ℕ)
unfolding types_of
bitmap_loop fuel [] = ok []
bitmap_loop zero (b ∷ bs) = stuck
bitmap_loop (suc fuel) (window ∷ []) = err rdata_decode
bitmap_loop (suc fuel) (window ∷ len ∷ rest) =
    throw_if ((len == 0) || ltb 32 len) rdata_decode
    >> throw_if (ltb (length rest) len) rdata_decode
    >> bitmap_loop fuel (drop len rest)
    >>= λ types. ok (types_of (window * 256) (slice 0 len rest) ++ types)

unfoldable pub decode_bitmap : Bytes → Result (List ℕ)
unfolding bitmap_loop
decode_bitmap bitmap = bitmap_loop (length bitmap) bitmap

-- `salt.length === 0 ? '-' : to_hex_upper(salt)`
abbrev pub salt_text : Bytes → Text
salt_text salt = if is_empty salt then codes "-" else to_hex_upper salt

unfoldable pub decode_nsec : Bytes → Bytes → ℕ → Result Text
unfolding parse_domain_name decode_bitmap join rr_type_name
decode_nsec msg rdata rdata_start =
    rethrow_as rdata_decode (parse_domain_name msg rdata_start) >>= λ p.
    decode_bitmap (slice p.next (rdata_start + length rdata) msg) >>= λ types.
    ok (join space (p.name ∷ map rr_type_name types))

unfoldable pub decode_nsec3param : Bytes → Result Text
unfolding decimal join to_hex_upper
decode_nsec3param rdata =
    throw_if (ltb (length rdata) 5) rdata_decode
    >> throw_if (ltb (length rdata) (5 + byte_at rdata 4)) rdata_decode
    >> ok (
        join space (
          decimal (byte_at rdata 0)
          ∷ decimal (byte_at rdata 1)
          ∷ decimal (uint16_at rdata 2)
          ∷ salt_text (slice 5 (5 + byte_at rdata 4) rdata)
          ∷ []))

-- The rest of `decode_nsec3` behind the salt, at `pos`.
unfoldable pub decode_next_hash : Bytes → Bytes → ℕ → Result Text
unfolding decode_bitmap decimal join to_hex_upper base32hex_encode rr_type_name
decode_next_hash rdata salt pos =
    throw_if (ltb (length rdata) (pos + 1)) rdata_decode
    >> throw_if (ltb (length rdata) (pos + 1 + byte_at rdata pos)) rdata_decode
    >> decode_bitmap (drop (pos + 1 + byte_at rdata pos) rdata)
    >>= λ types. ok (
        join space (
          decimal (byte_at rdata 0)
          ∷ decimal (byte_at rdata 1)
          ∷ decimal (uint16_at rdata 2)
          ∷ salt_text salt
          ∷ base32hex_encode (slice (pos + 1) (pos + 1 + byte_at rdata pos) rdata)
          ∷ map rr_type_name types))

unfoldable pub decode_nsec3 : Bytes → Result Text
unfolding decode_next_hash
decode_nsec3 rdata =
    throw_if (ltb (length rdata) 5) rdata_decode
    >> throw_if (ltb (length rdata) (5 + byte_at rdata 4)) rdata_decode
    >> decode_next_hash rdata (slice 5 (5 + byte_at rdata 4) rdata) (5 + byte_at rdata 4)
