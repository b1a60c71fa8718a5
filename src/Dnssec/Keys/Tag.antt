-- ===== src/Dnssec/Keys/Tag.antt =====
-- packages/core/src/dnssec/dnskey.ts: the key tag against RFC 4034, appendix B.
use dnsdata_js.Base.{ℕ, ◌+◌, ◌*◌, ◌/◌, ◌%◌, ◌<◌, false, [], ◌∷◌, ◌==◌, All, ◌≡◌, ap, ◌∙◌, arith}
use dnsdata_js.Base.Slices.{Bytes, IsByte}
use dnsdata_js.Dnssec.Keys.{DnsKey, add_pairs, calc_key_tag}

-- The sum of appendix B, octet by octet: the first weight is that of the octets at even positions.
abbrev pub octet_sum : ℕ → ℕ → Bytes → ℕ
octet_sum even odd [] = 0
octet_sum even odd (b ∷ bs) = b * even + octet_sum odd even bs

-- The RDATA of a DNSKEY record.
abbrev pub key_rdata : DnsKey → Bytes
key_rdata k = k.flags / 256 ∷ k.flags % 256 ∷ k.protocol ∷ k.algorithm ∷ k.key_data

-- `ac += (ac >> 16) & 0xFFFF; return ac & 0xFFFF;`
abbrev pub fold_carry : ℕ → ℕ
fold_carry ac = (ac + ac / 65536 % 65536) % 65536

add_pairs-octet_sum :
    (bs : Bytes) (value : ℕ) → All IsByte bs → add_pairs value bs ≡ value + octet_sum 256 1 bs
unfolding add_pairs
add_pairs-octet_sum [] value h = omega arith
add_pairs-octet_sum (x ∷ []) value (p, h) = omega arith
add_pairs-octet_sum (x ∷ y ∷ bs) value (p, (q, h)) =
    add_pairs-octet_sum bs (value + (x % 256 * 256 + y % 256)) h ∙ omega arith

-- The key tag of a key of octets, whose algorithm is not RSAMD5, is the one of RFC 4034, appendix B:
-- the octets of its RDATA are summed, those at even positions 256 times, and what is carried beyond
-- 16 bits is added to the low 16 bits.
pub calc_key_tag-octet_sum :
    (k : DnsKey)
    → (k.algorithm == 1) ≡ false
    → k.flags < 65536
    → IsByte k.protocol
    → IsByte k.algorithm
    → All IsByte k.key_data
    → calc_key_tag k ≡ fold_carry (octet_sum 256 1 (key_rdata k))
unfolding calc_key_tag
calc_key_tag-octet_sum k other flags protocol algorithm octets =
    rw
      (
        other,
        calc_key_tag,
        add_pairs-octet_sum k.key_data
            (k.flags % 65536 + (k.protocol % 256 * 256 + k.algorithm % 256)) octets,
      )
      (ap fold_carry summed)
  where
    summed :
        k.flags % 65536 + (k.protocol % 256 * 256 + k.algorithm % 256) + octet_sum 256 1 k.key_data
        ≡ octet_sum 256 1 (key_rdata k)
    summed = omega arith
