-- ===== src/Dnssec/Keys.antt =====
-- packages/core/src/dnssec/dnskey.ts, ds.ts, rrsig.ts and crypto.ts: the fields of the handlers and
-- the octets that are digested or signed.
use dnsdata_js.Base.{
  ℕ, zero, suc, ◌+◌, ◌-◌, ◌*◌, ◌/◌, ◌%◌, Bool, true, false, ◌&&◌, ◌||◌, not, if◌then◌else◌, ◌==◌,
  ltb, leb, List, [], ◌∷◌, ◌++◌, length, get_or, take, drop,
}
use dnsdata_js.Base.Text.{Text, text_eq, codes}
use dnsdata_js.Base.Slices.{Bytes}
use dnsdata_js.Base.Result.{
  Result, ok, err, plain_error, unsupported_algorithm, throw_if, ◌>>=◌, ◌>>◌,
}
use dnsdata_js.Wire.Builder.{
  WireBuilder, new_builder, append_uint8, append_uint16, append_uint32, append_bytes, build,
}
use dnsdata_js.Wire.Name.{domain_name2wire}
pub mod Tag
pub mod Ecdsa
pub mod Verify

-- `label` is that of the parent record.
pub record DnsKey : Type 0 where
  pub label : Text
  pub flags : ℕ
  pub protocol : ℕ
  pub algorithm : ℕ
  pub key_data : Bytes

pub record Ds : Type 0 where
  pub key_tag : ℕ
  pub algorithm : ℕ
  pub digest_type : ℕ
  pub digest : Bytes

pub record RrSig : Type 0 where
  pub type_covered : ℕ
  pub algorithm : ℕ
  pub labels : ℕ
  pub original_ttl : ℕ
  pub expire : ℕ
  pub inception : ℕ
  pub key_tag : ℕ
  pub signer : Text
  pub signature : Bytes

-- The loop over pairs of octets, and the odd octet at the end.
unfoldable pub add_pairs : ℕ → Bytes → ℕ
add_pairs value [] = value
add_pairs value (x ∷ []) = value + x % 256 * 256
add_pairs value (x ∷ y ∷ bs) = add_pairs (value + (x % 256 * 256 + y % 256)) bs

-- `_calc_key_tag`; algorithm 1 is RSAMD5.
unfoldable pub calc_key_tag : DnsKey → ℕ
unfolding add_pairs
calc_key_tag k =
    let n = length k.key_data in
    let value =
      add_pairs (k.flags % 65536 + (k.protocol % 256 * 256 + k.algorithm % 256)) k.key_data in
    if k.algorithm == 1
    then (if ltb n 2
        then 0
        else (get_or k.key_data (n - 2) 0 * 256 + get_or k.key_data (n - 1) 0) % 65536)
    else (value + value / 65536 % 65536) % 65536

unfoldable pub is_zone_key : DnsKey → Bool
is_zone_key k = k.flags / 256 % 2 == 1

unfoldable pub is_secure_entry_point : DnsKey → Bool
is_secure_entry_point k = k.flags % 2 == 1

-- `get_ds_digest_data`
unfoldable pub get_ds_digest_data : DnsKey → Result Bytes
unfolding append_uint8 append_uint16 append_bytes build
get_ds_digest_data k = domain_name2wire k.label >>= λ owner_wire. ok (
    build (
      append_bytes k.key_data (
        append_uint8 k.algorithm
          (append_uint8 k.protocol (append_uint16 k.flags (append_bytes owner_wire new_builder))))))

-- `get_rdata_digest_target`
unfoldable pub get_rdata_digest_target : RrSig → Result Bytes
unfolding append_uint8 append_uint16 append_uint32 append_bytes build
get_rdata_digest_target s = domain_name2wire s.signer >>= λ signer_wire. ok (
    build (
      append_bytes signer_wire (
        append_uint16 s.key_tag (
          append_uint32 s.inception (
            append_uint32 s.expire (
              append_uint32 s.original_ttl (
                append_uint8 s.labels
                  (append_uint8 s.algorithm (append_uint16 s.type_covered new_builder)))))))))

unfoldable pub is_ecdsa_algorithm : ℕ → Bool
is_ecdsa_algorithm a = (a == 13) || (a == 14)

unfoldable pub is_eddsa_algorithm : ℕ → Bool
is_eddsa_algorithm a = (a == 15) || (a == 16)

unfoldable pub ecdsa_curve : ℕ → Result Text
ecdsa_curve a =
    if a == 13 then ok (codes "P-256") else if a == 14 then ok (codes "P-384") else err plain_error

unfoldable pub ecdsa_coord_len : ℕ → Result ℕ
ecdsa_coord_len a = if a == 13 then ok 32 else if a == 14 then ok 48 else err plain_error

unfoldable pub algo_to_hash : ℕ → Result Text
algo_to_hash a =
    if (a == 5) || (a == 7)
    then ok (codes "sha1")
    else if a == 8
    then ok (codes "sha256")
    else if a == 10
    then ok (codes "sha512")
    else if a == 13
    then ok (codes "sha256")
    else if a == 14
    then ok (codes "sha384")
    else err plain_error

unfoldable pub ds_digest_type_to_hash : ℕ → Result Text
ds_digest_type_to_hash t =
    if t == 1
    then ok (codes "sha1")
    else if t == 2
    then ok (codes "sha256")
    else if t == 4
    then ok (codes "sha384")
    else err plain_error

-- A public key for the crypto library, before `base64url_encode` writes its octets as text.
pub data Jwk : Type 0 where
  ec : Text → Bytes → Bytes → Jwk
  okp : Text → Bytes → Jwk
  rsa : Bytes → Bytes → Jwk

-- `load_ecdsa_public_key`
unfoldable pub ecdsa_jwk : Bytes → ℕ → Result Jwk
unfolding ecdsa_curve ecdsa_coord_len
ecdsa_jwk key_data algorithm = ecdsa_curve algorithm >>= λ curve.
    ecdsa_coord_len algorithm >>= λ coord_len.
    throw_if (not (length key_data == coord_len * 2)) plain_error
    >> ok (ec curve (take coord_len key_data) (drop coord_len key_data))

unfoldable pub eddsa_jwk : Bytes → ℕ → Jwk
eddsa_jwk key_data algorithm =
    okp (if algorithm == 15 then codes "Ed25519" else codes "Ed448") key_data

-- `load_rsa_public_key_rfc3110`; an octet past the end counts as 0 in the shifts.
unfoldable pub rsa_jwk : Bytes → Jwk
rsa_jwk key_data =
    let first = get_or key_data 0 0 in
    let long = get_or key_data 1 0 * 256 + get_or key_data 2 0 in
    let exp_len = if first == 0 then long else first in
    let offset = if first == 0 then 3 else 1 in
    rsa (drop (offset + exp_len) key_data) (take exp_len (drop offset key_data))
