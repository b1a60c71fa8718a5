-- ===== src/Dnssec/Keys/Verify.antt =====
-- packages/core/src/dnssec/dnskey.ts and ds.ts: verification with the crypto library, a parameter.
use dnsdata_js.Base.{Bool, if◌then◌else◌, ◌++◌, map}
use dnsdata_js.Base.Text.{Text, text_eq, codes}
use dnsdata_js.Base.Slices.{Bytes}
use dnsdata_js.Base.Result.{Result, ok, ◌>>=◌}
use dnsdata_js.Types.RrType.{ascii_upper}
use dnsdata_js.Dnssec.Keys.{
  DnsKey, Ds, Jwk, is_ecdsa_algorithm, is_eddsa_algorithm, ecdsa_jwk, eddsa_jwk, rsa_jwk,
  ecdsa_coord_len, algo_to_hash, ds_digest_type_to_hash,
}
use dnsdata_js.Dnssec.Keys.Ecdsa.{raw_to_der}

-- `createPublicKey`, `crypto.verify`, `createVerify` and `createHash` of the library.
pub record Crypto : Type 1 where
  pub PublicKey : Type 0
  pub create_public_key : Jwk → Result PublicKey
  pub verify_plain : Bytes → PublicKey → Bytes → Result Bool
  pub verify_hashed : Text → Bytes → PublicKey → Bytes → Result Bool
  pub create_hash : Text → Bytes → Bytes

module _ (crypto : Crypto) where
  unfoldable pub get_public_key : DnsKey → Result crypto.PublicKey
  unfolding is_eddsa_algorithm is_ecdsa_algorithm eddsa_jwk ecdsa_jwk rsa_jwk
  get_public_key k =
      if is_eddsa_algorithm k.algorithm
      then crypto.create_public_key (eddsa_jwk k.key_data k.algorithm)
      else if is_ecdsa_algorithm k.algorithm
      then ecdsa_jwk k.key_data k.algorithm >>= crypto.create_public_key
      else crypto.create_public_key (rsa_jwk k.key_data)

  -- `DNSKey.verify`
  unfoldable pub verify : DnsKey → Bytes → Bytes → Result Bool
  unfolding get_public_key is_eddsa_algorithm is_ecdsa_algorithm algo_to_hash ecdsa_coord_len
      raw_to_der
  verify k message signature = get_public_key k >>= λ pub_key.
      if is_eddsa_algorithm k.algorithm
      then crypto.verify_plain message pub_key signature
      else if is_ecdsa_algorithm k.algorithm
      then (algo_to_hash k.algorithm >>= λ hash. ecdsa_coord_len k.algorithm >>= λ coord_len.
          crypto.verify_hashed (map ascii_upper hash) message pub_key
            (raw_to_der coord_len signature))
      else (algo_to_hash k.algorithm >>= λ hash.
          crypto.verify_hashed (codes "RSA-" ++ map ascii_upper hash) message pub_key signature)

  -- `DNSRR_DS.verify_digest`
  unfoldable pub verify_digest : Ds → Bytes → Result Bool
  unfolding ds_digest_type_to_hash text_eq
  verify_digest ds key_digest = ds_digest_type_to_hash ds.digest_type >>= λ hash.
      ok (text_eq (crypto.create_hash hash key_digest) ds.digest)
