-- ===== src/Verifier/Ksks.antt =====
-- packages/core/src/verifier/chain.ts: the keys that a trust anchor or a DS record stands for, and
-- the summaries of a zone.
use dnsdata_js.Base.{
  ℕ, Bool, true, false, ◌&&◌, if◌then◌else◌, ◌==◌, is_empty, Option, none, some, List, [], ◌∷◌, map,
}
use dnsdata_js.Base.Text.{Text, codes, dot, text_eq}
use dnsdata_js.Base.Slices.{Bytes}
use dnsdata_js.Base.Result.{Result, ok, ◌>>=◌, map_result}
use dnsdata_js.Dnssec.Keys.{DnsKey, Ds, calc_key_tag, get_ds_digest_data, is_secure_entry_point}
use dnsdata_js.Dnssec.Keys.Verify.{Crypto, verify_digest}
use dnsdata_js.Dnssec.Signer.{ResourceRecord}
use dnsdata_js.Dnssec.SignedZone.{
  ZoneState, DnssecZone, Registry, find_rrset, add_trusted_key, type_ds, type_dnskey,
}
use dnsdata_js.Verifier.Walk.{
  ReasonCode, no_dnskey, ds_mismatch, KeySummary, DsSummary, SigCheck, ZoneStep,
}
pub mod Digests
pub mod Laws

-- A trust anchor; the octets of its digest are those of its hexadecimal text without white space.
pub record Anchor : Type 0 where
  pub key_tag : ℕ
  pub algorithm : ℕ
  pub digest_type : ℕ
  pub digest : Bytes

-- `xs.some(p)` and `xs.filter(p)`, where `p` may throw.
unfoldable pub any_result {ℓ} : {A : Type ℓ} → (A → Result Bool) → List A → Result Bool
any_result p [] = ok false
any_result p (x ∷ xs) =
    let rest = any_result p xs in p x >>= λ found. if found then ok true else rest

unfoldable pub filter_result {ℓ} : {A : Type ℓ} → (A → Result Bool) → List A → Result (List A)
filter_result p [] = ok []
filter_result p (x ∷ xs) =
    let rest = filter_result p xs in
    p x >>= λ keep. rest >>= λ kept. ok (if keep then x ∷ kept else kept)

-- The handlers of a class.
abbrev pub present {ℓ} : {A : Type ℓ} → List (Option A) → List A
present [] = []
present (none ∷ xs) = present xs
present (some x ∷ xs) = x ∷ present xs

-- The keys, or why there is none.
pub data KskMatch : Type 0 where
  ksks : DnsKey → List DnsKey → KskMatch
  mismatch : ReasonCode → KskMatch

abbrev pub or_mismatch : List DnsKey → KskMatch
or_mismatch [] = mismatch ds_mismatch
or_mismatch (k ∷ ks) = ksks k ks

unfoldable pub ds_digest_algorithm : ℕ → Option Text
ds_digest_algorithm t =
    if t == 1
    then some (codes "sha1")
    else if t == 2
    then some (codes "sha256")
    else if t == 4
    then some (codes "sha384")
    else none

module _ (crypto : Crypto) where
  unfoldable pub verify_anchor_digest : DnsKey → Anchor → Result Bool
  unfolding ds_digest_algorithm get_ds_digest_data text_eq
  verify_anchor_digest k a = elim (ds_digest_algorithm a.digest_type) [
    | none ↦ ok false
    | some algo ↦
        get_ds_digest_data k >>= λ octets. ok (text_eq (crypto.create_hash algo octets) a.digest)
  ]

  unfoldable pub matches_anchor : DnsKey → Anchor → Result Bool
  unfolding verify_anchor_digest calc_key_tag
  matches_anchor k a =
      if (a.key_tag == calc_key_tag k) && (a.algorithm == k.algorithm)
      then verify_anchor_digest k a
      else ok false

  unfoldable pub matches_ds_of : DnsKey → Ds → Result Bool
  unfolding calc_key_tag get_ds_digest_data verify_digest
  matches_ds_of k ds =
      if (ds.key_tag == calc_key_tag k) && (ds.algorithm == k.algorithm)
      then (get_ds_digest_data k >>= λ octets. verify_digest crypto ds octets)
      else ok false

module _ (registry : Registry) where
  -- `find_dnskeys` without a key tag and an algorithm.
  unfoldable pub dnskeys_at : ZoneState → Text → Result (List DnsKey)
  unfolding find_rrset
  dnskeys_at z name = map_result registry.dnskey_of (find_rrset z name type_dnskey) >>= λ handlers.
      ok (present handlers)

  unfoldable pub dses_at : ZoneState → Text → Result (List Ds)
  unfolding find_rrset
  dses_at z name =
      map_result registry.ds_of (find_rrset z name type_ds) >>= λ handlers. ok (present handlers)

  unfoldable pub summarize_dnskeys : Text → ZoneState → Result (List KeySummary)
  unfolding dnskeys_at calc_key_tag is_secure_entry_point
  summarize_dnskeys name z = dnskeys_at z name >>= λ keys. ok (
      map
        (λ k. record {
          key_tag = calc_key_tag k;
          algorithm = k.algorithm;
          sep = is_secure_entry_point k;
        })
        keys)

  unfoldable pub summarize_ds : Text → ZoneState → Result (List DsSummary)
  unfolding dses_at
  summarize_ds name parent = dses_at parent name >>= λ dses. ok (
      map
        (λ d. record { key_tag = d.key_tag; algorithm = d.algorithm; digest_type = d.digest_type })
        dses)

  abbrev pub or_no_keys : Text → Option ZoneState → Result (List KeySummary)
  or_no_keys name none = ok []
  or_no_keys name (some z) = summarize_dnskeys name z

  abbrev pub or_no_ds : Text → Option ZoneState → Result (List DsSummary)
  or_no_ds name none = ok []
  or_no_ds name (some z) = summarize_ds name z

  abbrev pub signed_by_key : Option DnsKey → Option KeySummary
  signed_by_key none = none
  signed_by_key (some k) =
      some
        record { key_tag = calc_key_tag k; algorithm = k.algorithm; sep = is_secure_entry_point k }

  unfoldable pub summarize_zone :
      Text → Option ZoneState → Option ZoneState → Option DnsKey → List SigCheck → Result ZoneStep
  unfolding summarize_dnskeys summarize_ds calc_key_tag is_secure_entry_point
  summarize_zone name z parent ksk sigs = or_no_keys name z >>= λ keys.
      or_no_ds name parent >>= λ dses. ok record {
        zone = name;
        dnskeys = keys;
        ds_digests = dses;
        signed_by = signed_by_key ksk;
        signatures = sigs;
      }

  module _ (crypto : Crypto) where
    unfoldable pub match_ksks_with_anchors : List Anchor → ZoneState → Result (List DnsKey)
    unfolding dnskeys_at any_result filter_result matches_anchor
    match_ksks_with_anchors anchors root =
        dnskeys_at root (dot ∷ [])
        >>= filter_result (λ k. any_result (matches_anchor crypto k) anchors)

    unfoldable pub match_ksks_with_ds : ZoneState → ZoneState → Text → Result KskMatch
    unfolding find_rrset dses_at dnskeys_at any_result filter_result matches_ds_of
    match_ksks_with_ds child parent child_name =
        if is_empty (find_rrset child child_name type_dnskey)
        then ok (mismatch no_dnskey)
        else (dses_at parent child_name >>= λ dses. dnskeys_at child child_name >>= λ keys.
            filter_result (λ k. any_result (matches_ds_of crypto k) dses) keys >>= λ matched.
            ok (or_mismatch matched))

unfoldable pub trust_keys : List DnsKey → ZoneState → ZoneState
unfolding add_trusted_key
trust_keys [] z = z
trust_keys (k ∷ ks) z = trust_keys ks (add_trusted_key k z)
