-- ===== src/Dnssec/SignedZone/Check.antt =====
-- packages/core/src/dnssec/dnssec_zone.ts: the checks of signatures, in each key mode.
use dnsdata_js.Base.{
  ℕ, ◌/◌, ltb, Bool, true, false, if◌then◌else◌, ◌==◌, is_empty, Option, none, some, List, [], ◌∷◌,
}
use dnsdata_js.Base.Text.{Text}
use dnsdata_js.Base.Slices.{Bytes}
use dnsdata_js.Base.Result.{Exception, Result, ok, err, stuck, ◌>>=◌, map_result}
use dnsdata_js.Dnssec.Keys.{DnsKey, RrSig}
use dnsdata_js.Dnssec.Keys.Verify.{Crypto, verify}
use dnsdata_js.Dnssec.SigCheck.{
  SigStatus, SigVerdict, SigResult, Outcome, verified, expired, not_yet_valid, no_matching_key,
  invalid, is_verified, plain_verdict, or_first, rrset_verified, verify_with_any,
}
use dnsdata_js.Dnssec.SignedZone.{
  DnssecZone, Registry, find_rrsigs, find_dnskeys, verify_delegation_signer, type_dnskey, type_ds,
}
use dnsdata_js.Dnssec.SignedZone.Digest.{create_digest_target}

-- `KeyVerifyMode`
abbrev pub mode_none : ℕ
mode_none = 0

abbrev pub mode_zsk : ℕ
mode_zsk = 1

abbrev pub mode_ksk : ℕ
mode_ksk = 2

abbrev pub mode_csk : ℕ
mode_csk = 4

unfoldable pub validity_status : Option ℕ → RrSig → SigStatus
validity_status none s = verified
validity_status (some now) s =
    let t = now / 1000 in
    if ltb t s.inception then not_yet_valid else if ltb s.expire t then expired else verified

-- The keys a mode accepts, with the first error met.
pub record Keys : Type 0 where
  pub keys : List DnsKey
  pub error : Option Exception

abbrev pub only_keys : List DnsKey → Keys
only_keys ks = record { keys = ks; error = none }

-- `throw` where there is an error, after a check that failed.
abbrev pub or_throw_error : Bool → Option Exception → Result Bool
or_throw_error true e = ok true
or_throw_error false none = ok false
or_throw_error false (some e) = err e

module _ (registry : Registry) (crypto : Crypto) (z : DnssecZone) where
  abbrev pub with_key : Result Bool → DnsKey → Keys → Result Keys
  with_key (ok true) k rest = ok (record rest { keys = k ∷ rest.keys })
  with_key (ok false) k rest = ok rest
  with_key (err e) k rest = ok (record rest { error = some e })
  with_key stuck k rest = stuck

  -- `verify_ksk` is `verify_delegation_signer`; an error at an earlier key is the one that is kept.
  unfoldable pub authenticated_keys : List DnsKey → Result Keys
  unfolding verify_delegation_signer
  authenticated_keys [] = ok (only_keys [])
  authenticated_keys (k ∷ ks) = authenticated_keys ks >>= λ rest.
      with_key (verify_delegation_signer registry crypto z k) k rest

  -- What is left of the check once the target is there.
  abbrev pub with_target : List DnsKey → RrSig → Result (Option Bytes) → Result SigVerdict
  with_target ks s (ok none) = ok (plain_verdict invalid)
  with_target ks s (ok (some target)) = ok (verify_with_any (verify crypto) ks target s.signature)
  with_target ks s (err e) = ok (record { status = invalid; error = some e })
  with_target ks s stuck = stuck

  -- `check_rrsig` for the keys that a mode selects.
  unfoldable pub check_with : (List DnsKey → Result Keys) → Text → ℕ → RrSig → Result SigVerdict
  unfolding validity_status find_dnskeys create_digest_target verify_with_any verify
  check_with select name type s =
      let validity = validity_status z.own.now s in
      if is_verified validity
      then (find_dnskeys registry z.own s.signer s.key_tag s.algorithm >>= λ candidates.
          select candidates >>= λ accepted.
          if is_empty accepted.keys
          then ok (record { status = no_matching_key; error = accepted.error })
          else with_target accepted.keys s (create_digest_target registry z.own s name type))
      else ok (plain_verdict validity)

  abbrev pub result_of : (List DnsKey → Result Keys) → Text → ℕ → RrSig → Result SigResult
  result_of select name type s =
      check_with select name type s >>= λ v. ok (record { rrsig = s; verdict = v })

  unfoldable pub check_rrset_with :
      (List DnsKey → Result Keys) → Text → ℕ → Text → Result (List SigResult)
  unfolding find_rrsigs check_with
  check_rrset_with select name type signer =
      find_rrsigs registry z.own name type signer >>= map_result (result_of select name type)

  -- `dnskey_rrset_verified`: the DNSKEY RRset at the owner, in KSK mode.
  unfoldable pub dnskey_rrset_verified : Text → Result Outcome
  unfolding check_rrset_with authenticated_keys rrset_verified
  dnskey_rrset_verified owner =
      check_rrset_with authenticated_keys owner type_dnskey [] >>= λ rs. ok (rrset_verified rs)

  abbrev pub zsk_keys : List DnsKey → Outcome → Keys
  zsk_keys ks o = if o.is_valid then only_keys ks else record { keys = []; error = o.error }

  abbrev pub csk_keys : List DnsKey → Outcome → Result Keys → Result Keys
  csk_keys ks o ksks =
      if o.is_valid
      then ok (only_keys ks)
      else (ksks >>= λ a. ok (record { keys = a.keys; error = or_first o.error a.error }))

  -- The modes, for keys of which the first is `k`.
  unfoldable pub keys_of_mode : ℕ → DnsKey → List DnsKey → Result Keys
  unfolding dnskey_rrset_verified authenticated_keys
  keys_of_mode mode k ks =
      let ksks = authenticated_keys (k ∷ ks) in
      let outcome = dnskey_rrset_verified k.label in
      if mode == mode_none
      then ok (only_keys (k ∷ ks))
      else if mode == mode_ksk
      then ksks
      else if mode == mode_zsk
      then (outcome >>= λ o. ok (zsk_keys (k ∷ ks) o))
      else if mode == mode_csk
      then (outcome >>= λ o. csk_keys (k ∷ ks) o ksks)
      else ok (only_keys [])

  unfoldable pub keys_for_mode : ℕ → List DnsKey → Result Keys
  unfolding keys_of_mode
  keys_for_mode mode [] = ok (only_keys [])
  keys_for_mode mode (k ∷ ks) = keys_of_mode mode k ks

  unfoldable pub check_rrsig : Text → ℕ → RrSig → ℕ → Result SigVerdict
  unfolding check_with keys_for_mode
  check_rrsig name type s mode = check_with (keys_for_mode mode) name type s

  unfoldable pub check_rrset : Text → ℕ → ℕ → Text → Result (List SigResult)
  unfolding check_rrset_with keys_for_mode
  check_rrset name type mode signer = check_rrset_with (keys_for_mode mode) name type signer

  unfoldable pub verify_rrsig : Text → ℕ → RrSig → ℕ → Result Bool
  unfolding check_rrsig
  verify_rrsig name type s mode =
      check_rrsig name type s mode >>= λ v. or_throw_error (is_verified v.status) v.error

  unfoldable pub verify_rrset : Text → ℕ → ℕ → Text → Result Bool
  unfolding check_rrset rrset_verified
  verify_rrset name type mode signer = check_rrset name type mode signer >>= λ rs.
      or_throw_error (rrset_verified rs).is_valid (rrset_verified rs).error

  unfoldable pub verify_zsk : DnsKey → Result Bool
  unfolding verify_rrset
  verify_zsk k = verify_rrset k.label type_dnskey mode_ksk []

-- `verify_ds_rrset`
unfoldable pub verify_ds_rrset : Registry → Crypto → DnssecZone → Text → Result Bool
unfolding verify_rrset
verify_ds_rrset registry crypto z child = elim z.parent [
  | none ↦ ok false
  | some p ↦
      verify_rrset registry crypto (record { own = p; parent = none }) child type_ds mode_none []
]
