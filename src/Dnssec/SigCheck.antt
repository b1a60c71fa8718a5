-- ===== src/Dnssec/SigCheck.antt =====
-- packages/core/src/dnssec/sigcheck.ts: why the check of a signature failed.
use dnsdata_js.Base.{
  ℕ, Bool, true, false, ◌||◌, if◌then◌else◌, ◌==◌, Option, none, some, List, [], ◌∷◌,
}
use dnsdata_js.Base.Slices.{Bytes}
use dnsdata_js.Base.Result.{Exception, Result, ok, err, stuck, unsupported_algorithm, plain_error}
use dnsdata_js.Types.Algorithm.{algorithm_supported}
use dnsdata_js.Dnssec.Keys.{DnsKey, RrSig}
pub mod Laws

pub data SigStatus : Type 0 where
  verified expired not_yet_valid unsupported no_matching_key invalid : SigStatus

pub record SigVerdict : Type 0 where
  pub status : SigStatus
  pub error : Option Exception

-- A result without its `rrsig` is its verdict.
pub record SigResult : Type 0 where
  pub rrsig : RrSig
  pub verdict : SigVerdict

abbrev pub is_verified : SigStatus → Bool
is_verified verified = true
is_verified _ = false

abbrev pub plain_verdict : SigStatus → SigVerdict
plain_verdict s = record { status = s; error = none }

-- `first === undefined && r.error !== undefined`
abbrev pub or_first : Option Exception → Option Exception → Option Exception
or_first (some e) o = some e
or_first none o = o

pub record Outcome : Type 0 where
  pub is_valid : Bool
  pub error : Option Exception

-- The loop of `rrset_verified`.
unfoldable pub verified_from : Option Exception → List SigResult → Outcome
verified_from first [] = record { is_valid = false; error = first }
verified_from first (r ∷ rs) =
    let rest = verified_from (or_first first r.verdict.error) rs in
    if is_verified r.verdict.status then record { is_valid = true; error = none } else rest

unfoldable pub rrset_verified : List SigResult → Outcome
unfolding verified_from
rrset_verified = verified_from none

unfoldable pub verifiable_algorithm : ℕ → Bool
unfolding algorithm_supported
verifiable_algorithm a = algorithm_supported a || (a == 16)

-- `key.verify`: a Boolean, or an exception of the crypto library.
module _ (verify : DnsKey → Bytes → Bytes → Result Bool) where
  abbrev pub status_of : Result Bool → SigVerdict
  status_of (ok true) = plain_verdict verified
  status_of (ok false) = plain_verdict invalid
  status_of (err e) = record { status = invalid; error = some e }
  status_of stuck = plain_verdict invalid

  unfoldable pub verify_status : DnsKey → Bytes → Bytes → SigVerdict
  unfolding verifiable_algorithm
  verify_status key data_ signature =
      if verifiable_algorithm key.algorithm
      then status_of (verify key data_ signature)
      else record { status = unsupported; error = some unsupported_algorithm }

  -- The keys after the first one.
  unfoldable pub verify_with_rest : SigVerdict → List DnsKey → Bytes → Bytes → SigVerdict
  unfolding verify_status
  verify_with_rest first [] data_ signature = first
  verify_with_rest first (k ∷ ks) data_ signature =
      let v = verify_status k data_ signature in
      let rest = verify_with_rest first ks data_ signature in
      if is_verified v.status then v else rest

  unfoldable pub verify_with_any : List DnsKey → Bytes → Bytes → SigVerdict
  unfolding verify_with_rest verify_status
  verify_with_any [] data_ signature = plain_verdict invalid
  verify_with_any (k ∷ ks) data_ signature =
      let v = verify_status k data_ signature in
      let rest = verify_with_rest v ks data_ signature in if is_verified v.status then v else rest
