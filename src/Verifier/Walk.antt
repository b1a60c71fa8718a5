-- ===== src/Verifier/Walk.antt =====
-- packages/core/src/verifier/result.ts, errors.ts, reason.ts and resolver.ts: what a walk down the
-- chain of trust reads, writes, returns and throws. An `await` is the value that its promise settles
-- with; `onStep` is not set.
use dnsdata_js.Base.{
  ℕ, ◌/◌, Bool, true, false, ◌||◌, if◌then◌else◌, ◌==◌, Option, none, some, List, [], ◌∷◌, ◌++◌,
}
use dnsdata_js.Base.Text.{Text, codes, decimal}
use dnsdata_js.Base.Slices.{Bytes}
use dnsdata_js.Base.Result.{Exception, Result, ok, err, stuck}
use dnsdata_js.Types.RrType.{rr_type_to_string}
use dnsdata_js.Dnssec.SigCheck.{SigStatus}
use dnsdata_js.Dnssec.Signer.{ResourceRecord}
use dnsdata_js.Verifier.Cache.{MemoryCache}
use dnsdata_js.Verifier.Negative.{Evidence}
use dnsdata_js.Verifier.Verdict.{Verdict, indeterminate}
pub mod Laws
pub mod Frame

pub data ReasonCode : Type 0 where
  no_ds no_dnskey trust_anchor_mismatch ds_mismatch no_rrsig no_matching_key sig_invalid sig_expired
        sig_not_yet_valid unsupported_algorithm alias_loop alias_limit alias_target_invalid
        wildcard_proof_missing :
      ReasonCode

-- Times are Unix seconds, before `rfc3339` writes them.
pub record SigCheck : Type 0 where
  pub name : Text
  pub rr_type : ℕ
  pub key_tag : ℕ
  pub algorithm : ℕ
  pub signer : Text
  pub inception : ℕ
  pub expiration : ℕ
  pub result : SigStatus

pub record KeySummary : Type 0 where
  pub key_tag : ℕ
  pub algorithm : ℕ
  pub sep : Bool

pub record DsSummary : Type 0 where
  pub key_tag : ℕ
  pub algorithm : ℕ
  pub digest_type : ℕ

-- A list that the source leaves out is empty.
pub record ZoneStep : Type 0 where
  pub zone : Text
  pub dnskeys : List KeySummary
  pub ds_digests : List DsSummary
  pub signed_by : Option KeySummary
  pub signatures : List SigCheck

-- Evidence of a walk: values by zone or owner.
pub record Bookkeeping : Type 0 where
  pub dnskeys : List (Text × List Text)
  pub dses : List (Text × List Text)
  pub rrsigs : List (Text × List Text)

pub record AnswerRecord : Type 0 where
  pub name : Text
  pub ttl : ℕ
  pub class : ℕ
  pub type : ℕ
  pub value : Text
  pub rdata : Bytes

pub record AnswerSignature : Type 0 where
  pub key_tag : ℕ
  pub algorithm : ℕ
  pub signer : Text
  pub labels : ℕ
  pub inception : ℕ
  pub expiration : ℕ

pub record Answer : Type 0 where
  pub name : Text
  pub type : ℕ
  pub records : List AnswerRecord
  pub signatures : List AnswerSignature

-- Without `proofReason`.
pub record WildcardInfo : Type 0 where
  pub source : Text
  pub closest_encloser : Text
  pub next_closer : Text

pub record AliasStep : Type 0 where
  pub is_dname : Bool
  pub from : Text
  pub target : Text
  pub zone : Text
  pub verdict : Verdict

-- Reasons in words are left out; `denial` is the proof that `negativeReason` or `insecureReason`
-- names.
pub record HopOutcome : Type 0 where
  pub verdict : Verdict
  pub bogus_at : Option Text
  pub insecure_at : Option Text
  pub denial : Option Evidence
  pub reason_code : Option ReasonCode
  pub alias : Option AliasStep
  pub wildcard : Option WildcardInfo
  pub answer : Option Answer

abbrev pub hop_outcome : Verdict → HopOutcome
hop_outcome v = record {
  verdict = v;
  bogus_at = none;
  insecure_at = none;
  denial = none;
  reason_code = none;
  alias = none;
  wildcard = none;
  answer = none;
}

unfoldable pub bogus_outcome : Text → Option ReasonCode → HopOutcome
bogus_outcome at code = record (hop_outcome Verdict.bogus) {
  bogus_at = some at;
  reason_code = code;
}

-- `Result` of result.ts.
pub record WalkResult : Type 0 where
  pub verdict : Verdict
  pub chain : List ZoneStep
  pub bogus_at : Option Text
  pub insecure_at : Option Text
  pub denial : Option Evidence
  pub reason_code : Option ReasonCode
  pub aliases : List AliasStep
  pub wildcard : Option WildcardInfo
  pub evidence : Bookkeeping
  pub answer : Option Answer

abbrev pub new_result : WalkResult
new_result = record {
  verdict = indeterminate;
  chain = [];
  bogus_at = none;
  insecure_at = none;
  denial = none;
  reason_code = none;
  aliases = [];
  wildcard = none;
  evidence = record { dnskeys = []; dses = []; rrsigs = [] };
  answer = none;
}

pub record ResolverResponse : Type 0 where
  pub records : List ResourceRecord
  pub ad : Bool
  pub rcode : ℕ

-- What is asked of the outside: a query, or whether the signal is aborted.
pub data Request : Type 0 where
  query : Text → ℕ → Request
  poll : Request

-- A query that rejects does so with an abort error or with another one.
pub data Reply : Type 0 where
  responded : ResolverResponse → Reply
  rejected : Bool → Reply

-- The resolver and the signal answer by all that was asked before, the last request first.
pub record Outside : Type 0 where
  pub on_query : List Request → Text → ℕ → Reply
  pub is_aborted : List Request → Bool

-- `unsupported` carries the result so far; `raised` is any other exception, and `lost` the one of a
-- helper whose fuel ran out.
pub data VerifierError : Type 0 where
  invalid_qname chain_timeout resolver_failed lost : VerifierError
  resolver_rcode : ℕ → VerifierError
  unsupported : WalkResult → VerifierError
  check_failed raised : Exception → VerifierError

pub record World : Type 0 where
  pub result : WalkResult
  pub cache : Option MemoryCache
  pub asked : List Request

-- What was written stays written after an exception.
pub data Settled {ℓ} (A : Type ℓ) : Type ℓ where
  fulfilled : A → World → Settled A
  threw : VerifierError → World → Settled A

abbrev pub Walk {ℓ} : Type ℓ → Type ℓ
Walk A = World → Settled A

abbrev pub return {ℓ} : {A : Type ℓ} → A → Walk A
return = fulfilled

abbrev pub throw_error {ℓ} : {A : Type ℓ} → VerifierError → Walk A
throw_error = threw

abbrev pub settle {ℓ κ} : {A : Type ℓ} {B : Type κ} → (A → Walk B) → Settled A → Settled B
settle next (fulfilled a w) = next a w
settle next (threw e w) = threw e w

infixl 5 ◌>>=◌ ◌>>◌
abbrev pub ◌>>=◌ {ℓ κ} : {A : Type ℓ} {B : Type κ} → Walk A → (A → Walk B) → Walk B
(m >>= next) w = settle next (m w)

abbrev pub ◌>>◌ {κ} : {B : Type κ} → Walk (Unit {0}) → Walk B → Walk B
m >> later = m >>= λ nothing. later

abbrev pub of_result {ℓ} : {A : Type ℓ} → Result A → Walk A
of_result (ok a) = return a
of_result (err e) = throw_error (raised e)
of_result stuck = throw_error lost

abbrev pub get_world : Walk World
get_world w = fulfilled w w

abbrev pub update_result : (WalkResult → WalkResult) → Walk (Unit {0})
update_result f w = fulfilled tt (record w { result = f w.result })

unfoldable pub qtype_mnemonic : ℕ → Text
unfolding rr_type_to_string decimal
qtype_mnemonic t = elim (rr_type_to_string t) [
  | ok s ↦ s
  | err e ↦ codes "TYPE" ++ decimal t
  | stuck ↦ codes "TYPE" ++ decimal t
]

module _ (out : Outside) where
  abbrev pub ask : Text → ℕ → Walk Reply
  ask name qtype w =
      fulfilled (out.on_query w.asked name qtype) (record w { asked = query name qtype ∷ w.asked })

  abbrev pub poll_signal : Walk Bool
  poll_signal w = fulfilled (out.is_aborted w.asked) (record w { asked = poll ∷ w.asked })

  unfoldable pub check_aborted : Walk (Unit {0})
  check_aborted =
      poll_signal >>= λ aborted. if aborted then throw_error chain_timeout else return tt
