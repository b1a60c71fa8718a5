-- ===== src/Tests/Walks.antt =====
-- packages/core/src/verifier/chain.ts: a walk over a signed delegation. The crypto library accepts
-- every signature, and every digest is one octet.
use dnsdata_js.Base.{
  ℕ, true, false, if◌then◌else◌, ◌==◌, Option, none, some, List, [], ◌∷◌, ◌++◌, length, ◌≡◌, refl,
}
use dnsdata_js.Base.Text.{Text, codes, text_eq}
use dnsdata_js.Base.Slices.{Bytes}
use dnsdata_js.Base.Result.{ok}
use dnsdata_js.Wire.Name.{
  domain_name2wire, encode_domain_name, encode_loop, push_label, label_from, from_dot, finish_name,
}
use dnsdata_js.Dnssec.Canonical.{label_count}
use dnsdata_js.Dnssec.Keys.{DnsKey, calc_key_tag}
use dnsdata_js.Dnssec.Keys.Verify.{Crypto}
use dnsdata_js.Dnssec.Signer.{ResourceRecord}
use dnsdata_js.Dnssec.SignedZone.{Registry, starts_with}
use dnsdata_js.Verifier.Verdict.{secure, bogus}
use dnsdata_js.Verifier.Walk.{
  World, WalkResult, HopOutcome, hop_outcome, new_result, responded, Settled, fulfilled, threw,
}
use dnsdata_js.Verifier.Cache.{new_cache}
use dnsdata_js.Verifier.Load.{load_records}
use dnsdata_js.Verifier.Load.Caching.{CacheAfter, load_records-CacheAfter}
use dnsdata_js.Verifier.Descent.{Verifier, new_zone, descendant_zones}
use dnsdata_js.Verifier.Leaf.Justified.{Justified}
use dnsdata_js.Verifier.Chain.{validate, validate_one_hop}
use dnsdata_js.Verifier.Chain.Bound.{IsBounded, validate-IsBounded}

abbrev key_at : Text → DnsKey
key_at name = record {
  label = name;
  flags = 257;
  protocol = 3;
  algorithm = 15;
  key_data = 5 ∷ name;
}

abbrev covered_by : Text → ℕ
covered_by value =
    if starts_with value (codes "DNSKEY")
    then 48
    else if starts_with value (codes "DS")
    then 43
    else if starts_with value (codes "CNAME")
    then 5
    else 1

abbrev accepting : Crypto
accepting = record {
  PublicKey = Unit {0};
  create_public_key = λ k. ok tt;
  verify_plain = λ m k s. ok true;
  verify_hashed = λ h m k s. ok true;
  create_hash = λ h b. 1 ∷ [];
}

abbrev signer_of : Option Bytes → Text
signer_of none = []
signer_of (some s) = s

-- The signer of an RRSIG stands behind its text.
abbrev handlers : Registry
handlers = record {
  dnskey_of = λ rr. ok (some (key_at rr.label));
  rrsig_of = λ rr. ok (
      some record {
        type_covered = covered_by rr.value;
        algorithm = 15;
        labels = label_count rr.label;
        original_ttl = 60;
        expire = 100;
        inception = 10;
        key_tag = calc_key_tag (key_at (signer_of rr.received_rdata));
        signer = signer_of rr.received_rdata;
        signature = [];
      });
  ds_of = λ rr. ok (
      some record {
        key_tag = calc_key_tag (key_at rr.label);
        algorithm = 15;
        digest_type = 2;
        digest = 1 ∷ [];
      });
  wire_body = λ rr. ok (0 ∷ 1 ∷ 9 ∷ []);
}

abbrev signed_rrset : Text → ℕ → Text → Text → List ResourceRecord
signed_rrset name type covered signer =
    record { label = name; ttl = 60; rrclass = 1; type = type; value = []; received_rdata = none }
    ∷ record {
      label = name;
      ttl = 60;
      rrclass = 1;
      type = 46;
      value = covered;
      received_rdata = some signer;
    }
    ∷ []

-- `a.` is a signed delegation, and what lies below is in its zone.
abbrev answers : Text → ℕ → List ResourceRecord
answers name qtype =
    if qtype == 48
    then signed_rrset name 48 (codes "DNSKEY ") name
    else if qtype == 43
    then (if text_eq name (codes "a.") then signed_rrset name 43 (codes "DS ") (codes ".") else [])
    else signed_rrset name 1 (codes "A ") (codes "a.")

abbrev verifier : Verifier
verifier = record {
  out = record {
    on_query = λ log name qtype.
        responded (record { records = answers name qtype; ad = false; rcode = 0 });
    is_aborted = λ log. false;
  };
  anchors =
      record {
        key_tag = calc_key_tag (key_at (codes "."));
        algorithm = 15;
        digest_type = 2;
        digest = 1 ∷ [];
      }
      ∷ [];
  now = some 50000;
  registry = handlers;
  crypto = accepting;
  denials = record {
    no_ds_at = λ z n. ok none;
    no_data_at = λ z n t. ok none;
    nx_domain_at = λ z n. ok none;
    next_closer_absent = λ z n. ok false;
  };
}

abbrev start : World
start = record { result = new_result; cache = none; asked = [] }

abbrev world_of {ℓ} : {A : Type ℓ} → Settled A → World
world_of (fulfilled a w) = w
world_of (threw e w) = w

abbrev result_of : Settled WalkResult → WalkResult
result_of (fulfilled r w) = r
result_of (threw e w) = new_result

abbrev outcome_of : Settled HopOutcome → HopOutcome
outcome_of (fulfilled o w) = o
outcome_of (threw e w) = hop_outcome bogus

zones-below : descendant_zones (codes "W.a") ≡ codes "a." ∷ codes "w.a." ∷ []
unfolding descendant_zones
zones-below = refl

abbrev walked : Settled WalkResult
walked = validate verifier (codes "W.a") 1 start

-- A key of `b.`, which has no DS record, vouches for itself.
own_key-secure : (result_of (validate verifier (codes "b.") 48 start)).verdict ≡ secure
unfolding validate calc_key_tag label_count domain_name2wire encode_domain_name encode_loop
    push_label label_from from_dot finish_name
own_key-secure = refl

abbrev hopped : Settled HopOutcome
hopped = validate_one_hop verifier (codes "w.a.") 1 start

-- Every address is an alias of a longer name.
abbrev with_value : Text → List ResourceRecord → List ResourceRecord
with_value value [] = []
with_value value (rr ∷ rrs) = record rr { value = value } ∷ rrs

abbrev alias_answers : Text → ℕ → List ResourceRecord
alias_answers name qtype =
    if qtype == 1
    then with_value (codes "b" ++ name) (signed_rrset name 5 (codes "CNAME ") (codes "a."))
    else answers name qtype

abbrev alias_verifier : Verifier
alias_verifier = record verifier {
  out = record verifier.out {
    on_query = λ log name qtype.
        responded (record { records = alias_answers name qtype; ad = false; rcode = 0 });
  };
}

abbrev led_on : Settled WalkResult
led_on = validate alias_verifier (codes "w.a.") 1 start

led_on-fulfilled : led_on ≡ fulfilled (result_of led_on) (world_of led_on)
unfolding validate calc_key_tag label_count domain_name2wire encode_domain_name encode_loop
    push_label label_from from_dot finish_name
led_on-fulfilled = refl

led_on-length : length (result_of led_on).aliases ≡ 11
unfolding validate calc_key_tag label_count domain_name2wire encode_domain_name encode_loop
    push_label label_from from_dot finish_name
led_on-length = refl

validate-IsBounded_example : IsBounded 11 (result_of led_on)
validate-IsBounded_example =
    validate-IsBounded alias_verifier (codes "w.a.") 1 start (world_of led_on) (result_of led_on)
      led_on-fulfilled

load_records-CacheAfter_example : CacheAfter new_cache (new_zone verifier none) (codes "a.") 48 (
    load_records verifier.out
      (new_zone verifier none)
      (codes "a.")
      48
      (record { result = new_result; cache = some new_cache; asked = [] }))
load_records-CacheAfter_example =
    load_records-CacheAfter verifier.out new_cache (new_zone verifier none) (codes "a.") 48
      new_result []
