-- ===== src/Tests/Zones.antt =====
-- packages/core/src/dnssec/dnssec_zone.ts on a zone whose only key is trusted, and
-- packages/core/src/verifier/cache.ts.
use dnsdata_js.Base.{ℕ, true, if◌then◌else◌, none, some, [], ◌∷◌, ◌++◌, ◌≡◌, refl}
use dnsdata_js.Base.Text.{Text, codes, text_eq}
use dnsdata_js.Base.Result.{ok}
use dnsdata_js.Wire.Name.{
  domain_name2wire, encode_domain_name, encode_loop, push_label, label_from, from_dot, finish_name,
}
use dnsdata_js.Dnssec.Signer.{ResourceRecord}
use dnsdata_js.Dnssec.Keys.{DnsKey, RrSig, calc_key_tag}
use dnsdata_js.Dnssec.Keys.Verify.{Crypto}
use dnsdata_js.Dnssec.SignedZone.{DnssecZone, Registry}
use dnsdata_js.Dnssec.SignedZone.Check.{keys_for_mode, verify_rrset}
use dnsdata_js.Dnssec.SignedZone.Vouched.{IsVouched}
use dnsdata_js.Dnssec.SignedZone.Trust.{
  IsSigned, SignerKey, IsZoneKey, verify_rrset-ksk, verify_rrset-zsk,
}

abbrev key : DnsKey
key = record {
  label = codes "a.";
  flags = 257;
  protocol = 3;
  algorithm = 15;
  key_data = 1 ∷ 2 ∷ [];
}

abbrev rrsig : ℕ → RrSig
rrsig type = record {
  type_covered = type;
  algorithm = 15;
  labels = 1;
  original_ttl = 60;
  expire = 100;
  inception = 10;
  key_tag = 1298;
  signer = codes "a.";
  signature = [];
}

abbrev rr : ℕ → Text → ResourceRecord
rr type value = record {
  label = codes "a.";
  ttl = 60;
  rrclass = 1;
  type = type;
  value = value;
  received_rdata = none;
}

-- Handlers that know the two kinds of signature by their text.
abbrev registry : Registry
registry = record {
  dnskey_of = λ r. ok (some key);
  rrsig_of = λ r. ok (some (if text_eq r.value (codes "A s") then rrsig 1 else rrsig 48));
  ds_of = λ r. ok none;
  wire_body = λ r. ok (0 ∷ 0 ∷ []);
}

-- A library for which every signature is valid.
abbrev crypto : Crypto
crypto = record {
  PublicKey = Unit;
  create_public_key = λ j. ok tt;
  verify_plain = λ m k s. ok true;
  verify_hashed = λ h m k s. ok true;
  create_hash = λ h b. [];
}

abbrev zone : DnssecZone
zone = record {
  own = record {
    records =
        (codes "a." ++ 0 ∷ codes "48", rr 48 [] ∷ [])
        ∷ (codes "a." ++ 0 ∷ codes "1", rr 1 [] ∷ [])
        ∷ (codes "a." ++ 0 ∷ codes "46", rr 46 (codes "DNSKEY s") ∷ rr 46 (codes "A s") ∷ [])
        ∷ [];
    seps = [];
    trusted_keys = codes "a. 257 3 15 0102" ∷ [];
    now = some 50000;
  };
  parent = none;
}

key-tag : calc_key_tag key ≡ 1298
unfolding calc_key_tag
key-tag = refl

a-ksk : verify_rrset registry crypto zone (codes "a.") 1 2 [] ≡ ok true
unfolding verify_rrset domain_name2wire encode_domain_name encode_loop push_label label_from
    from_dot finish_name
a-ksk = refl

verify_rrset-ksk_example :
    (s : IsSigned registry crypto zone (keys_for_mode registry crypto zone 2) (codes "a.") 1 [])
    × SignerKey registry crypto zone s.rrsig s.checked.key
    × IsVouched registry crypto zone s.checked.key
verify_rrset-ksk_example = verify_rrset-ksk registry crypto zone (codes "a.") 1 [] a-ksk

a-zsk : verify_rrset registry crypto zone (codes "a.") 1 1 [] ≡ ok true
unfolding verify_rrset domain_name2wire encode_domain_name encode_loop push_label label_from
    from_dot finish_name
a-zsk = refl

verify_rrset-zsk_example :
    (s : IsSigned registry crypto zone (keys_for_mode registry crypto zone 1) (codes "a.") 1 [])
    × IsZoneKey registry crypto zone (SignerKey registry crypto zone s.rrsig) s.checked.key
verify_rrset-zsk_example = verify_rrset-zsk registry crypto zone (codes "a.") 1 [] a-zsk
