-- ===== src/Tests/Keys.antt =====
-- packages/core/src/dnssec: NSEC values, canonical order, keys and signatures on small inputs.
use dnsdata_js.Base.{ℕ, ◌/◌, none, List, [], ◌∷◌, ◌++◌, map, ◌≡◌, refl, arith}
use dnsdata_js.Base.Text.{Text, codes, join}
use dnsdata_js.Base.Slices.{Bytes}
use dnsdata_js.Base.Among.{Among, here, there}
use dnsdata_js.Base.Sorting.{Ascending, Stands}
use dnsdata_js.Base.Result.{ok}
use dnsdata_js.Types.RrType.{rr_type_name}
use dnsdata_js.Dnssec.Nsec.Presentation.{nsec_of_value}
use dnsdata_js.Dnssec.Nsec.RoundTrip.{nsec_of, nsec_of_value-join}
use dnsdata_js.Dnssec.Signer.Zone.{
  Entry, compare_entries, entries-Comparison, sort_canonical, sort_canonical-Ascending,
}
use dnsdata_js.Dnssec.Keys.{DnsKey, RrSig, calc_key_tag}
use dnsdata_js.Dnssec.Keys.Tag.{octet_sum, key_rdata, fold_carry, calc_key_tag-octet_sum}
use dnsdata_js.Dnssec.Keys.Ecdsa.{raw_to_der, der_to_raw, der_to_raw-raw_to_der}
use dnsdata_js.Dnssec.SignedZone.Digest.{canonical_rrset_order}
use dnsdata_js.Dnssec.SignedZone.Digest.Order.{canonical_rrset_order-set}

nsec_of_value-join_example :
    nsec_of_value (codes "b.a." ++ (32 ∷ []) ++ join (32 ∷ []) (map rr_type_name (46 ∷ 1 ∷ [])))
    ≡ ok (nsec_of (codes "b.a.") (46 ∷ 1 ∷ []))
nsec_of_value-join_example =
    nsec_of_value-join (codes "b.a.") 46 (1 ∷ []) refl (omega arith, (omega arith, tt))

abbrev entry : Text → ℕ → Bytes → Entry
entry label type rdata = (
  record { label = label; ttl = 60; rrclass = 1; type = type; value = []; received_rdata = none },
  rdata,
)

abbrev entries : List Entry
entries =
    entry (codes "b.a.") 1 (9 ∷ []) ∷ entry (codes "A.") 6 [] ∷ entry (codes "B.a.") 1 (9 ∷ []) ∷ []

sort_canonical-Ascending_example :
    Ascending compare_entries (sort_canonical entries)
    × ((e : Entry)
        → Among e entries
        → Stands compare_entries entries-Comparison e (sort_canonical entries))
sort_canonical-Ascending_example = sort_canonical-Ascending entries

abbrev key : DnsKey
key = record {
  label = codes "a.";
  flags = 257;
  protocol = 3;
  algorithm = 13;
  key_data = 255 ∷ 255 ∷ 254 ∷ [];
}

-- The sum has a carry.
key-carry : octet_sum 256 1 (key_rdata key) / 65536 ≡ 2
key-carry = refl

calc_key_tag-octet_sum_example : calc_key_tag key ≡ fold_carry (octet_sum 256 1 (key_rdata key))
calc_key_tag-octet_sum_example =
    calc_key_tag-octet_sum key refl (omega arith) (omega arith) (omega arith)
      (omega arith, (omega arith, (omega arith, tt)))

-- A negative first number and a small second one.
der_to_raw-raw_to_der_example :
    der_to_raw 2 (raw_to_der 2 (0x80 ∷ 1 ∷ 0 ∷ 5 ∷ [])) ≡ 0x80 ∷ 1 ∷ 0 ∷ 5 ∷ []
der_to_raw-raw_to_der_example = der_to_raw-raw_to_der 2 (0x80 ∷ 1 ∷ 0 ∷ 5 ∷ []) (omega arith) refl

abbrev rrsig : RrSig
rrsig = record {
  type_covered = 1;
  algorithm = 13;
  labels = 1;
  original_ttl = 60;
  expire = 100;
  inception = 10;
  key_tag = 7;
  signer = codes "a.";
  signature = [];
}

abbrev bodies : List Bytes
bodies = (0 ∷ 1 ∷ 5 ∷ []) ∷ (0 ∷ 1 ∷ 3 ∷ []) ∷ (0 ∷ 1 ∷ 5 ∷ []) ∷ []

abbrev others : List Bytes
others = (0 ∷ 1 ∷ 3 ∷ []) ∷ (0 ∷ 1 ∷ 5 ∷ []) ∷ []

bodies-others : (x : Bytes) → Among x bodies → Among x others
bodies-others _ here = there here
bodies-others _ (there here) = here
bodies-others _ (there (there here)) = there here
bodies-others x (there (there (there m))) = elim m [ ]

others-bodies : (x : Bytes) → Among x others → Among x bodies
others-bodies _ here = there here
others-bodies _ (there here) = here
others-bodies x (there (there m)) = elim m [ ]

canonical_rrset_order-set_example : canonical_rrset_order bodies ≡ canonical_rrset_order others
canonical_rrset_order-set_example =
    canonical_rrset_order-set bodies others (refl, (refl, (refl, tt))) (refl, (refl, tt))
      (λ x. (bodies-others x, others-bodies x))
