-- ===== src/Tests/WireMessages.antt =====
-- packages/core/src/wire/dns_message.ts and types on concrete input.
use dnsdata_js.Base.{false, [], ◌∷◌, ◌≡◌, refl, arith, inr, All}
use dnsdata_js.Base.Text.{Text, codes}
use dnsdata_js.Base.Slices.{Bytes, IsByte}
use dnsdata_js.Base.Result.{ok, err, message_malformed, OrThrows, unknown_rrtype}
use dnsdata_js.Wire.Name.{
  ascii_to_lower, label_from, from_dot, push_label, encode_loop, finish_name, encode_domain_name,
  domain_name2wire,
}
use dnsdata_js.Wire.Name.Encode.RoundTrip.{NoLeadingDot}
use dnsdata_js.Wire.Name.Query.{ensure_fqdn, build_query_with_options}
use dnsdata_js.Wire.Message.{parse_message}
use dnsdata_js.Wire.RData.{decode_nsec3}
use dnsdata_js.Wire.RData.Bitmap.{IsNsec3, Decides, decode_nsec3-Decides}
use dnsdata_js.Wire.Message.Sections.{MessageFacts, parse_message-OrThrows}
use dnsdata_js.Wire.Message.QueryParse.{parsed_query, parse_message-build_query}
use dnsdata_js.Types.RrType.{rr_type_to_string, string_to_rr_type, rr_class_to_string, rr_type_name}
use dnsdata_js.Types.Algorithm.{algorithm_to_string}
use dnsdata_js.Types.RrType.Generic.{string_to_rr_type-rr_type_name}

abbrev query : Bytes
query =
    0 ∷ 7 ∷ 1 ∷ 0 ∷ 0 ∷ 1 ∷ 0 ∷ 0 ∷ 0 ∷ 0 ∷ 0 ∷ 1 ∷ 1 ∷ 97 ∷ 0 ∷ 0 ∷ 15 ∷ 0 ∷ 1 ∷ 0 ∷ 0 ∷ 41 ∷ 16
    ∷ 0 ∷ 0 ∷ 0 ∷ 128 ∷ 0 ∷ 0 ∷ 0 ∷ []

abbrev qname : Text
qname = codes "A"

query-built : build_query_with_options 7 qname 15 false ≡ ok query
unfolding build_query_with_options ensure_fqdn domain_name2wire ascii_to_lower encode_domain_name
    encode_loop push_label label_from from_dot finish_name
query-built = refl

qname-IsByte : All IsByte (ensure_fqdn qname)
unfolding ensure_fqdn
qname-IsByte = (omega arith, (omega arith, tt))

qname-NoLeadingDot : NoLeadingDot (ensure_fqdn qname)
unfolding ensure_fqdn
qname-NoLeadingDot = inr (λ r e. cc)

parse_message-build_query_example : parse_message query ≡ ok (parsed_query 7 qname 15 false query)
parse_message-build_query_example =
    parse_message-build_query 7 qname 15 false query qname-IsByte qname-NoLeadingDot query-built

parse_message-OrThrows_example :
    OrThrows message_malformed (MessageFacts query) (parse_message query)
parse_message-OrThrows_example = parse_message-OrThrows query

type_mx : rr_type_to_string 15 ≡ ok (codes "MX")
unfolding rr_type_to_string
type_mx = refl

class_in_name : rr_class_to_string 1 ≡ ok (codes "IN")
unfolding rr_class_to_string
class_in_name = refl

algorithm_13 : algorithm_to_string 13 ≡ ok (codes "ECDSAP256SHA256")
unfolding algorithm_to_string
algorithm_13 = refl

generic_type : rr_type_name 999 ≡ codes "TYPE999"
unfolding rr_type_name
generic_type = refl

generic_read : string_to_rr_type (codes "type999") ≡ ok 999
unfolding string_to_rr_type
generic_read = refl

type_unknown : string_to_rr_type (codes "TYPE65536") ≡ err unknown_rrtype
unfolding string_to_rr_type
type_unknown = refl

abbrev nsec3_octets : Bytes
nsec3_octets = 1 ∷ 0 ∷ 0 ∷ 5 ∷ 0 ∷ 1 ∷ 255 ∷ 0 ∷ 1 ∷ 64 ∷ []

decode_nsec3-Decides_example : Decides (IsNsec3 nsec3_octets) (decode_nsec3 nsec3_octets)
decode_nsec3-Decides_example = decode_nsec3-Decides nsec3_octets

nsec3_text :
    decode_nsec3 (1 ∷ 0 ∷ 0 ∷ 5 ∷ 0 ∷ 1 ∷ 255 ∷ 0 ∷ 1 ∷ 64 ∷ []) ≡ ok (codes "1 0 5 - VS A")
unfolding decode_nsec3
nsec3_text = refl

string_to_rr_type-rr_type_name_example : string_to_rr_type (rr_type_name 999) ≡ ok 999
string_to_rr_type-rr_type_name_example = string_to_rr_type-rr_type_name 999 (omega arith)
