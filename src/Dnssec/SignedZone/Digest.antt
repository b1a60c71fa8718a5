-- ===== src/Dnssec/SignedZone/Digest.antt =====
-- packages/core/src/dnssec/dnssec_zone.ts: the octets that the signature of an RRset covers.
use dnsdata_js.Base.{
  ℕ, ltb, Bool, true, false, if◌then◌else◌, Option, none, some, List, [], ◌∷◌, ◌++◌, length, drop,
  map,
}
use dnsdata_js.Base.Text.{Text, codes}
use dnsdata_js.Base.Slices.{Bytes}
use dnsdata_js.Base.Order.{Sign}
use dnsdata_js.Base.Sorting.{sort, drop_repeats}
use dnsdata_js.Base.Result.{Result, ok, err, stuck, ◌>>=◌, ◌>>◌, throw_if, rdata_format, map_result}
use dnsdata_js.Wire.Builder.{
  WireBuilder, new_builder, append_uint16, append_uint32, append_bytes, build, compare_uint8arrays,
}
use dnsdata_js.Wire.Name.{domain_name2wire}
use dnsdata_js.Dnssec.Canonical.{label_count, last_n_labels}
use dnsdata_js.Dnssec.Keys.{RrSig, get_rdata_digest_target}
use dnsdata_js.Dnssec.Signer.{ResourceRecord}
use dnsdata_js.Dnssec.SignedZone.{ZoneState, Registry, find_rrset}
pub mod Order

-- `wire_header_for_owner`, and `get_wire_header` for the fields of a record.
unfoldable pub wire_header_for_owner : Text → ℕ → ℕ → Result Bytes
unfolding append_bytes append_uint16 build
wire_header_for_owner owner rrtype rrclass = domain_name2wire owner >>= λ wire_name.
    ok (build (append_uint16 rrclass (append_uint16 rrtype (append_bytes wire_name new_builder))))

-- The order of bodies: that of the RDATA, without the two octets of RDLENGTH.
unfoldable pub compare_rdata : Bytes → Bytes → Sign
unfolding compare_uint8arrays
compare_rdata a b = compare_uint8arrays (drop 2 a) (drop 2 b)

unfoldable pub canonical_rrset_order : List Bytes → List Bytes
unfolding sort drop_repeats compare_rdata compare_uint8arrays
canonical_rrset_order bodies = drop_repeats compare_uint8arrays (sort compare_rdata bodies)

-- The owner whose header is digested: that of the record, or the wildcard the answer came from.
unfoldable pub signed_header : RrSig → Text → ResourceRecord → Result Bytes
unfolding label_count last_n_labels wire_header_for_owner
signed_header s name first =
    if ltb s.labels (label_count name)
    then wire_header_for_owner (codes "*." ++ last_n_labels name s.labels) first.type first.rrclass
    else wire_header_for_owner first.label first.type first.rrclass

unfoldable pub append_bodies : Bytes → ℕ → List Bytes → WireBuilder → WireBuilder
unfolding append_bytes append_uint32
append_bodies header ttl [] out = out
append_bodies header ttl (body ∷ bodies) out =
    append_bodies header ttl bodies
      (append_bytes body (append_uint32 ttl (append_bytes header out)))

module _ (registry : Registry) where
  abbrev pub body_of : ResourceRecord → Result Bytes
  body_of rr =
      registry.wire_body rr >>= λ body. throw_if (ltb (length body) 2) rdata_format >> ok body

  -- The target for an RRset with a first record.
  unfoldable pub digest_target_of :
      RrSig → Text → ResourceRecord → List ResourceRecord → Result Bytes
  unfolding signed_header canonical_rrset_order get_rdata_digest_target append_bodies append_bytes
      build
  digest_target_of s name first rrs = signed_header s name first >>= λ header.
      map_result body_of (first ∷ rrs) >>= λ bodies. get_rdata_digest_target s >>= λ rdata. ok (
        build (
          append_bodies header s.original_ttl (canonical_rrset_order bodies)
            (append_bytes rdata new_builder)))

  abbrev pub target_of : RrSig → Text → List ResourceRecord → Result (Option Bytes)
  target_of s name [] = ok none
  target_of s name (rr ∷ rrs) = digest_target_of s name rr rrs >>= λ t. ok (some t)

  unfoldable pub create_digest_target : ZoneState → RrSig → Text → ℕ → Result (Option Bytes)
  unfolding find_rrset digest_target_of
  create_digest_target z s name type = target_of s name (find_rrset z name type)
