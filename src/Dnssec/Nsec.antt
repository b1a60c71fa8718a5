-- ===== src/Dnssec/Nsec.antt =====
-- packages/core/src/dnssec/nsec.ts: the NSEC handler, whose fields the presentation form gives.
use dnsdata_js.Base.{
  ℕ, ◌+◌, Bool, true, false, ◌&&◌, ◌||◌, not, if◌then◌else◌, List, [], ◌∷◌, ◌++◌, ◌==◌, any, length,
}
use dnsdata_js.Base.Text.{Text}
use dnsdata_js.Base.Slices.{Bytes}
use dnsdata_js.Base.Order.{Sign}
use dnsdata_js.Base.Result.{Result, ok, ◌>>=◌}
use dnsdata_js.Wire.Builder.{WireBuilder, append_uint8, append_uint16, append_bytes}
use dnsdata_js.Wire.Name.{domain_name2wire_preserve_case}
use dnsdata_js.Dnssec.Canonical.{compare_canonical_names, equal_canonical_names}
use dnsdata_js.Dnssec.Denial.{covers}
pub mod Laws
pub mod Bitmap
pub mod Presentation
pub mod RoundTrip

pub record Nsec : Type 0 where
  pub next_domain : Text
  pub type_bitmap : Bytes
  pub covered_types : List ℕ

abbrev pub type_ns : ℕ
type_ns = 2

abbrev pub type_cname : ℕ
type_cname = 5

abbrev pub type_soa : ℕ
type_soa = 6

abbrev pub type_ds : ℕ
type_ds = 43

-- `covered_types.indexOf(type) !== -1`
unfoldable pub covers_type : List ℕ → ℕ → Bool
covers_type covered type = any (λ t. t == type) covered

unfoldable pub matches_name : Text → Text → Bool
unfolding equal_canonical_names
matches_name owner qname = equal_canonical_names owner qname

unfoldable pub covers_name : Nsec → Text → Text → Bool
unfolding covers compare_canonical_names
covers_name n owner qname = covers compare_canonical_names owner n.next_domain qname

unfoldable pub proves_no_data : List ℕ → ℕ → Bool
unfolding covers_type
proves_no_data covered qtype =
    if qtype == type_cname
    then not (covers_type covered type_cname)
    else not (covers_type covered qtype) && not (covers_type covered type_cname)

-- `has_ns`, `has_ds` and `has_soa`
pub record Seen : Type 0 where
  pub has_ns : Bool
  pub has_ds : Bool
  pub has_soa : Bool

-- The loop over the covered types.
unfoldable pub see_types : List ℕ → Seen → Seen
see_types [] s = s
see_types (t ∷ ts) s = see_types ts (
    if t == type_ns
    then record s { has_ns = true }
    else if t == type_ds
    then record s { has_ds = true }
    else if t == type_soa
    then record s { has_soa = true }
    else s)

unfoldable pub proves_no_ds : List ℕ → Bool
unfolding see_types
proves_no_ds covered =
    let s = see_types covered (record { has_ns = false; has_ds = false; has_soa = false }) in
    s.has_ns && not s.has_ds && not s.has_soa

unfoldable pub get_wire_body : Nsec → WireBuilder → Result WireBuilder
unfolding append_uint16 append_bytes
get_wire_body n builder = domain_name2wire_preserve_case n.next_domain >>= λ next_wire. ok (
    append_bytes n.type_bitmap
      (append_bytes next_wire (append_uint16 (length next_wire + length n.type_bitmap) builder)))
