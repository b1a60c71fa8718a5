-- ===== src/Dnssec/Signer.antt =====
-- packages/core/src/zone/dns_zone.ts and dnssec/signer/nsec.ts: resource records, and the constants
-- of the zone signer.
use dnsdata_js.Base.{ℕ, Bool, Option, List, [], ◌∷◌, ◌==◌, any}
use dnsdata_js.Base.Text.{Text}
use dnsdata_js.Base.Slices.{Bytes}
pub mod Zone
pub mod View
pub mod Chain
pub mod Owners
pub mod Recorded
pub mod Complete
pub mod Order
pub mod Apex
pub mod Types
pub mod Links

-- `handler_entry`, a cache of what the type's handler makes of the value, is left out.
pub record ResourceRecord : Type 0 where
  pub label : Text
  pub ttl : ℕ
  pub rrclass : ℕ
  pub type : ℕ
  pub value : Text
  pub received_rdata : Option Bytes

abbrev pub type_ns : ℕ
type_ns = 2

abbrev pub type_soa : ℕ
type_soa = 6

abbrev pub type_ds : ℕ
type_ds = 43

abbrev pub type_rrsig : ℕ
type_rrsig = 46

abbrev pub type_nsec : ℕ
type_nsec = 47

abbrev pub class_in : ℕ
class_in = 1

-- RRSIG, NSEC, NSEC3 and NSEC3PARAM
abbrev pub generated_types : List ℕ
generated_types = 46 ∷ 47 ∷ 50 ∷ 51 ∷ []

abbrev pub default_ttl : ℕ
default_ttl = 3600

-- `ts.includes(t)`
unfoldable pub includes : List ℕ → ℕ → Bool
includes ts t = any (λ u. u == t) ts

unfoldable pub is_generated_type : ℕ → Bool
unfolding includes
is_generated_type t = includes generated_types t
