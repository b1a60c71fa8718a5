-- ===== src/Dnssec/SignedZone.antt =====
-- packages/core/src/dnssec/dnssec_zone.ts: a zone with its keys. The parent of the parent is not
-- consulted, so a zone has the state of its parent and no more.
use dnsdata_js.Base.{
  ℕ, ◌/◌, ltb, Bool, true, false, ◌&&◌, ◌||◌, not, if◌then◌else◌, ◌==◌, any, Option, none, some,
  List, [], ◌∷◌, ◌++◌, length, take,
}
use dnsdata_js.Base.Text.{Text, text_eq, codes, to_lower, decimal, to_hex_lower, join}
use dnsdata_js.Base.Slices.{Bytes}
use dnsdata_js.Base.Maps.{get, set}
use dnsdata_js.Base.Result.{Exception, Result, ok, err, stuck, ◌>>=◌}
use dnsdata_js.Types.RrType.{rr_type_name}
use dnsdata_js.Dnssec.Keys.{DnsKey, Ds, RrSig, calc_key_tag, get_ds_digest_data}
use dnsdata_js.Dnssec.Keys.Verify.{Crypto, verify_digest}
use dnsdata_js.Dnssec.Signer.{ResourceRecord}
pub mod Digest
pub mod Check
pub mod Vouched
pub mod Laws
pub mod Trust
pub mod Records

abbrev pub type_ds : ℕ
type_ds = 43

abbrev pub type_rrsig : ℕ
type_rrsig = 46

abbrev pub type_dnskey : ℕ
type_dnskey = 48

-- `_now` in milliseconds.
pub record ZoneState : Type 0 where
  pub records : List (Text × List ResourceRecord)
  pub seps : List Text
  pub trusted_keys : List Text
  pub now : Option ℕ

pub record DnssecZone : Type 0 where
  pub own : ZoneState
  pub parent : Option ZoneState

-- What the zone's registry makes of a record: its handler, if it is one of the class, and the octets
-- that `get_wire_body` appends.
pub record Registry : Type 0 where
  pub dnskey_of : ResourceRecord → Result (Option DnsKey)
  pub rrsig_of : ResourceRecord → Result (Option RrSig)
  pub ds_of : ResourceRecord → Result (Option Ds)
  pub wire_body : ResourceRecord → Result Bytes

-- `_key` of a zone: a null between the name and the type.
unfoldable pub zone_key : Text → ℕ → Text
unfolding decimal
zone_key name type = name ++ 0 ∷ decimal type

unfoldable pub find_rrset : ZoneState → Text → ℕ → List ResourceRecord
unfolding get zone_key
find_rrset z name type = elim (get (zone_key name type) z.records) [ none ↦ [] | some rrs ↦ rrs ]

unfoldable pub add_rr : ResourceRecord → ZoneState → ZoneState
unfolding get set zone_key
add_rr rr z =
    let key = zone_key rr.label rr.type in
    elim (get key z.records) [
      | none ↦ record z { records = set key (rr ∷ []) z.records }
      | some rrs ↦ record z { records = set key (rrs ++ rr ∷ []) z.records }
    ]

-- Owner, flags, protocol, algorithm and public key.
unfoldable pub key_identity : DnsKey → Text
unfolding to_lower decimal to_hex_lower join
key_identity k = join (codes " ") (
    to_lower k.label
    ∷ decimal k.flags
    ∷ decimal k.protocol
    ∷ decimal k.algorithm
    ∷ to_hex_lower k.key_data
    ∷ [])

abbrev pub has_text : Text → List Text → Bool
has_text s ts = any (λ t. text_eq t s) ts

unfoldable pub add_trusted_key : DnsKey → ZoneState → ZoneState
unfolding key_identity text_eq
add_trusted_key k z =
    if has_text (key_identity k) z.trusted_keys
    then z
    else record z { trusted_keys = z.trusted_keys ++ key_identity k ∷ [] }

unfoldable pub is_trusted_key : ZoneState → DnsKey → Bool
unfolding key_identity text_eq
is_trusted_key z k = has_text (key_identity k) z.trusted_keys

-- `s.startsWith(prefix)`
abbrev pub starts_with : Text → Text → Bool
starts_with s prefix = text_eq (take (length prefix) s) prefix

module _ (registry : Registry) where
  -- Whether a record of type RRSIG may cover the type, by its text.
  unfoldable pub may_cover : ℕ → ResourceRecord → Bool
  unfolding rr_type_name text_eq
  may_cover type rr =
      starts_with rr.value (rr_type_name type ++ codes " ") || starts_with rr.value (codes "\\# ")

  -- An empty `signer` is no condition.
  abbrev pub wanted : ℕ → Text → Option RrSig → List RrSig → List RrSig
  wanted type signer none rest = rest
  wanted type signer (some s) rest =
      if (s.type_covered == type) && (text_eq signer [] || text_eq s.signer signer)
      then s ∷ rest
      else rest

  unfoldable pub select_rrsigs : ℕ → Text → List ResourceRecord → Result (List RrSig)
  unfolding may_cover text_eq
  select_rrsigs type signer [] = ok []
  select_rrsigs type signer (rr ∷ rrs) =
      let rest = select_rrsigs type signer rrs in
      if may_cover type rr
      then (registry.rrsig_of rr >>= λ handler.
          rest >>= λ found. ok (wanted type signer handler found))
      else rest

  unfoldable pub find_rrsigs : ZoneState → Text → ℕ → Text → Result (List RrSig)
  unfolding find_rrset select_rrsigs
  find_rrsigs z name type signer = select_rrsigs type signer (find_rrset z name type_rrsig)

  abbrev pub matching : ℕ → ℕ → Option DnsKey → List DnsKey → List DnsKey
  matching keytag algorithm none rest = rest
  matching keytag algorithm (some k) rest =
      if (calc_key_tag k == keytag) && (k.algorithm == algorithm) then k ∷ rest else rest

  unfoldable pub select_dnskeys : ℕ → ℕ → List ResourceRecord → Result (List DnsKey)
  unfolding calc_key_tag
  select_dnskeys keytag algorithm [] = ok []
  select_dnskeys keytag algorithm (rr ∷ rrs) =
      let rest = select_dnskeys keytag algorithm rrs in
      registry.dnskey_of rr >>= λ handler.
      rest >>= λ found. ok (matching keytag algorithm handler found)

  unfoldable pub find_dnskeys : ZoneState → Text → ℕ → ℕ → Result (List DnsKey)
  unfolding find_rrset select_dnskeys
  find_dnskeys z signer keytag algorithm =
      select_dnskeys keytag algorithm (find_rrset z signer type_dnskey)

  module _ (crypto : Crypto) where
    unfoldable pub verify_delegation_signer_with_ds : DnsKey → Ds → Result Bool
    unfolding get_ds_digest_data verify_digest
    verify_delegation_signer_with_ds k ds =
        if not (k.algorithm == ds.algorithm)
        then ok false
        else (get_ds_digest_data k >>= λ key_digest. verify_digest crypto ds key_digest)

    -- One DS record: `false` where it is no match.
    unfoldable pub matches_ds : DnsKey → Option Ds → Result Bool
    unfolding verify_delegation_signer_with_ds
    matches_ds k none = ok false
    matches_ds k (some ds) =
        let matched = verify_delegation_signer_with_ds k ds in
        if (ds.digest_type == 1) || (ds.digest_type == 2) || (ds.digest_type == 4)
        then matched
        else ok false

    unfoldable pub any_ds : DnsKey → List ResourceRecord → Result Bool
    unfolding matches_ds
    any_ds k [] = ok false
    any_ds k (rr ∷ rrs) =
        let rest = any_ds k rrs in
        registry.ds_of rr >>= λ handler.
        matches_ds k handler >>= λ matched. if matched then ok true else rest

    unfoldable pub verify_delegation_signer : DnssecZone → DnsKey → Result Bool
    unfolding is_trusted_key find_rrset any_ds
    verify_delegation_signer z k =
        if is_trusted_key z.own k
        then ok true
        else elim z.parent [ none ↦ ok false | some p ↦ any_ds k (find_rrset p k.label type_ds) ]
