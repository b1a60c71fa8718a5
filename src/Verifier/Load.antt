-- ===== src/Verifier/Load.antt =====
-- packages/core/src/verifier/chain.ts: the records of a zone, from the cache or the resolver.
use dnsdata_js.Base.{
  ℕ, ◌+◌, Bool, true, false, ◌&&◌, ◌||◌, not, if◌then◌else◌, ◌==◌, Option, none, some, List, [],
  ◌∷◌, ◌++◌, map,
}
use dnsdata_js.Base.Text.{Text, codes}
use dnsdata_js.Base.Maps.{get, set}
use dnsdata_js.Dnssec.Canonical.{equal_canonical_names}
use dnsdata_js.Dnssec.Signer.{ResourceRecord}
use dnsdata_js.Dnssec.SignedZone.{ZoneState, DnssecZone, add_rr, type_ds, type_rrsig, type_dnskey}
use dnsdata_js.Verifier.Cache.{MemoryCache, get_cached, put}
use dnsdata_js.Verifier.Walk.{
  Bookkeeping, World, Walk, Outside, Reply, responded, rejected, chain_timeout, resolver_failed,
  resolver_rcode, ResolverResponse, WalkResult, return, throw_error, get_world, ask, poll_signal,
  check_aborted, qtype_mnemonic, ◌>>=◌, ◌>>◌,
}
pub mod Laws
pub mod Caching

unfoldable pub push_evidence : Text → Text → List (Text × List Text) → List (Text × List Text)
unfolding get set
push_evidence key value into = elim (get key into) [
  | none ↦ set key (value ∷ []) into
  | some values ↦ set key (values ++ value ∷ []) into
]

unfoldable pub book : ResourceRecord → ℕ → Bookkeeping → Bookkeeping
unfolding push_evidence qtype_mnemonic
book rr qtype b =
    if rr.type == type_dnskey
    then record b { dnskeys = push_evidence rr.label rr.value b.dnskeys }
    else if rr.type == type_ds
    then record b { dses = push_evidence rr.label rr.value b.dses }
    else if rr.type == type_rrsig
    then record b {
      rrsigs = push_evidence (rr.label ++ codes "/" ++ qtype_mnemonic qtype) rr.value b.rrsigs;
    }
    else b

pub record Applied : Type 0 where
  pub zone : ZoneState
  pub evidence : Bookkeeping
  pub matching : ℕ

-- A DNSKEY that is no answer to the DNSKEY query for its owner.
unfoldable pub is_stray_key : Text → ℕ → ResourceRecord → Bool
unfolding equal_canonical_names
is_stray_key name qtype rr =
    (rr.type == type_dnskey)
    && (not (qtype == type_dnskey) || not (equal_canonical_names rr.label name))

abbrev pub is_wanted : Text → ℕ → ResourceRecord → Bool
is_wanted name qtype rr = (rr.type == qtype) && equal_canonical_names rr.label name

unfoldable pub apply_records : List ResourceRecord → Text → ℕ → Applied → Applied
unfolding is_stray_key add_rr book equal_canonical_names
apply_records [] name qtype a = a
apply_records (rr ∷ rrs) name qtype a = apply_records rrs name qtype (
    if is_stray_key name qtype rr then a else record {
      zone = add_rr rr a.zone;
      evidence = book rr qtype a.evidence;
      matching = if is_wanted name qtype rr then a.matching + 1 else a.matching;
    })

-- A zone with the records that were loaded into it, and how many of them were asked for.
pub record Loaded : Type 0 where
  pub zone : DnssecZone
  pub count : ℕ

unfoldable pub load_from : List ResourceRecord → DnssecZone → Text → ℕ → Walk Loaded
unfolding apply_records
load_from rrs z name qtype w =
    let a =
      apply_records rrs name qtype
        (record { zone = z.own; evidence = w.result.evidence; matching = 0 }) in
    return record { zone = record z { own = a.zone }; count = a.matching }
      record w { result = record w.result { evidence = a.evidence } }

abbrev pub cached_in : Option MemoryCache → Text → ℕ → Option (List ResourceRecord)
cached_in none name qtype = none
cached_in (some c) name qtype = get_cached c name qtype

abbrev pub put_in : Option MemoryCache → Text → ℕ → List ResourceRecord → Option MemoryCache
put_in none name qtype rrs = none
put_in (some c) name qtype rrs = some (put name qtype rrs c)

abbrev pub put_cache : Text → ℕ → List ResourceRecord → Walk (Unit {0})
put_cache name qtype rrs w = return tt (record w { cache = put_in w.cache name qtype rrs })

module _ (out : Outside) where
  -- What `load_records` makes of the reply: the records, or an exception.
  unfoldable pub accept_reply : Reply → Walk (List ResourceRecord)
  accept_reply (rejected true) = throw_error chain_timeout
  accept_reply (rejected false) = poll_signal out >>= λ aborted.
      throw_error (if aborted then chain_timeout else resolver_failed)
  accept_reply (responded resp) =
      if not (resp.rcode == 0) && not (resp.rcode == 3)
      then throw_error (resolver_rcode resp.rcode)
      else return resp.records

  -- The end of `load_records`, without a hit in the cache.
  unfoldable pub fetch_records : DnssecZone → Text → ℕ → Walk Loaded
  unfolding accept_reply load_from
  fetch_records z name qtype = ask out name qtype >>= λ reply.
      accept_reply reply >>= λ rrs. put_cache name qtype rrs >> load_from rrs z name qtype

  abbrev pub load_or_fetch : Option (List ResourceRecord) → DnssecZone → Text → ℕ → Walk Loaded
  load_or_fetch none z name qtype = fetch_records z name qtype
  load_or_fetch (some rrs) z name qtype = load_from rrs z name qtype

  unfoldable pub load_records : DnssecZone → Text → ℕ → Walk Loaded
  unfolding check_aborted fetch_records load_from
  load_records z name qtype =
      check_aborted out
      >> (get_world >>= λ w. load_or_fetch (cached_in w.cache name qtype) z name qtype)
