-- ===== src/Verifier/Load/Caching.antt =====
-- packages/core/src/verifier/chain.ts: what a load leaves in the cache.
use dnsdata_js.Base.{
  ℕ, Bool, true, false, ◌&&◌, not, if◌then◌else◌, ◌==◌, ==_iff, Option, none, some, List, ◌∷◌, ◌≡◌,
  refl, ◌∙◌,
}
use dnsdata_js.Base.Text.{Text}
use dnsdata_js.Base.Maps.{text_eq_refl}
use dnsdata_js.Dnssec.Signer.{ResourceRecord}
use dnsdata_js.Dnssec.SignedZone.{DnssecZone}
use dnsdata_js.Verifier.Cache.{MemoryCache, get_cached, put, get_cached-put}
use dnsdata_js.Verifier.Walk.{
  Outside, Reply, responded, rejected, Request, poll, query, WalkResult, World, Settled, fulfilled,
  threw, settle, check_aborted, return, throw_error, get_world, VerifierError, resolver_rcode,
  chain_timeout, ◌>>=◌, ◌>>◌,
}
use dnsdata_js.Verifier.Load.{
  Loaded, load_from, accept_reply, fetch_records, load_records, load_or_fetch, cached_in, put_cache,
}

-- The cache holds records for the name and type, and the zone was made from them; or the cache is as
-- it was.
abbrev pub CacheAfter : MemoryCache → DnssecZone → Text → ℕ → Settled Loaded → Type 0
CacheAfter c z name qtype (threw e w) = w.cache ≡ some c
CacheAfter c z name qtype (fulfilled l w) =
    (rrs : List ResourceRecord) × (c' : MemoryCache) × (before : World) × (w.cache ≡ some c')
    × (get_cached c' name qtype ≡ some rrs)
    × (load_from rrs z name qtype before ≡ fulfilled l w)

get_cached-put_same :
    (c : MemoryCache) (name : Text) (qtype : ℕ) (rrs : List ResourceRecord)
    → get_cached (put name qtype rrs c) name qtype ≡ some rrs
get_cached-put_same c name qtype rrs =
    get_cached-put c name name qtype qtype rrs
    ∙ (rw (text_eq_refl name, (==_iff qtype qtype).1 refl) refl)

module _ (out : Outside) (c : MemoryCache) (z : DnssecZone) (name : Text) (qtype : ℕ) where
  abbrev with_cache : WalkResult → List Request → World
  with_cache r log = record { result = r; cache = some c; asked = log }

  load_from-after :
      (rrs : List ResourceRecord) (c' : MemoryCache) (r : WalkResult) (log : List Request)
      → get_cached c' name qtype ≡ some rrs
      → CacheAfter c z name qtype
          (load_from rrs z name qtype (record { result = r; cache = some c'; asked = log }))
  unfolding load_from
  load_from-after rrs c' r log e =
      (rrs, c', record { result = r; cache = some c'; asked = log }, refl, e, refl)

  -- The rest of `fetch_records`, behind the reply.
  abbrev stored : Settled (List ResourceRecord) → Settled Loaded
  stored = settle (λ rrs. put_cache name qtype rrs >> load_from rrs z name qtype)

  stored-if :
      (b : Bool) (e : VerifierError) (rrs : List ResourceRecord) (r : WalkResult)
      (log : List Request)
      → CacheAfter c z name qtype
          (stored ((if b then throw_error e else return rrs) (with_cache r log)))
  stored-if true e rrs r log = refl
  stored-if false e rrs r log =
      load_from-after rrs (put name qtype rrs c) r log (get_cached-put_same c name qtype rrs)

  accept_reply-after :
      (reply : Reply) (r : WalkResult) (log : List Request)
      → CacheAfter c z name qtype (stored (accept_reply out reply (with_cache r log)))
  unfolding accept_reply
  accept_reply-after (rejected true) r log = refl
  accept_reply-after (rejected false) r log = refl
  accept_reply-after (responded resp) r log =
      stored-if (not (resp.rcode == 0) && not (resp.rcode == 3)) (resolver_rcode resp.rcode)
        resp.records r log

  load_or_fetch-after :
      (found : Option (List ResourceRecord)) (r : WalkResult) (log : List Request)
      → get_cached c name qtype ≡ found
      → CacheAfter c z name qtype (load_or_fetch out found z name qtype (with_cache r log))
  unfolding fetch_records
  load_or_fetch-after (some rrs) r log e = load_from-after rrs c r log e
  load_or_fetch-after none r log e =
      accept_reply-after (out.on_query log name qtype) r (query name qtype ∷ log)

  unless_aborted :
      (b : Bool) (r : WalkResult) (log : List Request)
      → CacheAfter c z name qtype (
          settle
            (λ (nothing : Unit {0}).
              get_world >>= λ w. load_or_fetch out (cached_in w.cache name qtype) z name qtype)
            ((if b then throw_error chain_timeout else return tt) (with_cache r log)))
  unless_aborted true r log = refl
  unless_aborted false r log = load_or_fetch-after (get_cached c name qtype) r log refl

  -- With a cache attached, whatever the resolver and the signal do: where `load_records` returns, the
  -- cache holds an entry for the name and the type, and the zone was made from it; where it throws,
  -- the cache is as it was, so that no error is cached.
  pub load_records-CacheAfter :
      (r : WalkResult) (log : List Request)
      → CacheAfter c z name qtype
          (load_records out z name qtype (record { result = r; cache = some c; asked = log }))
  unfolding load_records check_aborted
  load_records-CacheAfter r log = unless_aborted (out.is_aborted log) r (poll ∷ log)
