-- ===== src/Verifier/Cache.antt =====
-- packages/core/src/verifier/cache.ts: `MemoryCache`, and the map it stands for.
use dnsdata_js.Base.{ℕ, ◌&&◌, if◌then◌else◌, ◌==◌, Option, some, List, [], length, ◌≡◌, refl}
use dnsdata_js.Base.Text.{Text, text_eq}
use dnsdata_js.Base.Maps.{get, set}
use dnsdata_js.Types.RrType.Keys.{composite_key, get-set_composite}
use dnsdata_js.Dnssec.Signer.{ResourceRecord}

-- `entries`
pub record MemoryCache : Type 0 where
  pub entries : List (Text × List ResourceRecord)

abbrev pub new_cache : MemoryCache
new_cache = record { entries = [] }

-- A space between the name and the type.
unfoldable pub cache_key : Text → ℕ → Text
cache_key name qtype = composite_key b' ' name qtype

unfoldable pub get_cached : MemoryCache → Text → ℕ → Option (List ResourceRecord)
unfolding get cache_key
get_cached c name qtype = get (cache_key name qtype) c.entries

unfoldable pub put : Text → ℕ → List ResourceRecord → MemoryCache → MemoryCache
unfolding set cache_key
put name qtype records c = record { entries = set (cache_key name qtype) records c.entries }

unfoldable pub size : MemoryCache → ℕ
size c = length c.entries

-- `MemoryCache` implements a map from names and types: `put` changes the entry of its name and type,
-- to exactly the records given, an empty list included, and no other entry, whatever the names are.
pub get_cached-put :
    (c : MemoryCache) (name other : Text) (qtype type : ℕ) (records : List ResourceRecord)
    → get_cached (put name qtype records c) other type
      ≡ (if text_eq name other && (qtype == type) then some records else get_cached c other type)
unfolding get_cached put cache_key
get_cached-put c name other qtype type records =
    get-set_composite b' ' name other qtype type records c.entries refl
