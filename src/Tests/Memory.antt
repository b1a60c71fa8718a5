-- ===== src/Tests/Memory.antt =====
-- packages/core/src/resolver/memory: a zone with an empty non-terminal.
use dnsdata_js.Base.{true, none, some, List, [], ◌∷◌, ◌↔◌, ◌≡◌, refl}
use dnsdata_js.Base.Text.{Text, codes}
use dnsdata_js.Dnssec.Signer.{ResourceRecord}
use dnsdata_js.Resolver.Memory.{wildcard_of, next_closer}
use dnsdata_js.Resolver.Memory.ZoneIndex.{
  ZoneIndex, no_index, has_name, records, index_from, closest_encloser, cut_above,
}
use dnsdata_js.Resolver.Memory.Laws.{owned, Reached, index_from-has_name}

abbrev record_at : Text → ResourceRecord
record_at name = record {
  label = name;
  ttl = 60;
  rrclass = 1;
  type = 2;
  value = codes "ns.";
  received_rdata = none;
}

abbrev zone : List ResourceRecord
zone = record_at (codes "Test") ∷ record_at (codes "a.b.test.") ∷ []

abbrev indexed : ZoneIndex
indexed = record {
  by_name =
      (codes "test.", record_at (codes "Test") ∷ [])
      ∷ (codes "a.b.test.", record_at (codes "a.b.test.") ∷ [])
      ∷ [];
  exists = codes "b.test." ∷ codes "a.b.test." ∷ codes "test." ∷ [];
  cuts = codes "a.b.test." ∷ [];
}

zone-index : index_from (codes "test.") zone no_index ≡ some indexed
unfolding index_from
zone-index = refl

encloser-found : closest_encloser (codes "test.") indexed (codes "x.y.b.test.") ≡ codes "b.test."
unfolding closest_encloser
encloser-found = refl

cut-found : cut_above indexed (codes "c.a.b.test.") ≡ some (codes "a.b.test.")
unfolding cut_above
cut-found = refl

closer-name : next_closer (codes "x.y.b.test.") (codes "b.test.") ≡ codes "y.b.test."
unfolding next_closer
closer-name = refl

root-wildcard : wildcard_of (codes ".") ≡ codes "*."
unfolding wildcard_of
root-wildcard = refl

index_from-has_name_example :
    (records indexed (codes "b.test.") ≡ owned (codes "b.test.") zone)
    × ((has_name indexed (codes "b.test.") ≡ true) ↔ Reached (codes "test.") zone (codes "b.test."))
index_from-has_name_example =
    index_from-has_name (codes "test.") zone indexed zone-index (codes "b.test.")
