-- ===== src/Dnssec/Signer/Zone.antt =====
-- packages/core/src/zone/dns_zone.ts and zone/canonical.ts: the records of a zone in canonical order.
-- The RDATA octets of a record are what its type's handler writes: a parameter.
use dnsdata_js.Base.{List, [], ◌∷◌, map, All, ◌≡◌, inl, inr}
use mathlib.Core.Path.{subst}
use dnsdata_js.Base.Slices.{Bytes}
use dnsdata_js.Base.Order.{
  Sign, less, equal, Comparison, Comparison-on, sign_of_sub, sign_of_sub-equal,
}
use dnsdata_js.Base.Among.{Among, here, there, Among-map}
use dnsdata_js.Base.Sorting.{
  sort, drop_repeats, Ascending, Stands, NotAfter, Weakly, sort-Weakly, drop_repeats-Ascending,
  Among-sort, Stands-drop_repeats, All-sort, All-drop_repeats,
}
use dnsdata_js.Base.Result.{
  Result, ok, err, stuck, ◌>>=◌, map_result, >>=-eq-ok, Returned, ok_injective,
}
use dnsdata_js.Dnssec.Canonical.{compare_canonical_names, CanonicalEntry, compare_canonical_entries}
use dnsdata_js.Dnssec.Canonical.Entries.{
  compare_canonical_entries-Comparison, or_else-both, or_else-first,
}
use dnsdata_js.Dnssec.Signer.{ResourceRecord}

-- A record with its RDATA octets.
abbrev pub Entry : Type 0
Entry = ResourceRecord × Bytes

abbrev pub entry_key : Entry → CanonicalEntry
entry_key (rr, d) = record { label = rr.label; type = rr.type; rrclass = rr.rrclass; rdata = d }

unfoldable pub compare_entries : Entry → Entry → Sign
unfolding compare_canonical_entries
compare_entries e f = compare_canonical_entries (entry_key e) (entry_key f)

unfoldable pub sort_canonical : List Entry → List Entry
unfolding sort drop_repeats compare_entries
sort_canonical entries = drop_repeats compare_entries (sort compare_entries entries)

pub entries-Comparison : Comparison compare_entries
unfolding compare_entries
entries-Comparison =
    Comparison-on entry_key compare_canonical_entries compare_canonical_entries-Comparison

-- `sort_canonical` yields its entries in strictly ascending order, owner first, then type, class and
-- RDATA octets, and drops an entry only where one that compares equal to it is kept.
pub sort_canonical-Ascending :
    (entries : List Entry)
    → Ascending compare_entries (sort_canonical entries)
      × ((e : Entry)
          → Among e entries
          → Stands compare_entries entries-Comparison e (sort_canonical entries))
unfolding sort_canonical
sort_canonical-Ascending entries = (
  drop_repeats-Ascending compare_entries entries-Comparison (sort compare_entries entries)
      (sort-Weakly compare_entries entries-Comparison entries),
  λ e m.
      Stands-drop_repeats compare_entries entries-Comparison e (sort compare_entries entries)
        (Among-sort compare_entries e entries m),
)

-- The order of the owners of records.
abbrev pub by_label : ResourceRecord → ResourceRecord → Sign
by_label a b = compare_canonical_names a.label b.label

-- A record with the same owner, up to case, and the same type.
abbrev pub IsLike : ResourceRecord → ResourceRecord → Type 0
IsLike a b = (by_label a b ≡ equal) × (a.type ≡ b.type)

compare_entries-by_label : (e f : Entry) → compare_entries e f ≡ less → NotAfter (by_label e.0 f.0)
unfolding compare_entries compare_canonical_entries
compare_entries-by_label e f h = elim (or_else-first (by_label e.0 f.0) _ h) [
  | inl l ↦ rw l tt
  | inr (l, k) ↦ rw l tt
]

compare_entries-IsLike : (e f : Entry) → compare_entries e f ≡ equal → IsLike e.0 f.0
unfolding compare_entries compare_canonical_entries
compare_entries-IsLike e f h =
    let (l, k) = or_else-both (by_label e.0 f.0) _ h in
    let (t, r) = or_else-both (sign_of_sub e.0.type f.0.type) _ k in
    (l, sign_of_sub-equal e.0.type f.0.type t)

abbrev pub record_of : Entry → ResourceRecord
record_of e = e.0

all-by_label :
    (e : Entry) (es : List Entry)
    → All (λ (f : Entry). compare_entries e f ≡ less) es
    → All (λ (r : ResourceRecord). NotAfter (by_label e.0 r)) (map record_of es)
all-by_label e [] h = tt
all-by_label e (f ∷ es) (l, h) = (compare_entries-by_label e f l, all-by_label e es h)

labels-Weakly :
    (es : List Entry) → Ascending compare_entries es → Weakly by_label (map record_of es)
labels-Weakly [] a = tt
labels-Weakly (e ∷ es) (l, a) = (all-by_label e es l, labels-Weakly es a)

module _ (canonical_rdata : ResourceRecord → Result Bytes) where
  abbrev pub entry_of : ResourceRecord → Result Entry
  entry_of rr = canonical_rdata rr >>= λ d. ok (rr, d)

  unfoldable pub records_canonical : List ResourceRecord → Result (List ResourceRecord)
  unfolding sort_canonical
  records_canonical records =
      map_result entry_of records >>= λ entries. ok (map record_of (sort_canonical entries))

-- Every record has an entry.
abbrev HaveEntries : List ResourceRecord → List Entry → Type 0
HaveEntries records entries =
    (r : ResourceRecord) → Among r records → (d : Bytes) × Among (r, d) entries

HaveEntries-cons :
    (q : ResourceRecord) (d : Bytes) (records : List ResourceRecord) (entries : List Entry)
    → HaveEntries records entries
    → HaveEntries (q ∷ records) ((q, d) ∷ entries)
HaveEntries-cons q d records entries h _ here = (d, here)
HaveEntries-cons q d records entries h r (there m) = let (b, k) = h r m in (b, there k)

one_entry :
    (q : ResourceRecord) (records : List ResourceRecord) (d : Result Bytes)
    (es : Result (List Entry))
    → Returned (HaveEntries records) es
    → Returned
        (HaveEntries (q ∷ records))
        (d >>= (λ b. ok (q, b)) >>= λ y. es >>= λ ys. ok (y ∷ ys))
one_entry q records (ok d) (ok es) h = HaveEntries-cons q d records es h
one_entry q records (ok d) (err x) h = tt
one_entry q records (ok d) stuck h = tt
one_entry q records (err x) es h = tt
one_entry q records stuck es h = tt

module _ (canonical_rdata : ResourceRecord → Result Bytes) where
  map_result-HaveEntries :
      (records : List ResourceRecord)
      → Returned (HaveEntries records) (map_result (entry_of canonical_rdata) records)
  map_result-HaveEntries [] = λ r m. elim m [ ]
  map_result-HaveEntries (q ∷ records) =
      one_entry q records (canonical_rdata q) (map_result (entry_of canonical_rdata) records)
        (map_result-HaveEntries records)

  -- The records come in the order of their owners, and for each record of the zone one like it.
  pub records_canonical-Weakly :
      (records out : List ResourceRecord)
      → records_canonical canonical_rdata records ≡ ok out
      → Weakly by_label out
        × ((r : ResourceRecord) → Among r records → (s : ResourceRecord) × Among s out × IsLike s r)
  unfolding records_canonical
  records_canonical-Weakly records out e =
      let (entries, es, e1) = >>=-eq-ok (map_result (entry_of canonical_rdata) records) _ e in
      let have : HaveEntries records entries =
        subst (λ (o : Result (List Entry)). Returned (HaveEntries records) o) es
          (map_result-HaveEntries records) in
      let (a, st) = sort_canonical-Ascending entries in
      let same : map record_of (sort_canonical entries) ≡ out = ok_injective e1 in
      (
        subst (λ (o : List ResourceRecord). Weakly by_label o) same
            (labels-Weakly (sort_canonical entries) a),
        λ r m.
            let (d, k) = have r m in
            let (f, n, q) = st (r, d) k in
            (
              f.0,
              subst (λ (o : List ResourceRecord). Among f.0 o) same (Among-map record_of f _ n),
              compare_entries-IsLike f (r, d) q,
            ),
      )

module _ (canonical_rdata : ResourceRecord → Result Bytes) (P : ResourceRecord → Type 0) where
  entry-All :
      (q : ResourceRecord) (d : Result Bytes) (es : Result (List Entry))
      → P q
      → Returned (All (λ (e : Entry). P e.0)) es
      → Returned
          (All (λ (e : Entry). P e.0))
          (d >>= (λ b. ok (q, b)) >>= λ y. es >>= λ ys. ok (y ∷ ys))
  entry-All q (ok d) (ok es) p h = (p, h)
  entry-All q (ok d) (err x) p h = tt
  entry-All q (ok d) stuck p h = tt
  entry-All q (err x) es p h = tt
  entry-All q stuck es p h = tt

  entries-All :
      (records : List ResourceRecord)
      → All P records
      → Returned (All (λ (e : Entry). P e.0)) (map_result (entry_of canonical_rdata) records)
  entries-All [] h = tt
  entries-All (q ∷ records) (p, h) =
      entry-All q (canonical_rdata q) (map_result (entry_of canonical_rdata) records) p
        (entries-All records h)

  all_records : (es : List Entry) → All (λ (e : Entry). P e.0) es → All P (map record_of es)
  all_records [] h = tt
  all_records (e ∷ es) (p, h) = (p, all_records es h)

  -- What holds of all records holds of them in canonical order.
  pub records_canonical-All :
      (records out : List ResourceRecord)
      → All P records
      → records_canonical canonical_rdata records ≡ ok out
      → All P out
  unfolding records_canonical sort_canonical
  records_canonical-All records out h e =
      let (entries, es, e1) = >>=-eq-ok (map_result (entry_of canonical_rdata) records) _ e in
      let all : All (λ (x : Entry). P x.0) entries =
        subst (λ (o : Result (List Entry)). Returned (All (λ (x : Entry). P x.0)) o) es
          (entries-All records h) in
      subst (λ (o : List ResourceRecord). All P o) (ok_injective e1)
        (all_records (sort_canonical entries) (
          All-drop_repeats compare_entries (λ (x : Entry). P x.0) (sort compare_entries entries)
            (All-sort compare_entries (λ (x : Entry). P x.0) entries all)))
