-- ===== src/Dnssec/Signer/Apex.antt =====
-- packages/core/src/dnssec/signer/nsec.ts: the owners of the NSEC chain start at the apex and stand
-- in canonical order.
use dnsdata_js.Base.{
  Bool, true, false, not, some, List, [], ◌∷◌, All, ◌≡◌, refl, sym, ap, ◌∙◌, inl, inr, Bool-cases,
}
use mathlib.Core.Path.{subst}
use dnsdata_js.Base.Maps.{get}
use dnsdata_js.Base.Text.{Text, to_lower, ends_with_dot}
use dnsdata_js.Base.Slices.{Bytes}
use dnsdata_js.Base.Order.{Sign, less, equal, greater, opposite, Comparison}
use dnsdata_js.Base.Among.{Among, here, there, All-Among, All-map_Among}
use dnsdata_js.Base.Sorting.{Ascending, NotAfter}
use dnsdata_js.Base.Result.{Result, ok, >>=-eq-ok, rethrow_as, rethrow_as-eq-ok, signer_error}
use dnsdata_js.Dnssec.Canonical.{compare_canonical_names}
use dnsdata_js.Dnssec.Canonical.Laws.{compare_canonical_names-Comparison}
use dnsdata_js.Dnssec.Denial.Chain.{Sorted}
use dnsdata_js.Dnssec.SignerNames.{is_at_or_below}
use dnsdata_js.Dnssec.Signer.{ResourceRecord, includes, is_generated_type}
use dnsdata_js.Dnssec.Signer.Zone.{
  records_canonical, records_canonical-Weakly, records_canonical-All,
}
use dnsdata_js.Dnssec.Signer.View.{
  ZoneView, view_of, view_from, no_view, filter, is_occluded, types_at,
}
use dnsdata_js.Dnssec.Signer.Owners.{IsView, view_from-IsView}
use dnsdata_js.Dnssec.Signer.Complete.{Seen, view_from-Seen, view_from-owners}
use dnsdata_js.Dnssec.Signer.Order.{is_at_or_below-NotAfter, is_occluded-apex, to_lower-compare}
use dnsdata_js.Dnssec.Signer.Chain.{chain_owners}

-- A zone that can be signed at the apex: its names have the final dot, the apex is spelled in one
-- way, and owns a record that signing keeps.
pub record IsSignable (z : List ResourceRecord) (apex : Text) : Type 0 where
  pub fqdn : All (λ (r : ResourceRecord). ends_with_dot r.label ≡ true) z
  pub spelled :
      All (λ (r : ResourceRecord). compare_canonical_names r.label apex ≡ equal → r.label ≡ apex) z
  pub soa : ResourceRecord
  pub soa_in : Among soa z
  pub soa_at : soa.label ≡ apex
  pub soa_kept : is_generated_type soa.type ≡ false

pub All-filter {ℓ κ} :
    {A : Type ℓ} (P : A → Type κ) (keep : A → Bool) (xs : List A)
    → All P xs
    → All P (filter keep xs)
unfolding filter
All-filter P keep [] h = tt
All-filter P keep (x ∷ xs) (p, h) = elim (Bool-cases (keep x)) [
  | inl t ↦ rw t (p, All-filter P keep xs h)
  | inr f ↦ rw f (All-filter P keep xs h)
]

filter-Ascending {ℓ} :
    {A : Type ℓ} (c : A → A → Sign) (keep : A → Bool) (xs : List A)
    → Ascending c xs
    → Ascending c (filter keep xs)
unfolding filter
filter-Ascending c keep [] a = tt
filter-Ascending c keep (x ∷ xs) (p, a) = elim (Bool-cases (keep x)) [
  | inl t ↦ rw t (All-filter _ keep xs p, filter-Ascending c keep xs a)
  | inr f ↦ rw f (filter-Ascending c keep xs a)
]

pub Among-filter {ℓ} :
    {A : Type ℓ} (keep : A → Bool) (x : A) (xs : List A)
    → Among x xs
    → keep x ≡ true
    → Among x (filter keep xs)
unfolding filter
Among-filter keep x [] m k = elim m [ ]
Among-filter keep x (_ ∷ xs) here k = rw k here
Among-filter keep x (y ∷ xs) (there m) k = elim (Bool-cases (keep y)) [
  | inl t ↦ rw t (there (Among-filter keep x xs m k))
  | inr f ↦ rw f (Among-filter keep x xs m k)
]

Ascending-Sorted :
    (x : Text) (xs : List Text)
    → Ascending compare_canonical_names (x ∷ xs)
    → Sorted compare_canonical_names x xs
Ascending-Sorted x [] a = tt
Ascending-Sorted x (y ∷ xs) ((l, _), a) = (l, Ascending-Sorted y xs a)

-- An owner of the view for a record of the zone: the same name, with the record's type among its
-- types.
pub record Owned (v : ZoneView) (r : ResourceRecord) : Type 0 where
  pub owner : Text
  pub owner_in : Among owner v.owners
  pub same : compare_canonical_names owner r.label ≡ equal
  pub typed : includes (types_at v owner) r.type ≡ true

-- The element that none stands before is the first one.
first_of :
    (apex : Text) (xs : List Text)
    → Ascending compare_canonical_names xs
    → Among apex xs
    → All (λ (o : Text). NotAfter (compare_canonical_names apex o)) xs
    → (rest : List Text) × (xs ≡ apex ∷ rest) × Sorted compare_canonical_names apex rest
first_of apex [] a m h = elim m [ ]
first_of apex (_ ∷ xs) a here h = (xs, refl, Ascending-Sorted apex xs a)
first_of apex (x ∷ xs) (p, a) (there m) (n, h) =
    let l : compare_canonical_names x apex ≡ less =
      All-Among (λ (y : Text). compare_canonical_names x y ≡ less) apex xs m p in
    let law : Comparison compare_canonical_names = compare_canonical_names-Comparison in
    let g : compare_canonical_names apex x ≡ greater = law.flip x apex ∙ ap opposite l in
    absurd (rw g at n)

module _ (canonical_rdata : ResourceRecord → Result Bytes) (z : List ResourceRecord) (apex : Text)
    (v : ZoneView) (e : view_of canonical_rdata z apex ≡ ok v) (sig : IsSignable z apex) where
  -- The records in canonical order that `ZoneView.of` runs through.
  pub ordered :
      (rrs : List ResourceRecord) × (records_canonical canonical_rdata z ≡ ok rrs)
      × (view_from apex rrs no_view ≡ ok v)
  unfolding view_of
  ordered =
      let (rrs, h, k) =
        >>=-eq-ok (rethrow_as signer_error (records_canonical canonical_rdata z)) _ e in
      (rrs, rethrow_as-eq-ok signer_error (records_canonical canonical_rdata z) h, k)

  abbrev rrs : List ResourceRecord
  rrs = ordered.0

  rrs-fqdn : All (λ (r : ResourceRecord). ends_with_dot r.label ≡ true) rrs
  rrs-fqdn = records_canonical-All canonical_rdata _ z rrs sig.fqdn ordered.1

  rrs-IsView : IsView v []
  rrs-IsView =
      view_from-IsView apex rrs no_view v
        (records_canonical-Weakly canonical_rdata z rrs ordered.1).0 rrs-fqdn
        record { ascending = tt; before = tt; keyed = tt; fqdn = tt } ordered.2

  rrs-seen : Seen apex rrs no_view v
  unfolding get
  rrs-seen =
      view_from-Seen apex rrs no_view v
        record { owners_of = λ key ts k. absurd (cc); below_apex = tt } ordered.2

  -- Every owner is at or below the apex, and spelled like it if it is the same name.
  owners-placed :
      All
        (λ (o : Text).
          NotAfter (compare_canonical_names apex o)
          × (compare_canonical_names o apex ≡ equal → o ≡ apex))
        v.owners
  owners-placed =
      view_from-owners apex _ rrs no_view v
        (records_canonical-All canonical_rdata
          (λ (r : ResourceRecord).
            is_at_or_below r.label apex ≡ true
            → NotAfter (compare_canonical_names apex r.label)
              × (compare_canonical_names r.label apex ≡ equal → r.label ≡ apex))
          z rrs
          (All-map_Among _ z (λ r m b. (
            is_at_or_below-NotAfter r.label apex b,
            All-Among
                (λ (q : ResourceRecord).
                  compare_canonical_names q.label apex ≡ equal → q.label ≡ apex)
                r z m sig.spelled,
          )))
          ordered.1)
        tt ordered.2

  pub owners-fqdn : All (λ (o : Text). ends_with_dot o ≡ true) v.owners
  owners-fqdn = rrs-IsView.fqdn

  -- Every record that signing keeps has its owner in the view.
  pub owner_of : (r : ResourceRecord) → Among r z → is_generated_type r.type ≡ false → Owned v r
  unfolding types_at
  owner_of r m g =
      let (s, n, (l, t)) = (records_canonical-Weakly canonical_rdata z rrs ordered.1).1 r m in
      let ((ts, f, h), b) = rrs-seen.all s n (ap is_generated_type t ∙ g) in
      let (o, k, w) = rrs-seen.view.owners_of (to_lower s.label) ts f in
      let dot_s =
        All-Among (λ (q : ResourceRecord). ends_with_dot q.label ≡ true) s rrs n rrs-fqdn in
      let dot_o = All-Among (λ (x : Text). ends_with_dot x ≡ true) o v.owners k rrs-IsView.fqdn in
      let law : Comparison compare_canonical_names = compare_canonical_names-Comparison in
      let at : get (to_lower o) v.types ≡ some ts = ap (λ (x : Text). get x v.types) w ∙ f in
      record {
        owner = o;
        owner_in = k;
        same = law.equal_left o s.label r.label (to_lower-compare o s.label dot_o dot_s w) ∙ l;
        typed = rw (at, types_at) (ap (includes ts) (sym t) ∙ h);
      }

  -- The owners of the chain: the apex first, then the others in canonical order.
  pub chain_owners-Sorted :
      (rest : List Text) × (chain_owners v ≡ apex ∷ rest) × Sorted compare_canonical_names apex rest
  unfolding chain_owners
  chain_owners-Sorted =
      let o = owner_of sig.soa sig.soa_in sig.soa_kept in
      let at : compare_canonical_names o.owner apex ≡ equal =
        ap (compare_canonical_names o.owner) (sym sig.soa_at) ∙ o.same in
      let (below, spelled) = All-Among _ o.owner v.owners o.owner_in owners-placed in
      let apex_in : Among apex v.owners =
        subst (λ (x : Text). Among x v.owners) (spelled at) o.owner_in in
      let free : is_occluded v apex ≡ false = is_occluded-apex v apex rrs-seen.view.below_apex in
      first_of apex _ (filter-Ascending compare_canonical_names _ v.owners rrs-IsView.ascending)
        (Among-filter _ apex v.owners apex_in (ap not free))
        (All-filter _ _ v.owners
          (All-map_Among _ v.owners (λ x m. (All-Among _ x v.owners m owners-placed).0)))
