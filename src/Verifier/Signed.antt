-- ===== src/Verifier/Signed.antt =====
-- packages/core/src/dnssec/signer/nsec.ts and verifier/leaf_negative.ts: the signer and the verifier
-- together. The chain that `build_nsec` makes is the chain that the proofs of absence rest on.
use dnsdata_js.Base.{
  ℕ, ◌≤◌, Bool, true, false, ◌&&◌, ◌||◌, not, if◌then◌else◌, ◌==◌, none, some, List, [], ◌∷◌, ◌++◌,
  map, All, ◌≡◌, refl, sym, ap, ◌∙◌, inl, inr, ◌⊎◌, ==_iff, Bool-cases, arith, ◌↔◌,
}
use mathlib.Core.Path.{subst}
use dnsdata_js.Base.Text.{Text, to_lower, ends_with_dot}
use dnsdata_js.Base.Slices.{Bytes}
use dnsdata_js.Base.Maps.{get}
use dnsdata_js.Base.Order.{Sign, less, equal, opposite, Comparison}
use dnsdata_js.Base.Among.{Among, here, there, All-Among, All-map_Among}
use dnsdata_js.Base.Sorting.{sort}
use dnsdata_js.Base.Spaces.Words.{is_word}
use dnsdata_js.Base.Result.{Result, ok, ◌>>=◌, rethrow_as, signer_error}
use dnsdata_js.Dnssec.Canonical.{compare_canonical_names, canonical_labels}
use dnsdata_js.Dnssec.Canonical.Laws.{
  compare_canonical_names-equal, compare_canonical_names-Comparison,
}
use dnsdata_js.Dnssec.Canonical.Labels.{equal_canonical_names-compare}
use dnsdata_js.Dnssec.Denial.Chain.{links}
use dnsdata_js.Dnssec.Nsec.{Nsec, matches_name, covers_type, type_cname}
use dnsdata_js.Dnssec.Nsec.RoundTrip.{nsec_of}
use dnsdata_js.Dnssec.Nsec.Laws.{owner_and_next}
use dnsdata_js.Dnssec.Signer.{
  ResourceRecord, includes, is_generated_type, type_ns, type_ds, type_rrsig, type_nsec,
}
use dnsdata_js.Dnssec.Signer.Owners.{compare-equal-to_lower}
use dnsdata_js.Dnssec.Signer.Zone.{records_canonical, records_canonical-All}
use dnsdata_js.Dnssec.Signer.View.{
  ZoneView, view_of, view_from, no_view, is_occluded, is_cut, sorted_types, bitmap_types,
  chain_types, filter, types_at,
}
use dnsdata_js.Dnssec.Signer.Chain.{build_nsec, nsec_chain, chain_ttl, chain_owners}
use dnsdata_js.Dnssec.Signer.Apex.{
  owners-fqdn, All-filter, IsSignable, Owned, owner_of, chain_owners-Sorted, ordered, Among-filter,
}
use dnsdata_js.Dnssec.Signer.Order.{is_occluded-labels}
use dnsdata_js.Dnssec.Signer.Types.{
  includes-sort, includes-filter, includes-sorted_types, includes-append, HasTypes,
  view_from-HasTypes,
}
use dnsdata_js.Dnssec.SignerNames.{is_at_or_below}
use dnsdata_js.Dnssec.Signer.Complete.{view_from-owners}
use dnsdata_js.Dnssec.Signer.Links.{
  view_from-ok, handlers_of, handlers_of-nsec_chain, chained, chained-links, Among-chained,
  chained-Among,
}
use dnsdata_js.Verifier.Negative.{Zone, prove_nx_domain_with_nsec, prove_no_data_with_nsec}
use dnsdata_js.Verifier.Negative.Safety.{
  IsChain, AreSigned, prove_nx_domain_with_nsec-owner, prove_no_data_with_nsec-present,
}
pub mod Absence

-- Names without white space and 16-bit types.
pub record IsPlain (z : List ResourceRecord) : Type 0 where
  pub words : All (λ (r : ResourceRecord). is_word r.label ≡ true) z
  pub types : All (λ (r : ResourceRecord). r.type ≤ 0xffff) z

Among-filtered {ℓ} :
    {A : Type ℓ} (keep : A → Bool) (x : A) (xs : List A) → Among x (filter keep xs) → Among x xs
unfolding filter
Among-filtered keep x [] m = m
Among-filtered keep x (y ∷ xs) m = elim (Bool-cases (keep y)) [
  | inl t ↦ here_or_there keep x y xs (Among-filtered keep x xs) (rw t at m)
  | inr f ↦ there (Among-filtered keep x xs (rw f at m))
]
  where
    here_or_there :
        {A : Type ℓ} (keep : A → Bool) (x y : A) (xs : List A)
        → (Among x (filter keep xs) → Among x xs)
        → Among x (y ∷ filter keep xs)
        → Among x (y ∷ xs)
    here_or_there keep x _ xs h here = here
    here_or_there keep x y xs h (there m) = there (h m)

types_same :
    (v : ZoneView) (o p : Text)
    → to_lower o ≡ to_lower p
    → (t : ℕ) → includes (types_at v p) t ≡ true
    → includes (types_at v o) t ≡ true
unfolding types_at
types_same v o p e t h =
    ap (λ (x : Text). includes (elim (get x v.types) [ none ↦ [] | some at ↦ at ]) t) e ∙ h

covers_type-Among : (t : ℕ) (covered : List ℕ) → covers_type covered t ≡ true → Among t covered
unfolding covers_type
covers_type-Among t [] h = cc
covers_type-Among t (x ∷ xs) h = elim (Bool-cases (x == t)) [
  | inl q ↦ subst (λ (y : ℕ). Among t (y ∷ xs)) (sym ((==_iff x t).0 q)) here
  | inr f ↦ there (covers_type-Among t xs (rw f at h))
]

module _ (canonical_rdata : ResourceRecord → Result Bytes) (z : List ResourceRecord) (apex : Text)
    (v : ZoneView) (e : view_of canonical_rdata z apex ≡ ok v) (sig : IsSignable z apex)
    (plain : IsPlain z) where
  types-bound : HasTypes v.types
  types-bound =
      let (rrs, h, k) = ordered canonical_rdata z apex v e sig in
      view_from-HasTypes apex rrs no_view v
        (records_canonical-All canonical_rdata _ z rrs plain.types h) tt k

  owners-words : All (λ (o : Text). is_word o ≡ true) (chain_owners v)
  unfolding chain_owners
  owners-words =
      let (rrs, h, k) = ordered canonical_rdata z apex v e sig in
      All-filter _ _ v.owners (
        view_from-owners apex (λ (o : Text). is_word o ≡ true) rrs no_view v
          (records_canonical-All canonical_rdata
            (λ (r : ResourceRecord). is_at_or_below r.label apex ≡ true → is_word r.label ≡ true) z
            rrs (All-map_Among _ z (λ r m b. All-Among _ r z m plain.words)) h)
          tt k)

  apex-word : is_word apex ≡ true
  apex-word =
      subst (λ (x : Text). is_word x ≡ true) sig.soa_at
        (All-Among (λ (r : ResourceRecord). is_word r.label ≡ true) sig.soa z sig.soa_in
          plain.words)

  pub build_nsec-chained :
      (ttl : ℕ)
      → (out : List ResourceRecord) × (build_nsec canonical_rdata z apex ttl ≡ ok out)
        × (handlers_of out ≡ ok (chained v apex (chain_owners v)))
  unfolding build_nsec
  build_nsec-chained ttl = (
    nsec_chain v (chain_ttl z apex ttl) apex (chain_owners v),
    rw e refl,
    handlers_of-nsec_chain v (chain_ttl z apex ttl) apex (chain_owners v) types-bound apex-word
        owners-words,
  )

  pub chained-IsChain : IsChain (chained v apex (chain_owners v))
  chained-IsChain =
      let (rest, q, s) = chain_owners-Sorted canonical_rdata z apex v e sig in
      record {
        first = apex;
        rest = rest;
        sorted = s;
        linked =
            ap (λ (x : List Text). owner_and_next (chained v apex x)) q
            ∙ chained-links v apex apex rest;
      }

  module _ (r : ResourceRecord) (m : Among r z) (kept : is_generated_type r.type ≡ false)
      (open_ : is_occluded v r.label ≡ false) where
    mine : Owned v r
    mine = owner_of canonical_rdata z apex v e sig r m kept

    mine-labels : canonical_labels mine.owner ≡ canonical_labels r.label
    mine-labels = let (to, from) = compare_canonical_names-equal mine.owner r.label in to mine.same

    mine-in : Among mine.owner (chain_owners v)
    unfolding chain_owners
    mine-in =
        let (o, c) = is_occluded-labels v mine.owner r.label mine-labels in
        Among-filter _ mine.owner v.owners mine.owner_in (ap not (o ∙ open_))

    mine-matches : matches_name mine.owner r.label ≡ true
    unfolding matches_name
    mine-matches =
        let (to, from) = equal_canonical_names-compare mine.owner r.label in from mine.same

    pub chained-nx_domain :
        (zone : Zone)
        → AreSigned zone (chained v apex (chain_owners v))
        → prove_nx_domain_with_nsec zone r.label ≡ none
    chained-nx_domain zone signed =
        let (next, k) = Among-chained v apex mine.owner (chain_owners v) mine-in in
        prove_nx_domain_with_nsec-owner zone r.label mine.owner _ (chained v apex (chain_owners v))
          chained-IsChain signed k mine-matches

    -- What the chain lists for every owner that is the same name.
    listed :
        (not (is_cut v r.label) || (r.type == type_ns) || (r.type == type_ds)) ≡ true
        → (o : Text) (n : Nsec) → Among (o, n) (chained v apex (chain_owners v))
        → matches_name o r.label ≡ true
        → Among r.type n.covered_types ⊎ Among type_cname n.covered_types
    unfolding matches_name chain_owners chain_types types_at covers_type includes
    listed shown o n k h =
        let (to, from) = equal_canonical_names-compare o r.label in
        let law : Comparison compare_canonical_names = compare_canonical_names-Comparison in
        let (j, t) = chained-Among v apex o n (chain_owners v) k in
        let o_in : Among o v.owners = Among-filtered _ o v.owners j in
        let dots = owners-fqdn canonical_rdata z apex v e sig in
        let flip : compare_canonical_names r.label mine.owner ≡ equal =
          law.flip mine.owner r.label ∙ ap opposite mine.same in
        let same : to_lower o ≡ to_lower mine.owner =
          compare-equal-to_lower o mine.owner
            (All-Among (λ (x : Text). ends_with_dot x ≡ true) o v.owners o_in dots)
            (All-Among (λ (x : Text). ends_with_dot x ≡ true) mine.owner v.owners mine.owner_in
              dots)
            (law.equal_left o r.label mine.owner (to h) ∙ flip) in
        let (labels, back) = compare_canonical_names-equal o r.label in
        let (_, cut) = is_occluded-labels v o r.label (labels (to h)) in
        let typed : includes (types_at v o) r.type ≡ true =
          types_same v o mine.owner same r.type mine.typed in
        let kept_type : includes (chain_types v o) r.type ≡ true =
          includes-filter _ (types_at v o) r.type typed
            (ap (λ (b : Bool). not b || (r.type == type_ns) || (r.type == type_ds)) cut ∙ shown) in
        inl (
          covers_type-Among r.type n.covered_types (
            ap (λ (x : List ℕ). includes x r.type) t
            ∙ includes-sort _ r.type (
                includes-sorted_types (bitmap_types v o) r.type (
                  includes-append (chain_types v o) (type_rrsig ∷ type_nsec ∷ []) r.type
                  ∙ ap (λ (b : Bool). b || includes (type_rrsig ∷ type_nsec ∷ []) r.type)
                      kept_type))))

    pub chained-no_data :
        (zone : Zone)
        → AreSigned zone (chained v apex (chain_owners v))
        → (not (is_cut v r.label) || (r.type == type_ns) || (r.type == type_ds)) ≡ true
        → prove_no_data_with_nsec zone r.label r.type ≡ none
    chained-no_data zone signed shown =
        let (next, k) = Among-chained v apex mine.owner (chain_owners v) mine-in in
        prove_no_data_with_nsec-present zone r.label mine.owner r.type _
          (chained v apex (chain_owners v)) chained-IsChain signed k mine-matches (listed shown)
