-- ===== src/Verifier/Negative/Proofs.antt =====
-- packages/core/src/verifier/leaf_negative.ts: what an NXDOMAIN proof from NSEC records rests on.
use dnsdata_js.Base.{
  Bool, true, false, ◌||◌, none, some, List, [], ◌∙◌, ◌≡◌, refl, sym, ap, Bool-cases, Option-cases,
  inl, inr,
}
use dnsdata_js.Base.Text.{Text, text_eq}
use dnsdata_js.Dnssec.Canonical.{equal_canonical_names}
use mathlib.Core.Path.{subst}
use dnsdata_js.Dnssec.Canonical.{canonical_labels}
use dnsdata_js.Dnssec.Canonical.Laws.{compare_canonical_names-equal}
use dnsdata_js.Dnssec.Canonical.Labels.{equal_canonical_names-compare}
use dnsdata_js.Verifier.Names.Folded.{name_of}
use dnsdata_js.Verifier.Names.Encloser.{
  IsSuffix, IsEncloser, HasLabels, canonical_labels-suffix, closest_encloser_nsec-IsEncloser,
}
use dnsdata_js.Verifier.Names.{wildcard_at, is_strict_subdomain, closest_encloser_nsec}
use dnsdata_js.Dnssec.Nsec.{covers_name}
use dnsdata_js.Verifier.Negative.{
  Zone, NsecCandidate, Evidence, nsec_denies_wildcard, find_nsec, type_nsec, denies,
  wildcard_denied, prove_nx_domain_with_nsec,
}
use dnsdata_js.Base.Among.{Among}
use dnsdata_js.Verifier.Negative.Search.{find_nsec-some}

-- A candidate that verifies and covers the name.
pub record Denied (z : Zone) (name : Text) (c : NsecCandidate) : Type 0 where
  pub covered : covers_name c.nsec c.owner name ≡ true
  pub verified : z.verify_rrset c.owner type_nsec ≡ true
  pub candidate : Among c z.nsec_candidates

find_nsec-Denied :
    (z : Zone) (name : Text) (c : NsecCandidate)
    → find_nsec z (denies name) z.nsec_candidates ≡ some c
    → Denied z name c
find_nsec-Denied z name c e =
    let (p, (v, m)) = find_nsec-some z (denies name) z.nsec_candidates c e in
    record { covered = p; verified = v; candidate = m }

-- What an NXDOMAIN proof rests on: the labels of the closest encloser that the first record shows,
-- which are not all labels of the name, and two records.
pub record NxDomainProof (z : Zone) (qname : Text) (e : Evidence) : Type 0 where
  pub covering : NsecCandidate
  pub denial : NsecCandidate
  pub encloser : List Text
  pub encloser_is :
      IsEncloser
        (canonical_labels qname)
        (canonical_labels covering.owner)
        (canonical_labels covering.nsec.next_domain)
        encloser
  pub proper : ¬ (encloser ≡ canonical_labels qname)
  pub name_denied : Denied z qname covering
  pub wildcard_not_there : Denied z (wildcard_at (name_of encloser)) denial
  pub no_descendant : is_strict_subdomain covering.nsec.next_domain qname ≡ false
  pub says : e ≡ nsec_denies_wildcard covering.owner denial.owner (wildcard_at (name_of encloser))

or-false_both : (a b : Bool) → (a || b) ≡ false → (a ≡ false) × (b ≡ false)
or-false_both true b h = cc
or-false_both false b h = (refl, h)

not_whole :
    (qname : Text) (s : List Text)
    → HasLabels qname
    → IsSuffix s (canonical_labels qname)
    → equal_canonical_names (name_of s) qname ≡ false
    → ¬ (s ≡ canonical_labels qname)
not_whole qname s n h f e =
    let (to, from) = compare_canonical_names-equal (name_of s) qname in
    let (there, back) = equal_canonical_names-compare (name_of s) qname in
    let t : equal_canonical_names (name_of s) qname ≡ true =
      back (from (canonical_labels-suffix qname s n h ∙ e)) in
    absurd (cc)

-- The records of a proof, with the encloser found.
proof_of :
    (z : Zone) (qname ce : Text) (c w : NsecCandidate) (e : Evidence)
    → HasLabels qname
    → Denied z qname c
    → is_strict_subdomain c.nsec.next_domain qname ≡ false
    → (s : List Text) × IsEncloser
        (canonical_labels qname)
        (canonical_labels c.owner)
        (canonical_labels c.nsec.next_domain)
        s
      × (ce ≡ name_of s)
    → equal_canonical_names ce qname ≡ false
    → Denied z (wildcard_at ce) w
    → some (nsec_denies_wildcard c.owner w.owner (wildcard_at ce)) ≡ some e
    → NxDomainProof z qname e
proof_of z qname ce c w e n d f (s, is, named) g y r = record {
  covering = c;
  denial = w;
  encloser = s;
  encloser_is = is;
  proper =
      not_whole qname s n is.of_name
        (sym (ap (λ (x : Text). equal_canonical_names x qname) named) ∙ g);
  name_denied = d;
  wildcard_not_there = subst (λ (x : Text). Denied z (wildcard_at x) w) named y;
  no_descendant = f;
  says =
      sym (ap (λ o. elim o [ none ↦ e | some x ↦ x ]) r)
      ∙ ap (λ (x : Text). nsec_denies_wildcard c.owner w.owner (wildcard_at x)) named;
}

wildcard_denied-NxDomainProof :
    (z : Zone) (qname : Text) (c : NsecCandidate) (e : Evidence)
    → HasLabels qname
    → Denied z qname c
    → wildcard_denied z qname c ≡ some e
    → NxDomainProof z qname e
unfolding wildcard_denied
wildcard_denied-NxDomainProof z qname c e n d h =
    let ce = closest_encloser_nsec qname c.owner c.nsec.next_domain in
    elim (Bool-cases (is_strict_subdomain c.nsec.next_domain qname)) [
      | inl t ↦ let r = (rw (t, wildcard_denied) at h) in cc
      | inr f ↦ elim (Bool-cases (text_eq ce [] || equal_canonical_names ce qname)) [
        | inl t ↦ let r = (rw (f, t, wildcard_denied) at h) in cc
        | inr g ↦ elim (Option-cases (find_nsec z (denies (wildcard_at ce)) z.nsec_candidates)) [
          | inl m ↦ let r = (rw (f, g, m, wildcard_denied) at h) in cc
          | inr (w, s) ↦
              let (a, b) = or-false_both (text_eq ce []) (equal_canonical_names ce qname) g in
              proof_of z qname ce c w e n d f
                (closest_encloser_nsec-IsEncloser qname c.owner c.nsec.next_domain n a) b
                (find_nsec-Denied z (wildcard_at ce) w s) (rw (f, g, s, wildcard_denied) at h)
        ]
      ]
    ]

-- For a name without empty labels, an NXDOMAIN proof from NSEC records rests on a verified record
-- that covers the name, whose next name is not below the name. Of the lists of labels in which the
-- name ends, and with it the owner or the next name of that record, the longest is the closest
-- encloser; it is not the whole name, and a verified record covers the wildcard below it. The proof
-- names the owners of the two records and the wildcard.
pub prove_nx_domain_with_nsec-NxDomainProof :
    (z : Zone) (qname : Text) (e : Evidence)
    → HasLabels qname
    → prove_nx_domain_with_nsec z qname ≡ some e
    → NxDomainProof z qname e
unfolding prove_nx_domain_with_nsec
prove_nx_domain_with_nsec-NxDomainProof z qname e n h =
    elim (Option-cases (find_nsec z (denies qname) z.nsec_candidates)) [
      | inl m ↦ let r = (rw (m, prove_nx_domain_with_nsec) at h) in cc
      | inr (c, s) ↦
          wildcard_denied-NxDomainProof z qname c e n (find_nsec-Denied z qname c s)
            (rw (s, prove_nx_domain_with_nsec) at h)
    ]
