-- ===== src/Dnssec/Canonical/Entries.antt =====
-- packages/core/src/zone/canonical.ts: `compare_canonical_entries` is a total order.
use dnsdata_js.Base.{◌≡◌, refl, sym, ◌⊎◌, inl, inr}
use dnsdata_js.Base.Slices.{Bytes}
use dnsdata_js.Base.Order.{
  Sign, less, equal, greater, opposite, or_else, Comparison, Comparison-on, equal_right,
  sign_of_sub, sign_of_sub-Comparison, lexicographic,
}
use dnsdata_js.Wire.Builder.{compare_uint8arrays}
use dnsdata_js.Wire.Builder.Order.{compare_uint8arrays-lexicographic, octets-Comparison}
use dnsdata_js.Dnssec.Canonical.{compare_canonical_names, CanonicalEntry, compare_canonical_entries}
use dnsdata_js.Dnssec.Canonical.Laws.{compare_canonical_names-Comparison}

opposite-or_else : (s t : Sign) → or_else (opposite s) (opposite t) ≡ opposite (or_else s t)
opposite-or_else less t = refl
opposite-or_else equal t = refl
opposite-or_else greater t = refl

pub or_else-both : (s t : Sign) → or_else s t ≡ equal → (s ≡ equal) × (t ≡ equal)
or_else-both equal t h = (refl, h)
or_else-both less t h = cc
or_else-both greater t h = cc

pub or_else-first : (s t : Sign) → or_else s t ≡ less → (s ≡ less) ⊎ ((s ≡ equal) × (t ≡ less))
or_else-first equal t h = inr (refl, h)
or_else-first less t h = inl refl
or_else-first greater t h = cc

module _ {ℓ} {A : Type ℓ} (c d : A → A → Sign) (law : Comparison c) (law' : Comparison d) where
  less_by_both :
      (x y z : A)
      → (c x y ≡ less) ⊎ ((c x y ≡ equal) × (d x y ≡ less))
      → (c y z ≡ less) ⊎ ((c y z ≡ equal) × (d y z ≡ less))
      → or_else (c x z) (d x z) ≡ less
  less_by_both x y z (inl l) (inl m) = rw (law.less_trans x y z l m) refl
  less_by_both x y z (inl l) (inr (e, m)) = rw (sym (equal_right c law x y z e), l) refl
  less_by_both x y z (inr (e, l)) (inl m) = rw (law.equal_left x y z e, m) refl
  less_by_both x y z (inr (e, l)) (inr (f, m)) =
      rw (law.equal_left x y z e, f) (law'.less_trans x y z l m)

  -- The second order decides where the first one does not.
  or_else-Comparison : Comparison (λ (x y : A). or_else (c x y) (d x y))
  or_else-Comparison = record {
    flip = λ x y. rw (law.flip x y, law'.flip x y) (opposite-or_else (c x y) (d x y));
    equal_left = λ x y z h.
        let (e, f) = or_else-both (c x y) (d x y) h in
        rw (law.equal_left x y z e, law'.equal_left x y z f) refl;
    less_trans = λ x y z h k.
        less_by_both x y z (or_else-first (c x y) (d x y) h) (or_else-first (c y z) (d y z) k);
  }

pub rdata-Comparison : Comparison (λ (a b : Bytes). compare_uint8arrays a b)
rdata-Comparison =
    let law : Comparison (lexicographic sign_of_sub) = octets-Comparison in
    record {
      flip = λ a b.
          rw (compare_uint8arrays-lexicographic a b, compare_uint8arrays-lexicographic b a)
            (law.flip a b);
      equal_left = λ a b d.
          rw
            (
              compare_uint8arrays-lexicographic a b,
              compare_uint8arrays-lexicographic a d,
              compare_uint8arrays-lexicographic b d,
            )
            (law.equal_left a b d);
      less_trans = λ a b d.
          rw
            (
              compare_uint8arrays-lexicographic a b,
              compare_uint8arrays-lexicographic a d,
              compare_uint8arrays-lexicographic b d,
            )
            (law.less_trans a b d);
    }

-- `compare_canonical_entries` is a total order up to the entries it calls equal.
pub compare_canonical_entries-Comparison : Comparison compare_canonical_entries
unfolding compare_canonical_entries
compare_canonical_entries-Comparison =
    or_else-Comparison (λ (a b : CanonicalEntry). compare_canonical_names a.label b.label)
      (λ (a b : CanonicalEntry).
        or_else (sign_of_sub a.type b.type)
          (or_else (sign_of_sub a.rrclass b.rrclass) (compare_uint8arrays a.rdata b.rdata)))
      (Comparison-on (λ (e : CanonicalEntry). e.label) compare_canonical_names
        compare_canonical_names-Comparison)
      (or_else-Comparison (λ (a b : CanonicalEntry). sign_of_sub a.type b.type)
        (λ (a b : CanonicalEntry).
          or_else (sign_of_sub a.rrclass b.rrclass) (compare_uint8arrays a.rdata b.rdata))
        (Comparison-on (λ (e : CanonicalEntry). e.type) sign_of_sub sign_of_sub-Comparison)
        (or_else-Comparison (λ (a b : CanonicalEntry). sign_of_sub a.rrclass b.rrclass)
          (λ (a b : CanonicalEntry). compare_uint8arrays a.rdata b.rdata)
          (Comparison-on (λ (e : CanonicalEntry). e.rrclass) sign_of_sub sign_of_sub-Comparison)
          (Comparison-on (λ (e : CanonicalEntry). e.rdata) compare_uint8arrays rdata-Comparison)))
