-- ===== src/Dnssec/Canonical/Laws.antt =====
-- packages/core/src/zone/canonical.ts: the comparisons are total orders.
use dnsdata_js.Base.{
  ℕ, ◌+◌, List, [], ◌∷◌, length, ◌≡◌, refl, sym, ap, ◌∙◌, arith, ◌↔◌, length-append,
}
use mathlib.Core.List.{reverse, reverse-cons, reverse-reverse}
use dnsdata_js.Base.Text.{Text}
use dnsdata_js.Base.Order.{
  equal, sign_of_sub, or_else, lexicographic, lexicographic-equal, lexicographic-Comparison,
  sign_of_sub-Comparison, sign_of_sub-equal, equal_refl, Comparison, Comparison-on,
}
use dnsdata_js.Dnssec.Canonical.{
  canonical_labels, compare_text, compare_from_end, compare_canonical_names,
}

pub compare_text-Comparison : Comparison compare_text
unfolding compare_text
compare_text-Comparison = lexicographic-Comparison sign_of_sub sign_of_sub-Comparison

-- The loop is the lexicographic order of what is left of the label lists.
compare_from_end-lexicographic :
    (n m k : ℕ) (ra rb : List Text)
    → n ≡ k + length ra
    → m ≡ k + length rb
    → compare_from_end n m ra rb ≡ lexicographic compare_text ra rb
unfolding compare_from_end lexicographic sign_of_sub
compare_from_end-lexicographic n m k [] [] h j = ground arith
compare_from_end-lexicographic n m k [] (y ∷ rb) h j = ground arith
compare_from_end-lexicographic n m k (x ∷ ra) [] h j = ground arith
compare_from_end-lexicographic n m k (x ∷ ra) (y ∷ rb) h j =
    ap (or_else (compare_text x y))
      (compare_from_end-lexicographic n m (k + 1) ra rb (omega arith) (omega arith))

length-reverse {ℓ} : {A : Type ℓ} (xs : List A) → length (reverse xs) ≡ length xs
length-reverse [] = refl
length-reverse (x ∷ xs) =
    rw (reverse-cons x xs) (omega (arith, length-append (reverse xs) (x ∷ []), length-reverse xs))

-- `compare_canonical_names` is the lexicographic order of the labels from the last to the first.
pub compare_canonical_names-lexicographic :
    (a b : Text)
    → compare_canonical_names a b
      ≡ lexicographic compare_text (reverse (canonical_labels a)) (reverse (canonical_labels b))
unfolding compare_canonical_names
compare_canonical_names-lexicographic a b =
    compare_from_end-lexicographic (length (canonical_labels a)) (length (canonical_labels b)) 0
      (reverse (canonical_labels a)) (reverse (canonical_labels b))
      (omega (arith, length-reverse (canonical_labels a)))
      (omega (arith, length-reverse (canonical_labels b)))

labels-Comparison : Comparison (lexicographic compare_text)
labels-Comparison = lexicographic-Comparison compare_text compare_text-Comparison

-- `compare_canonical_names` is a total order up to the names that it calls equal: swapping the
-- arguments swaps the sign, equal names compare alike with every name, and it is transitive.
pub compare_canonical_names-Comparison : Comparison compare_canonical_names
compare_canonical_names-Comparison =
    let law : Comparison (λ (a b : Text).
      lexicographic compare_text (reverse (canonical_labels a)) (reverse (canonical_labels b))) =
      Comparison-on (λ (a : Text). reverse (canonical_labels a)) (lexicographic compare_text)
        labels-Comparison in
    record {
      flip = λ a b.
          rw (compare_canonical_names-lexicographic b a, compare_canonical_names-lexicographic a b)
            (law.flip a b);
      equal_left = λ a b d h.
          let k = (rw (compare_canonical_names-lexicographic a b) at h) in
          rw (compare_canonical_names-lexicographic a d, compare_canonical_names-lexicographic b d)
            (law.equal_left a b d k);
      less_trans = λ a b d h k.
          let i = (rw (compare_canonical_names-lexicographic a b) at h) in
          let j = (rw (compare_canonical_names-lexicographic b d) at k) in
          rw (compare_canonical_names-lexicographic a d) (law.less_trans a b d i j);
    }

compare_text-equal : (x y : Text) → compare_text x y ≡ equal → x ≡ y
unfolding compare_text
compare_text-equal = lexicographic-equal sign_of_sub sign_of_sub-equal

pub compare_canonical_names-equal :
    (a b : Text) → (compare_canonical_names a b ≡ equal) ↔ (canonical_labels a ≡ canonical_labels b)
compare_canonical_names-equal a b = rw (compare_canonical_names-lexicographic a b) (
  (λ h.
      let e =
        lexicographic-equal compare_text compare_text-equal (reverse (canonical_labels a))
          (reverse (canonical_labels b)) h in
      sym (reverse-reverse (canonical_labels a))
      ∙ ap reverse e
      ∙ reverse-reverse (canonical_labels b)),
  λ e. rw e (equal_refl (lexicographic compare_text) labels-Comparison _),
)
