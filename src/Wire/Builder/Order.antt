-- ===== src/Wire/Builder/Order.antt =====
-- packages/core/src/wire/dns_wire_util.ts: what `compare_uint8arrays` decides.
use dnsdata_js.Base.{[], ◌∷◌, ◌≡◌, refl, arith, ◌↔◌, sym}
use dnsdata_js.Base.Slices.{Bytes}
use dnsdata_js.Base.Order.{
  less, equal, opposite, sign_of_sub, lexicographic, lexicographic-equal, lexicographic-Comparison,
  sign_of_sub-Comparison, sign_of_sub-equal, equal_refl, Comparison,
}
use dnsdata_js.Wire.Builder.{compare_uint8arrays}

-- `compare_uint8arrays` is the lexicographic order of octets.
pub compare_uint8arrays-lexicographic :
    (a b : Bytes) → compare_uint8arrays a b ≡ lexicographic sign_of_sub a b
unfolding compare_uint8arrays lexicographic sign_of_sub
compare_uint8arrays-lexicographic [] [] = refl
compare_uint8arrays-lexicographic [] (y ∷ b) = ground arith
compare_uint8arrays-lexicographic (x ∷ a) [] = ground arith
compare_uint8arrays-lexicographic (x ∷ a) (y ∷ b) =
    ground (arith, compare_uint8arrays-lexicographic a b)

pub octets-Comparison : Comparison (lexicographic sign_of_sub)
octets-Comparison = lexicographic-Comparison sign_of_sub sign_of_sub-Comparison

-- `compare_uint8arrays` is a total order: swapping the arguments swaps the sign, it is transitive,
-- and it is 0 only for equal arrays.
pub compare_uint8arrays-order :
    (a b d : Bytes)
    → (compare_uint8arrays b a ≡ opposite (compare_uint8arrays a b))
      × ((compare_uint8arrays a b ≡ less
            → compare_uint8arrays b d ≡ less
            → compare_uint8arrays a d ≡ less)
          × ((compare_uint8arrays a b ≡ equal) ↔ (a ≡ b)))
compare_uint8arrays-order a b d =
    let law : Comparison (lexicographic sign_of_sub) = octets-Comparison in
    rw
      (
        compare_uint8arrays-lexicographic b a,
        compare_uint8arrays-lexicographic a b,
        compare_uint8arrays-lexicographic b d,
        compare_uint8arrays-lexicographic a d,
      )
      (
        law.flip a b,
        (
          law.less_trans a b d,
          (
            lexicographic-equal sign_of_sub sign_of_sub-equal a b,
            λ e. rw (sym e) (equal_refl (lexicographic sign_of_sub) law a),
          ),
        ),
      )
