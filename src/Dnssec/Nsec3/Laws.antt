-- ===== src/Dnssec/Nsec3/Laws.antt =====
-- packages/core/src/dnssec/nsec3.ts: the order of hashes, the records of a zone, and the octets
-- written.
use dnsdata_js.Base.{ℕ, ◌+◌, List, [], ◌∷◌, ◌≡◌, refl, ap, ◌∙◌, arith}
use dnsdata_js.Base.Slices.{Bytes}
use dnsdata_js.Base.Order.{
  sign_of_sub, lexicographic, Comparison, lexicographic-Comparison, sign_of_sub-Comparison,
}
use dnsdata_js.Dnssec.Denial.{is_equal}
use dnsdata_js.Dnssec.Denial.Count.{one_if}
use dnsdata_js.Dnssec.Denial.Chain.{links, denials, Sorted, denials-links}
use dnsdata_js.Dnssec.Nsec3.{Nsec3, bytes_compare, covers_hash}

pub bytes_compare-lexicographic : (a b : Bytes) → bytes_compare a b ≡ lexicographic sign_of_sub a b
unfolding bytes_compare lexicographic sign_of_sub
bytes_compare-lexicographic [] [] = refl
bytes_compare-lexicographic [] (y ∷ b) = ground arith
bytes_compare-lexicographic (x ∷ a) [] = ground arith
bytes_compare-lexicographic (x ∷ a) (y ∷ b) = ground (arith, bytes_compare-lexicographic a b)

bytes_compare-Comparison : Comparison bytes_compare
bytes_compare-Comparison =
    let law : Comparison (lexicographic sign_of_sub) =
      lexicographic-Comparison sign_of_sub sign_of_sub-Comparison in
    record {
      flip = λ a b.
          rw (bytes_compare-lexicographic b a, bytes_compare-lexicographic a b) (law.flip a b);
      equal_left = λ a b d h.
          let k = (rw (bytes_compare-lexicographic a b) at h) in
          rw (bytes_compare-lexicographic a d, bytes_compare-lexicographic b d)
            (law.equal_left a b d k);
      less_trans = λ a b d h k.
          let i = (rw (bytes_compare-lexicographic a b) at h) in
          let j = (rw (bytes_compare-lexicographic b d) at k) in
          rw (bytes_compare-lexicographic a d) (law.less_trans a b d i j);
    }

-- How many records have the hash as their owner's or cover it.
unfoldable pub denying_hash : Bytes → List (Bytes × Nsec3) → ℕ
unfolding one_if
denying_hash target [] = 0
denying_hash target ((owner_hash, n) ∷ rest) =
    one_if (is_equal (bytes_compare target owner_hash))
    + one_if (covers_hash n owner_hash target)
    + denying_hash target rest

unfoldable pub hash_and_next : List (Bytes × Nsec3) → List (Bytes × Bytes)
hash_and_next [] = []
hash_and_next ((owner_hash, n) ∷ rest) = (owner_hash, n.next_hashed_owner) ∷ hash_and_next rest

denying_hash-denials :
    (target : Bytes) (records : List (Bytes × Nsec3))
    → denying_hash target records ≡ denials bytes_compare target (hash_and_next records)
unfolding denying_hash denials covers_hash hash_and_next
denying_hash-denials target [] = refl
denying_hash-denials target ((owner_hash, n) ∷ rest) = rw (denying_hash-denials target rest) refl

-- The NSEC3 records of a zone, whose owner hashes stand in order, each with the next hash and the
-- last with the first: every hash is some owner's or covered (`covers_hash`), by exactly one record.
pub denying_hash-links :
    (target first : Bytes) (rest : List Bytes) (records : List (Bytes × Nsec3))
    → Sorted bytes_compare first rest
    → hash_and_next records ≡ links bytes_compare first first rest
    → denying_hash target records ≡ 1
denying_hash-links target first rest records s e =
    denying_hash-denials target records
    ∙ ap (denials bytes_compare target) e
    ∙ denials-links bytes_compare bytes_compare-Comparison target first rest s
