-- ===== src/Dnssec/Keys/Ecdsa.antt =====
-- packages/core/src/dnssec/dnskey.ts: ECDSA signatures as two numbers of fixed length, and in DER.
use dnsdata_js.Base.{
  ℕ, zero, suc, ◌+◌, ◌-◌, ◌%◌, Bool, true, ◌&&◌, not, if◌then◌else◌, ◌==◌, leb, [], ◌∷◌, ◌++◌,
  length, get_or, take, drop, ◌≡◌, ◌≤◌, refl, sym, ap, ◌∙◌, inl, inr, Bool-cases, arith,
  length-take, length-drop, take-append_length, drop-append_length, take-append-drop,
}
use dnsdata_js.Base.Slices.{Bytes}

-- `x[0] & 0x80` of an octet.
abbrev is_negative : ℕ → Bool
is_negative b = leb 128 b

-- A zero in front where the number would read as negative.
unfoldable pub padded : Bytes → Bytes
padded [] = []
padded (b ∷ bs) = if is_negative b then 0 ∷ b ∷ bs else b ∷ bs

-- The loop that strips zeros, at least one octet kept and none that makes the number negative.
unfoldable pub stripped : Bytes → Bytes
stripped [] = []
stripped (b ∷ []) = b ∷ []
stripped (b ∷ c ∷ bs) =
    let rest = stripped (c ∷ bs) in if (b == 0) && not (is_negative c) then rest else b ∷ c ∷ bs

-- `ecdsa_raw_to_der`, for a coordinate length.
unfoldable pub raw_to_der : ℕ → Bytes → Bytes
unfolding padded stripped
raw_to_der coord_len raw =
    let r = stripped (padded (take coord_len raw)) in
    let s = stripped (padded (drop coord_len raw)) in
    0x30 ∷ (2 + length r + 2 + length s) % 256 ∷ 2 ∷ length r % 256 ∷ r ++ 2 ∷ length s % 256 ∷ s

unfoldable pub zeros : ℕ → Bytes
zeros zero = []
zeros (suc n) = 0 ∷ zeros n

-- Right-aligned, with the excess octets in front left out.
unfoldable pub aligned : ℕ → Bytes → Bytes
unfolding zeros
aligned coord_len r =
    let kept = drop (length r - coord_len) r in zeros (coord_len - length kept) ++ kept

-- `ecdsa_der_to_raw`, for a coordinate length and a signature with both numbers in it.
unfoldable pub der_to_raw : ℕ → Bytes → Bytes
unfolding aligned
der_to_raw coord_len der =
    let r_len = get_or der 3 0 in
    let r = take r_len (drop 4 der) in
    let rest = drop r_len (drop 4 der) in
    let s = take (get_or rest 1 0) (drop 2 rest) in aligned coord_len r ++ aligned coord_len s

length-stripped : (r : Bytes) → length (stripped r) ≤ length r
unfolding stripped
length-stripped [] = omega arith
length-stripped (b ∷ []) = omega arith
length-stripped (b ∷ c ∷ bs) = elim (Bool-cases ((b == 0) && not (is_negative c))) [
  | inl t ↦ rw t (omega (arith, length-stripped (c ∷ bs)))
  | inr f ↦ rw f (omega arith)
]

length-padded : (r : Bytes) → length (padded r) ≤ suc (length r)
unfolding padded
length-padded [] = omega arith
length-padded (b ∷ bs) = elim (Bool-cases (is_negative b)) [
  | inl t ↦ rw t (omega arith)
  | inr f ↦ rw f (omega arith)
]

take_all : (x : Bytes) → take (length x) x ≡ x
take_all [] = refl
take_all (b ∷ bs) = ap (λ (y : Bytes). b ∷ y) (take_all bs)

zeros-stripped : (r : Bytes) → zeros (length r - length (stripped r)) ++ stripped r ≡ r
unfolding zeros stripped
zeros-stripped [] = refl
zeros-stripped (b ∷ []) = refl
zeros-stripped (b ∷ c ∷ bs) = elim (Bool-cases ((b == 0) && not (is_negative c))) [
  | inl t ↦
      let zero_b : b ≡ 0 = ground arith in
      let shorter = length-stripped (c ∷ bs) in
      rw t (
        ap (λ (k : ℕ). zeros k ++ stripped (c ∷ bs))
          {x = suc (length (c ∷ bs)) - length (stripped (c ∷ bs))}
          {y = suc (length (c ∷ bs) - length (stripped (c ∷ bs)))} (omega arith)
        ∙ ap (λ (x : Bytes). 0 ∷ x) (zeros-stripped (c ∷ bs))
        ∙ ap (λ (k : ℕ). k ∷ c ∷ bs) (sym zero_b))
  | inr f ↦ rw f (
      ap (λ (k : ℕ). zeros k ++ (b ∷ c ∷ bs)) {x = suc (suc (length bs)) - suc (suc (length bs))}
        {y = 0} (omega arith))
]

aligned-short : (n : ℕ) (x : Bytes) → length x ≤ n → aligned n x ≡ zeros (n - length x) ++ x
unfolding aligned
aligned-short n x h =
    ap (λ (k : ℕ). zeros (n - length (drop k x)) ++ drop k x) {x = length x - n} {y = 0}
      (omega arith)

aligned-negative :
    (b : ℕ) (bs : Bytes)
    → is_negative b ≡ true
    → aligned (suc (length bs)) (stripped (0 ∷ b ∷ bs)) ≡ b ∷ bs
unfolding aligned stripped zeros
aligned-negative b bs t = rw t (
    ap (λ (k : ℕ). zeros (suc (length bs) - length (drop k (0 ∷ b ∷ bs))) ++ drop k (0 ∷ b ∷ bs))
      {x = suc (suc (length bs)) - suc (length bs)} {y = 1} (omega arith)
    ∙ ap (λ (k : ℕ). zeros k ++ (b ∷ bs)) {x = suc (length bs) - suc (length bs)} {y = 0}
        (omega arith))

aligned-length : (r : Bytes) → aligned (length r) (stripped (padded r)) ≡ r
unfolding padded stripped zeros
aligned-length [] = aligned-short 0 [] (omega arith)
aligned-length (b ∷ bs) = elim (Bool-cases (is_negative b)) [
  | inl t ↦ rw t (aligned-negative b bs t)
  | inr f ↦ rw f (
      aligned-short (suc (length bs)) (stripped (b ∷ bs)) (length-stripped (b ∷ bs))
      ∙ zeros-stripped (b ∷ bs))
]

-- The number with the octets that DER needs is right-aligned to what it was.
aligned-stripped-padded : (n : ℕ) (r : Bytes) → length r ≡ n → aligned n (stripped (padded r)) ≡ r
aligned-stripped-padded n r e =
    ap (λ (k : ℕ). aligned k (stripped (padded r))) (sym e) ∙ aligned-length r

stripped-padded-length : (r : Bytes) → length (stripped (padded r)) ≤ suc (length r)
stripped-padded-length r = omega (arith, length-stripped (padded r), length-padded r)

-- An ECDSA signature of two numbers of `coord_len` octets, at most 127, is read back from its DER form.
pub der_to_raw-raw_to_der :
    (coord_len : ℕ) (raw : Bytes)
    → coord_len ≤ 127
    → length raw ≡ coord_len + coord_len
    → der_to_raw coord_len (raw_to_der coord_len raw) ≡ raw
unfolding der_to_raw raw_to_der
der_to_raw-raw_to_der coord_len raw small e =
    let r : Bytes = stripped (padded (take coord_len raw)) in
    let s : Bytes = stripped (padded (drop coord_len raw)) in
    let len_r : length (take coord_len raw) ≡ coord_len =
      omega (arith, length-take coord_len raw) in
    let len_s : length (drop coord_len raw) ≡ coord_len =
      omega (arith, length-drop coord_len raw) in
    let size_r : length r % 256 ≡ length r =
      omega (arith, stripped-padded-length (take coord_len raw)) in
    let size_s : length s % 256 ≡ length s =
      omega (arith, stripped-padded-length (drop coord_len raw)) in
    rw
      (
        size_r,
        take-append_length r (2 ∷ length s % 256 ∷ s),
        drop-append_length r (2 ∷ length s % 256 ∷ s),
        size_s,
        take_all s,
        aligned-stripped-padded coord_len (take coord_len raw) len_r,
        aligned-stripped-padded coord_len (drop coord_len raw) len_s,
      )
      (take-append-drop coord_len raw)
