-- ===== src/Wire/RData/Bitmap.antt =====
-- packages/core/src/wire/rdata_decoder.ts: which octets an NSEC3 record and its type bitmap are
-- decoded from.
use dnsdata_js.Base.{
  ℕ, zero, suc, ◌+◌, ◌*◌, ◌≤◌, Bool, true, false, [], ◌∷◌, ◌++◌, ◌≡◌, refl, arith, length, drop,
  ltb, length-drop, ◌||◌, ◌==◌,
}
use dnsdata_js.Base.Slices.{Bytes, byte_at, slice}
use dnsdata_js.Base.Result.{Result, ok, err, stuck, rdata_decode, throw_if, ◌>>=◌, ◌>>◌}
use dnsdata_js.Wire.RData.{bitmap_loop, types_of, decode_bitmap, decode_next_hash, decode_nsec3}

-- A type bitmap: windows of 1 to 32 octets, each behind its number and its length.
pub data IsBitmap : Bytes → Type 0 where
  no_window : IsBitmap []
  window :
      (number len : ℕ) (rest : Bytes)
      → 1 ≤ len
      → len ≤ 32
      → len ≤ length rest
      → IsBitmap (drop len rest)
      → IsBitmap (number ∷ len ∷ rest)

-- The RDATA of an NSEC3 record: five octets, of which the last is the length of the salt, the salt,
-- the length of the hash, the hash and a type bitmap.
pub record IsNsec3 (rdata : Bytes) : Type 0 where
  pub salt_fits : 5 + byte_at rdata 4 + 1 ≤ length rdata
  pub hash_fits : 5 + byte_at rdata 4 + 1 + byte_at rdata (5 + byte_at rdata 4) ≤ length rdata
  pub bitmap : IsBitmap (drop (5 + byte_at rdata 4 + 1 + byte_at rdata (5 + byte_at rdata 4)) rdata)

-- A value where P holds, and `DNSRDataDecodeError` where it does not.
abbrev pub Decides {ℓ} : {A : Type ℓ} → Type 0 → Result A → Type 0
Decides P (ok a) = P
Decides P (err x) = (x ≡ rdata_decode) × ¬ P
Decides P stuck = ⊥

module _ {ℓ} {A : Type ℓ} where
  guards-Decides :
      (P : Type 0) (a b : Bool) (r : Result A)
      → (a ≡ true → ¬ P)
      → (b ≡ true → ¬ P)
      → (a ≡ false → b ≡ false → Decides P r)
      → Decides P (throw_if a rdata_decode >> throw_if b rdata_decode >> r)
  guards-Decides P true b r h k l = (refl, h refl)
  guards-Decides P false true r h k l = (refl, k refl)
  guards-Decides P false false r h k l = l refl refl

  Decides-iff : (P Q : Type 0) (r : Result A) → (P → Q) → (Q → P) → Decides P r → Decides Q r
  Decides-iff P Q (ok a) to from h = to h
  Decides-iff P Q (err x) to from (e, n) = (e, λ q. n (from q))
  Decides-iff P Q stuck to from h = h

  Decides-map {κ} :
      {B : Type κ} (P : Type 0) (r : Result A) (f : A → B)
      → Decides P r
      → Decides P (r >>= λ x. ok (f x))
  Decides-map P (ok a) f h = h
  Decides-map P (err x) f h = h
  Decides-map P stuck f h = h

window-parts :
    (number len : ℕ) (rest : Bytes)
    → IsBitmap (number ∷ len ∷ rest)
    → (1 ≤ len) × (len ≤ 32) × (len ≤ length rest) × IsBitmap (drop len rest)
window-parts number len rest (window _ _ _ a b c d) = (a, b, c, d)

no_half : (number : ℕ) → ¬ IsBitmap (number ∷ [])
no_half number h = elim h [ ]

bitmap_loop-Decides :
    (fuel : ℕ) (bs : Bytes) → length bs ≤ fuel → Decides (IsBitmap bs) (bitmap_loop fuel bs)
unfolding bitmap_loop
bitmap_loop-Decides fuel [] h = no_window
bitmap_loop-Decides zero (b ∷ bs) h = absurd (omega arith)
bitmap_loop-Decides (suc fuel) (number ∷ []) h = (refl, no_half number)
bitmap_loop-Decides (suc fuel) (number ∷ len ∷ rest) h =
    Decides-map (IsBitmap (number ∷ len ∷ rest)) _
      (λ types. types_of (number * 256) (slice 0 len rest) ++ types)
      (guards-Decides (IsBitmap (number ∷ len ∷ rest)) ((len == 0) || ltb 32 len)
        (ltb (length rest) len) (bitmap_loop fuel (drop len rest))
        (λ e p. let (a, b, c, d) = window-parts number len rest p in ground arith)
        (λ e p. let (a, b, c, d) = window-parts number len rest p in ground arith)
        (λ e f.
          Decides-iff (IsBitmap (drop len rest)) (IsBitmap (number ∷ len ∷ rest))
            (bitmap_loop fuel (drop len rest))
            (λ p. window number len rest (ground arith) (ground arith) (ground arith) p)
            (λ p. let (a, b, c, d) = window-parts number len rest p in d)
            (bitmap_loop-Decides fuel (drop len rest) (omega (arith, length-drop len rest)))))

decode_bitmap-Decides : (bs : Bytes) → Decides (IsBitmap bs) (decode_bitmap bs)
unfolding decode_bitmap
decode_bitmap-Decides bs = bitmap_loop-Decides (length bs) bs (omega arith)

decode_next_hash-Decides :
    (rdata salt : Bytes)
    → Decides (IsNsec3 rdata) (decode_next_hash rdata salt (5 + byte_at rdata 4))
unfolding decode_next_hash
decode_next_hash-Decides rdata salt =
    let pos = 5 + byte_at rdata 4 in
    let end = pos + 1 + byte_at rdata pos in
    Decides-map (IsNsec3 rdata) _ _ (
      guards-Decides (IsNsec3 rdata) (ltb (length rdata) (pos + 1)) (ltb (length rdata) end)
        (decode_bitmap (drop end rdata)) (λ e p. let f = p.salt_fits in ground arith)
        (λ e p. let f = p.hash_fits in ground arith)
        (λ e f.
          Decides-iff (IsBitmap (drop end rdata)) (IsNsec3 rdata) (decode_bitmap (drop end rdata))
            (λ p. record { salt_fits = ground arith; hash_fits = ground arith; bitmap = p })
            (λ p. p.bitmap) (decode_bitmap-Decides (drop end rdata))))

-- `decode_nsec3` ends on all octets. It returns a text exactly where the octets are the RDATA of an
-- NSEC3 record, with a salt and a hash that lie inside it and a bitmap of whole windows of 1 to 32
-- octets, and throws `DNSRDataDecodeError` on all others.
pub decode_nsec3-Decides : (rdata : Bytes) → Decides (IsNsec3 rdata) (decode_nsec3 rdata)
unfolding decode_nsec3
decode_nsec3-Decides rdata =
    guards-Decides (IsNsec3 rdata) (ltb (length rdata) 5) (ltb (length rdata) (5 + byte_at rdata 4))
      _ (λ e p. let f = p.salt_fits in ground arith) (λ e p. let f = p.salt_fits in ground arith)
      (λ e f. decode_next_hash-Decides rdata (slice 5 (5 + byte_at rdata 4) rdata))
