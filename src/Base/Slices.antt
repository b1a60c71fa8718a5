-- ===== src/Base/Slices.antt =====
-- Octet arrays. A `Uint8Array` is a list of numbers below 256; `subarray(i, j)` is `slice`.
use Prim.Native.Nat.{ℕ, zero, suc, ◌+◌, ◌-◌, ◌*◌, ◌≤◌, ◌<◌}
use mathlib.Core.Path.{◌≡◌, refl, ap, ◌∙◌}
use mathlib.Core.List.{List, [], ◌∷◌, ◌++◌}
use mathlib.Core.Option.{some}
use native.Mathlib.Omega.{arith}
use dnsdata_js.Base.Lists.{
  length, get_elem?, get_or, take, drop, length-take, length-drop, take-append_length,
}

abbrev pub Bytes : Type 0
Bytes = List ℕ

abbrev pub IsByte : ℕ → Type 0
IsByte b = b < 256

-- `a[i]`, where an absent element counts as 0, as it does under the bit operators.
abbrev pub byte_at : Bytes → ℕ → ℕ
byte_at a i = get_or a i 0

-- `a.subarray(i, j)` for i ≤ j; the end is cut off at the array's.
abbrev pub slice {ℓ} : {A : Type ℓ} → ℕ → ℕ → List A → List A
slice i j xs = take (j - i) (drop i xs)

-- Two octets in network order.
abbrev pub be16 : ℕ → ℕ → ℕ
be16 hi lo = hi * 256 + lo

module _ {ℓ} {A : Type ℓ} where
  pub length-slice : (i j : ℕ) (xs : List A) → i ≤ j → j ≤ length xs → length (slice i j xs) ≡ j - i
  length-slice i j xs h k = length-take (j - i) (drop i xs) ∙ omega (arith, length-drop i xs)

  pub get_elem?-lt : (xs : List A) (i : ℕ) → i < length xs → (a : A) × (get_elem? xs i ≡ some a)
  get_elem?-lt [] i h = absurd (omega arith)
  get_elem?-lt (x ∷ xs) zero h = (x, refl)
  get_elem?-lt (x ∷ xs) (suc i) h = get_elem?-lt xs i (omega arith)

  pub get_elem?-some_lt : (xs : List A) (i : ℕ) (a : A) → get_elem? xs i ≡ some a → i < length xs
  get_elem?-some_lt [] i a e = cc
  get_elem?-some_lt (x ∷ xs) zero a e = omega arith
  get_elem?-some_lt (x ∷ xs) (suc i) a e = omega (arith, get_elem?-some_lt xs i a e)

  drop-append_suc : (pre : List A) (x : A) (r : List A) → drop (suc (length pre)) (pre ++ x ∷ r) ≡ r
  drop-append_suc [] x r = refl
  drop-append_suc (p ∷ pre) x r = drop-append_suc pre x r

  -- What stands behind the element at `i`.
  pub slice_behind :
      (pre : List A) (x : A) (mid post : List A) (i n : ℕ)
      → i ≡ length pre
      → n ≡ length mid
      → slice (i + 1) (i + 1 + n) (pre ++ x ∷ (mid ++ post)) ≡ mid
  slice_behind pre x mid post i n at len =
      ap (λ (k : ℕ). take k (drop (i + 1) (pre ++ x ∷ (mid ++ post)))) {x = i + 1 + n - (i + 1)}
        {y = length mid} (omega arith)
      ∙ ap (λ (k : ℕ). take (length mid) (drop k (pre ++ x ∷ (mid ++ post)))) {x = i + 1}
          {y = suc (length pre)} (omega arith)
      ∙ ap (take (length mid)) (drop-append_suc pre x (mid ++ post))
      ∙ take-append_length mid post
