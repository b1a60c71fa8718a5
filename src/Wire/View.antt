-- ===== src/Wire/View.antt =====
-- A `DataView` on an octet array: numbers in network order, with the RangeError out of bounds.
use dnsdata_js.Base.{
  ℕ, ◌+◌, ◌*◌, ◌≤◌, ◌<◌, ◌≡◌, refl, ap, ◌∙◌, arith, [], ◌∷◌, ◌++◌, ltb, if◌then◌else◌, length, All,
  suc, zero,
}
use dnsdata_js.Base.Slices.{Bytes, byte_at, be16, IsByte}
use dnsdata_js.Base.Result.{Result, ok, err, range_error}

abbrev pub uint16_at : Bytes → ℕ → ℕ
uint16_at msg p = be16 (byte_at msg p) (byte_at msg (p + 1))

abbrev pub uint32_at : Bytes → ℕ → ℕ
uint32_at msg p = uint16_at msg p * 65536 + uint16_at msg (p + 2)

-- `view.getUint16(p)` and `view.getUint32(p)`
unfoldable pub get_uint16 : Bytes → ℕ → Result ℕ
get_uint16 msg p = if ltb (length msg) (p + 2) then err range_error else ok (uint16_at msg p)

unfoldable pub get_uint32 : Bytes → ℕ → Result ℕ
get_uint32 msg p = if ltb (length msg) (p + 4) then err range_error else ok (uint32_at msg p)

pub get_uint16-inside :
    (msg : Bytes) (p : ℕ) → p + 2 ≤ length msg → get_uint16 msg p ≡ ok (uint16_at msg p)
unfolding get_uint16
get_uint16-inside msg p h = ground arith

pub get_uint32-inside :
    (msg : Bytes) (p : ℕ) → p + 4 ≤ length msg → get_uint32 msg p ≡ ok (uint32_at msg p)
unfolding get_uint32
get_uint32-inside msg p h = ground arith

pub byte_at-lt : (msg : Bytes) (i : ℕ) → All IsByte msg → byte_at msg i < 256
byte_at-lt [] i h = omega arith
byte_at-lt (x ∷ xs) zero h = h.0
byte_at-lt (x ∷ xs) (suc i) h = byte_at-lt xs i h.1

-- An octet behind a front of known length.
pub byte_at-append :
    (pre rest : Bytes) (p k : ℕ) → p ≡ length pre + k → byte_at (pre ++ rest) p ≡ byte_at rest k
byte_at-append [] rest p k e = ap (byte_at rest) {x = p} {y = k} (omega arith)
byte_at-append (x ∷ pre) rest p k e =
    ap (byte_at (x ∷ (pre ++ rest))) {x = p} {y = suc (length pre + k)} (omega arith)
    ∙ byte_at-append pre rest (length pre + k) k refl

pub uint16_at-append :
    (pre rest : Bytes) (p k : ℕ) → p ≡ length pre + k → uint16_at (pre ++ rest) p ≡ uint16_at rest k
uint16_at-append pre rest p k e =
    omega
      (arith, byte_at-append pre rest p k e, byte_at-append pre rest (p + 1) (k + 1) (omega arith))

pub uint32_at-append :
    (pre rest : Bytes) (p k : ℕ) → p ≡ length pre + k → uint32_at (pre ++ rest) p ≡ uint32_at rest k
uint32_at-append pre rest p k e = omega (
  arith,
  uint16_at-append pre rest p k e,
  uint16_at-append pre rest (p + 2) (k + 2) (omega arith),
)
