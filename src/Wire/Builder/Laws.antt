-- ===== src/Wire/Builder/Laws.antt =====
-- packages/core/src/wire/dns_wire_util.ts: what a `WireBuilder` holds after its operations, and
-- what a reader finds there.
use dnsdata_js.Base.{
  ℕ, ◌/◌, ◌%◌, ◌^◌, ◌<◌, [], ◌∷◌, ◌++◌, length, ◌≡◌, sym, ◌∙◌, arith, append-nil, append_assoc,
}
use dnsdata_js.Base.Slices.{Bytes}
use dnsdata_js.Wire.Builder.{
  WireBuilder, length_of, append_uint16, append_uint32, append_bytes, build,
}
use dnsdata_js.Wire.View.{uint16_at, uint32_at, uint16_at-append, uint32_at-append}

-- `append_bytes` puts the octets behind those already there.
pub build-append_bytes : (bs : Bytes) (w : WireBuilder) → build (append_bytes bs w) ≡ build w ++ bs
unfolding build append_bytes
build-append_bytes [] w = sym (append-nil w.buf)
build-append_bytes (b ∷ bs) w =
    build-append_bytes bs (record { buf = w.buf ++ b ∷ [] }) ∙ append_assoc w.buf (b ∷ []) bs

-- What a reader finds at a position, whatever is appended afterwards: a 16-bit number.
pub uint16_at-append_uint16 :
    (v : ℕ) (w : WireBuilder) (rest : Bytes)
    → v < 65536
    → uint16_at (build (append_bytes rest (append_uint16 v w))) (length_of w) ≡ v
unfolding append_uint16 build length_of
uint16_at-append_uint16 v w rest h =
    rw
      (
        build-append_bytes rest (append_uint16 v w),
        append_assoc,
        uint16_at-append w.buf (v / 2 ^ 8 % 256 ∷ v % 256 ∷ rest) (length w.buf) 0 (omega arith),
      )
      (omega arith)

-- A number appended with `append_uint32` is read back with `getUint32` at the position it was
-- appended at, whatever the builder held and whatever is appended afterwards.
pub uint32_at-append_uint32 :
    (v : ℕ) (w : WireBuilder) (rest : Bytes)
    → v < 4294967296
    → uint32_at (build (append_bytes rest (append_uint32 v w))) (length_of w) ≡ v
unfolding append_uint32 build length_of
uint32_at-append_uint32 v w rest h =
    rw
      (
        build-append_bytes rest (append_uint32 v w),
        append_assoc,
        uint32_at-append w.buf
            (v / 2 ^ 24 % 256 ∷ v / 2 ^ 16 % 256 ∷ v / 2 ^ 8 % 256 ∷ v % 256 ∷ rest) (length w.buf)
            0 (omega arith),
      )
      (omega arith)
