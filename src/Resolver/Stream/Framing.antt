-- ===== src/Resolver/Stream/Framing.antt =====
-- packages/core/src/resolver/stream.ts: the length in front of a message says where it ends.
use dnsdata_js.Base.{
  ℕ, ◌+◌, ◌*◌, ◌/◌, ◌%◌, ◌^◌, ◌≤◌, [], ◌∷◌, ◌++◌, length, take, drop, ◌≡◌, refl, ap, ◌∙◌, arith,
  le→ltb_false, take-append_length, drop-append_length,
}
use dnsdata_js.Base.Slices.{Bytes}
use dnsdata_js.Base.Result.{Result, ok}
use dnsdata_js.Resolver.Stream.{frame, exchange}

-- A connection that gives back what was sent, followed by more.
abbrev pub send_back : Bytes → Bytes → Bytes → Result Bytes
send_back more conn out = ok (conn ++ out ++ more)

abbrev pub read_back : Bytes → ℕ → Result (Bytes × Bytes)
read_back conn n = ok (drop n conn, take n conn)

pub frame-short :
    (query : Bytes)
    → length query ≤ 0xffff
    → frame query ≡ ok (length query / 2 ^ 8 % 256 ∷ length query % 256 ∷ query)
unfolding frame
frame-short query h = rw (le→ltb_false 0xffff (length query) h) refl

-- On a connection that gives back the octets written to it, followed by any others, `exchange` of a
-- query of at most 65535 octets returns the query and leaves exactly the other octets.
pub exchange-send_back :
    (query more : Bytes)
    → length query ≤ 0xffff
    → exchange (send_back more) read_back [] query ≡ ok (more, query)
unfolding exchange
exchange-send_back query more h = rw (frame-short query h) (
    ap (λ (n : ℕ). ok (drop n (query ++ more), take n (query ++ more)))
      {x = length query / 2 ^ 8 % 256 * 256 + length query % 256} {y = length query} (omega arith)
    ∙ rw (drop-append_length query more, take-append_length query more) refl)
