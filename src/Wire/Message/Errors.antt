-- ===== src/Wire/Message/Errors.antt =====
-- `parse_message` on any octets: how it fails, and what the records that it returns are.
use dnsdata_js.Base.{ℕ, ◌+◌, ◌≤◌, ◌<◌, ◌≡◌, refl, sym, ap, ◌∙◌, arith, ltb, length}
use dnsdata_js.Base.Slices.{Bytes, slice, length-slice}
use dnsdata_js.Base.Result.{
  message_malformed, Result, ok, err, stuck, rethrow_as, OrThrows, OrThrows->>=, OrThrows-throw_if,
}
use dnsdata_js.Base.Text.{Text}
use dnsdata_js.Wire.View.{get_uint16-inside, get_uint32-inside, uint16_at, uint32_at}
use dnsdata_js.Wire.Name.{ParsedDomainName, parse_domain_name}
use dnsdata_js.Wire.Name.Parse.{InRange, parse_domain_name-InRange}
use dnsdata_js.Wire.Message.{RawRr, RrResult, parse_rr}

-- A name inside a message, as its callers rethrow it.
pub name-OrThrows :
    (msg : Bytes) (start : ℕ)
    → OrThrows message_malformed
        (λ p. (start < p.next) × (p.next ≤ length msg))
        (rethrow_as message_malformed (parse_domain_name msg start))
name-OrThrows msg start = go (parse_domain_name msg start) (parse_domain_name-InRange msg start)
  where
    go :
        (r : Result ParsedDomainName)
        → InRange start msg r
        → OrThrows message_malformed
            (λ p. (start < p.next) × (p.next ≤ length msg))
            (rethrow_as message_malformed r)
    go (ok p) h = h
    go (err e) h = refl
    go stuck h = h

-- A record's data is the part of the message at `rdata_start`.
pub record IsCut (msg : Bytes) (rr : RawRr) : Type 0 where
  pub inside : rr.rdata_start + length rr.rdata ≤ length msg
  pub cut : rr.rdata ≡ slice rr.rdata_start (rr.rdata_start + length rr.rdata) msg

abbrev pub RrFacts : Bytes → ℕ → RrResult → Type 0
RrFacts msg start r = IsCut msg r.rr × (start < r.next) × (r.next ≤ length msg)

-- The data of a record that begins at `start` and takes `n` octets.
IsCut-facts :
    (msg : Bytes) (start n : ℕ) (name : Text) (type class ttl : ℕ)
    → start + n ≤ length msg
    → IsCut msg (record {
      name = name;
      type = type;
      class = class;
      ttl = ttl;
      rdata = slice start (start + n) msg;
      rdata_start = start;
    })
IsCut-facts msg start n name type class ttl h =
    let long : length (slice start (start + n) msg) ≡ n =
      length-slice start (start + n) msg (omega arith) h ∙ omega arith in
    record {
      inside = omega (arith, long);
      cut = ap (λ (k : ℕ). slice start (start + k) msg) (sym long);
    }

pub parse_rr-OrThrows :
    (msg : Bytes) (start : ℕ) → OrThrows message_malformed (RrFacts msg start) (parse_rr msg start)
unfolding parse_rr
parse_rr-OrThrows msg start =
    OrThrows->>= message_malformed _ (RrFacts msg start)
      (rethrow_as message_malformed (parse_domain_name msg start)) _ (name-OrThrows msg start)
      (λ p e h.
        OrThrows-throw_if message_malformed (RrFacts msg start) (ltb (length msg) (p.next + 10)) _
          (λ long.
            rw
              (
                get_uint16-inside msg p.next (ground arith),
                get_uint16-inside msg (p.next + 2) (ground arith),
                get_uint32-inside msg (p.next + 4) (ground arith),
                get_uint16-inside msg (p.next + 8) (ground arith),
              )
              (OrThrows-throw_if message_malformed (RrFacts msg start)
                (ltb (length msg) (p.next + 10 + uint16_at msg (p.next + 8))) _
                (λ fits. (
                  IsCut-facts msg (p.next + 10) (uint16_at msg (p.next + 8)) p.name
                      (uint16_at msg p.next) (uint16_at msg (p.next + 2))
                      (uint32_at msg (p.next + 4)) (ground arith),
                  ground arith,
                  ground arith,
                )))))
