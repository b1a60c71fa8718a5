-- ===== src/Wire/Message/Query.antt =====
-- The parser on the queries that `build_query_with_options` builds.
use dnsdata_js.Base.{
  ℕ, ◌+◌, ◌-◌, ◌≤◌, ◌≡◌, ap, ◌∙◌, arith, [], ◌∷◌, ◌++◌, length, length-append, take, drop,
  le→ltb_false,
}
use mathlib.Core.Path.{ap₂}
use dnsdata_js.Base.Slices.{Bytes, slice}
use dnsdata_js.Base.Text.{dot}
use dnsdata_js.Base.Result.{ok}
use dnsdata_js.Wire.View.{
  get_uint16-inside, get_uint32-inside, uint16_at, uint32_at, uint16_at-append, uint32_at-append,
}
use dnsdata_js.Wire.Name.{ParsedDomainName, parse_domain_name}
use dnsdata_js.Wire.Name.Parse.RoundTrip.{parse_domain_name-wire_of}
use dnsdata_js.Wire.Name.Encode.RoundTrip.{assemble_name-nil}
use dnsdata_js.Wire.Name.Query.{
  set_uint16, set_uint32, opt_record, opt_type, udp_payload_size, do_bit,
}
use dnsdata_js.Wire.Message.{RawRr, parse_rr, parse_question}

-- A record whose name and fixed fields are known.
parse_rr-fields :
    (msg : Bytes) (start : ℕ) (p : ParsedDomainName) (t c ttl n : ℕ)
    → parse_domain_name msg start ≡ ok p
    → uint16_at msg p.next ≡ t
    → uint16_at msg (p.next + 2) ≡ c
    → uint32_at msg (p.next + 4) ≡ ttl
    → uint16_at msg (p.next + 8) ≡ n
    → p.next + 10 + n ≤ length msg
    → parse_rr msg start
      ≡ ok (record {
        rr = record {
          name = p.name;
          type = t;
          class = c;
          ttl = ttl;
          rdata = slice (p.next + 10) (p.next + 10 + n) msg;
          rdata_start = p.next + 10;
        };
        next = p.next + 10 + n;
      })
unfolding parse_rr
parse_rr-fields msg start p t c ttl n name et ec el en fits = rw (
  name,
  le→ltb_false (length msg) (p.next + 10) (omega arith),
  get_uint16-inside msg p.next (omega arith),
  get_uint16-inside msg (p.next + 2) (omega arith),
  get_uint32-inside msg (p.next + 4) (omega arith),
  get_uint16-inside msg (p.next + 8) (omega arith),
  et,
  ec,
  el,
  en,
  le→ltb_false (length msg) (p.next + 10 + n) fits,
)

pub parse_question-fields :
    (msg : Bytes) (start : ℕ) (p : ParsedDomainName) (t c : ℕ)
    → parse_domain_name msg start ≡ ok p
    → uint16_at msg p.next ≡ t
    → uint16_at msg (p.next + 2) ≡ c
    → p.next + 4 ≤ length msg
    → parse_question msg start
      ≡ ok (record { question = record { name = p.name; type = t; class = c }; next = p.next + 4 })
unfolding parse_question
parse_question-fields msg start p t c name et ec fits = rw (
  name,
  le→ltb_false (length msg) (p.next + 4) fits,
  get_uint16-inside msg p.next (omega arith),
  get_uint16-inside msg (p.next + 2) (omega arith),
  et,
  ec,
)

-- The record that `opt_record` writes, as it is read at `start`.
abbrev pub opt_rr : ℕ → RawRr
opt_rr start = record {
  name = dot ∷ [];
  type = 41;
  class = 4096;
  ttl = 0x8000;
  rdata = [];
  rdata_start = start + 11;
}

take_none : (k : ℕ) (xs : Bytes) → k ≡ 0 → take k xs ≡ []
take_none k xs e = ap (λ (n : ℕ). take n xs) e

pub parse_rr-opt_record :
    (msg pre : Bytes) (start : ℕ)
    → msg ≡ pre ++ opt_record
    → start ≡ length pre
    → parse_rr msg start ≡ ok (record { rr = opt_rr start; next = start + 11 })
parse_rr-opt_record msg pre start m at =
    parse_rr-fields msg start (record { name = dot ∷ []; next = start + 1 }) opt_type
      udp_payload_size do_bit 0 name (field16 (start + 1) 1 (omega arith))
      (field16 (start + 1 + 2) 3 (omega arith)) (field32 (start + 1 + 4) 5 (omega arith))
      (field16 (start + 1 + 8) 9 (omega arith)) (omega (arith, long))
    ∙ λ i. ok (record {
      rr = record {
        name = dot ∷ [];
        type = opt_type;
        class = udp_payload_size;
        ttl = do_bit;
        rdata =
            take_none (start + 1 + 10 + 0 - (start + 1 + 10)) (drop (start + 1 + 10) msg)
              (omega arith) i;
        rdata_start = eleven i;
      };
      next = eleven_more i;
    })
  where
    long : length msg ≡ length pre + 11
    long = ap length m ∙ length-append pre opt_record

    eleven : start + 1 + 10 ≡ start + 11
    eleven = omega arith

    eleven_more : start + 1 + 10 + 0 ≡ start + 11
    eleven_more = omega arith

    field16 : (p k : ℕ) → p ≡ length pre + k → uint16_at msg p ≡ uint16_at opt_record k
    field16 p k e = ap (λ (x : Bytes). uint16_at x p) m ∙ uint16_at-append pre opt_record p k e

    field32 : (p k : ℕ) → p ≡ length pre + k → uint32_at msg p ≡ uint32_at opt_record k
    field32 p k e = ap (λ (x : Bytes). uint32_at x p) m ∙ uint32_at-append pre opt_record p k e

    next_here : length pre + 1 ≡ start + 1
    next_here = omega arith

    name : parse_domain_name msg start ≡ ok (record { name = dot ∷ []; next = start + 1 })
    name =
        ap₂ parse_domain_name m at
        ∙ parse_domain_name-wire_of [] pre
            (set_uint16 opt_type
              ++ (set_uint16 udp_payload_size ++ (set_uint32 do_bit ++ set_uint16 0)))
            tt
        ∙ λ i. ok (record { name = assemble_name-nil i; next = next_here i })
