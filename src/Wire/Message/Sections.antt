-- ===== src/Wire/Message/Sections.antt =====
-- The sections of a message that `parse_message` returns, and the way in which it fails.
use dnsdata_js.Base.{
  ℕ, zero, suc, ◌+◌, ◌≤◌, ◌<◌, ◌≡◌, refl, arith, not, List, [], ◌∷◌, ◌++◌, ltb, ◌==◌, length,
  length-append, All, All-append,
}
use dnsdata_js.Base.Slices.{Bytes}
use dnsdata_js.Base.Result.{
  message_malformed, Result, ok, err, stuck, rethrow_as, OrThrows, OrThrows->>=, OrThrows-throw_if,
  OrThrows-rethrow_as,
}
use dnsdata_js.Wire.View.{get_uint16-inside, uint16_at}
use dnsdata_js.Wire.Name.{parse_domain_name}
use dnsdata_js.Wire.Message.{
  RawRr, SectionResult, RawMessage, parse_rr, parse_rrs, parse_rr_section, parse_header,
  parse_question, parse_message,
}
use dnsdata_js.Wire.Message.Errors.{IsCut, name-OrThrows, RrFacts, parse_rr-OrThrows}

-- After `count` more records, behind those that were there.
record SectionFacts (msg : Bytes) (start count : ℕ) (s : SectionResult) : Type 0 where
  counted : length s.rrs ≡ count
  cut : All (IsCut msg) s.rrs
  forward : start ≤ s.next
  within : s.next ≤ length msg

SectionFacts-later :
    (msg : Bytes) (p q n : ℕ) (m : Result SectionResult)
    → p < q
    → OrThrows message_malformed (SectionFacts msg q n) m
    → OrThrows message_malformed (SectionFacts msg p n) m
SectionFacts-later msg p q n (ok s) lt f = record {
  counted = f.counted;
  cut = f.cut;
  forward = omega arith;
  within = f.within;
}
SectionFacts-later msg p q n (err x) lt f = f
SectionFacts-later msg p q n stuck lt f = f

parse_rrs-OrThrows :
    (count : ℕ) (msg : Bytes) (pos total : ℕ) (rrs : List RawRr)
    → total ≡ length rrs + count
    → pos ≤ length msg
    → All (IsCut msg) rrs
    → OrThrows message_malformed (SectionFacts msg pos total) (parse_rrs count msg pos rrs)
unfolding parse_rrs
parse_rrs-OrThrows zero msg pos total rrs t h v = record {
  counted = omega arith;
  cut = v;
  forward = omega arith;
  within = h;
}
parse_rrs-OrThrows (suc count) msg pos total rrs t h v =
    OrThrows->>= message_malformed (RrFacts msg pos) (SectionFacts msg pos total)
      (rethrow_as message_malformed (parse_rr msg pos)) _
      (OrThrows-rethrow_as message_malformed message_malformed (RrFacts msg pos) (parse_rr msg pos)
        (parse_rr-OrThrows msg pos))
      (λ r e f.
        SectionFacts-later msg pos r.next total (parse_rrs count msg r.next (rrs ++ r.rr ∷ [])) f.1
          (parse_rrs-OrThrows count msg r.next total (rrs ++ r.rr ∷ [])
            (omega (arith, length-append rrs (r.rr ∷ []))) f.2
            (All-append (IsCut msg) rrs (r.rr ∷ []) v (f.0, tt))))

section-OrThrows :
    (msg : Bytes) (pos count : ℕ)
    → pos ≤ length msg
    → OrThrows message_malformed
        (SectionFacts msg pos count)
        (rethrow_as message_malformed (parse_rr_section msg pos count))
unfolding parse_rr_section
section-OrThrows msg pos count h =
    OrThrows-rethrow_as message_malformed message_malformed (SectionFacts msg pos count)
      (parse_rrs count msg pos []) (parse_rrs-OrThrows count msg pos count [] (omega arith) h tt)

-- The header's fields, where the message is long enough.
pub parse_header-long :
    (msg : Bytes)
    → 12 ≤ length msg
    → parse_header msg
      ≡ ok (record {
        id = uint16_at msg 0;
        flags = uint16_at msg 2;
        qdcount = uint16_at msg 4;
        ancount = uint16_at msg 6;
        nscount = uint16_at msg 8;
        arcount = uint16_at msg 10;
      })
unfolding parse_header
parse_header-long msg h = rw (
  get_uint16-inside msg 0 (omega arith),
  get_uint16-inside msg 2 (omega arith),
  get_uint16-inside msg 4 (omega arith),
  get_uint16-inside msg 6 (omega arith),
  get_uint16-inside msg 8 (omega arith),
  get_uint16-inside msg 10 (omega arith),
)

question-OrThrows :
    (msg : Bytes) (start : ℕ)
    → OrThrows message_malformed (λ q. q.next ≤ length msg) (parse_question msg start)
unfolding parse_question
question-OrThrows msg start =
    OrThrows->>= message_malformed _ (λ q. q.next ≤ length msg)
      (rethrow_as message_malformed (parse_domain_name msg start)) _ (name-OrThrows msg start)
      (λ p e h.
        OrThrows-throw_if message_malformed (λ q. q.next ≤ length msg)
          (ltb (length msg) (p.next + 4)) _
          (λ long.
            rw
              (
                get_uint16-inside msg p.next (ground arith),
                get_uint16-inside msg (p.next + 2) (ground arith),
              )
              (ground arith)))

-- A message that was parsed: what the header announces, and records cut out of the message.
pub record MessageFacts (msg : Bytes) (m : RawMessage) : Type 0 where
  pub same : m.raw ≡ msg
  pub one_question : m.header.qdcount ≡ 1
  pub answers : length m.answer ≡ m.header.ancount
  pub authorities : length m.authority ≡ m.header.nscount
  pub additionals : length m.additional ≡ m.header.arcount
  pub answer_cut : All (IsCut msg) m.answer
  pub authority_cut : All (IsCut msg) m.authority
  pub additional_cut : All (IsCut msg) m.additional

-- `parse_message` on any octets ends, and throws nothing but the exception of a malformed message:
-- no read is out of bounds. What it returns has one question and as many records in each section as
-- its header says, and each record's data is the part of the message at its offset.
pub parse_message-OrThrows :
    (msg : Bytes) → OrThrows message_malformed (MessageFacts msg) (parse_message msg)
unfolding parse_message
parse_message-OrThrows msg =
    OrThrows-throw_if message_malformed (MessageFacts msg) (ltb (length msg) 12) _ (λ long.
      rw (parse_header-long msg (ground arith)) (
        OrThrows-throw_if message_malformed (MessageFacts msg) (not (uint16_at msg 4 == 1)) _
          (λ one.
            OrThrows->>= message_malformed _ (MessageFacts msg) (parse_question msg 12) _
              (question-OrThrows msg 12)
              (λ q e0 h0.
                OrThrows->>= {A = SectionResult} message_malformed
                  (SectionFacts msg q.next (uint16_at msg 6)) (MessageFacts msg) _ _
                  (section-OrThrows msg q.next (uint16_at msg 6) h0)
                  (λ a e1 h1.
                    OrThrows->>= {A = SectionResult} message_malformed
                      (SectionFacts msg a.next (uint16_at msg 8)) (MessageFacts msg) _ _
                      (section-OrThrows msg a.next (uint16_at msg 8) h1.within)
                      (λ b e2 h2.
                        OrThrows->>= {A = SectionResult} message_malformed
                          (SectionFacts msg b.next (uint16_at msg 10)) (MessageFacts msg) _ _
                          (section-OrThrows msg b.next (uint16_at msg 10) h2.within)
                          (λ c e3 h3. record {
                            same = refl;
                            one_question = ground arith;
                            answers = h1.counted;
                            authorities = h2.counted;
                            additionals = h3.counted;
                            answer_cut = h1.cut;
                            authority_cut = h2.cut;
                            additional_cut = h3.cut;
                          })))))))
