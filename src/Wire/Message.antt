-- ===== src/Wire/Message.antt =====
-- packages/core/src/wire/dns_message.ts: the parser of whole messages.
pub mod Errors
pub mod Sections
pub mod Query
pub mod QueryParse
use dnsdata_js.Base.{
  ℕ, zero, suc, ◌+◌, ◌/◌, ◌%◌, ◌^◌, Bool, true, false, not, List, [], ◌∷◌, ◌++◌, ltb, ◌==◌,
  if◌then◌else◌, length,
}
use dnsdata_js.Base.Slices.{Bytes, slice}
use dnsdata_js.Base.Text.{Text}
use dnsdata_js.Base.Result.{
  Exception, message_malformed, Result, ok, err, stuck, ◌>>=◌, ◌>>◌, throw_if, rethrow_as,
}
use dnsdata_js.Wire.View.{get_uint16, get_uint32}
use dnsdata_js.Wire.Name.{ParsedDomainName, parse_domain_name}

pub record Header : Type 0 where
  pub id : ℕ
  pub flags : ℕ
  pub qdcount : ℕ
  pub ancount : ℕ
  pub nscount : ℕ
  pub arcount : ℕ

-- `(flags & (1 << k)) !== 0`
abbrev pub flag_bit : ℕ → ℕ → Bool
flag_bit flags k = flags / 2 ^ k % 2 == 1

unfoldable pub qr : Header → Bool
qr h = flag_bit h.flags 15

unfoldable pub aa : Header → Bool
aa h = flag_bit h.flags 10

unfoldable pub tc : Header → Bool
tc h = flag_bit h.flags 9

unfoldable pub rd : Header → Bool
rd h = flag_bit h.flags 8

unfoldable pub ra : Header → Bool
ra h = flag_bit h.flags 7

unfoldable pub ad : Header → Bool
ad h = flag_bit h.flags 5

unfoldable pub cd : Header → Bool
cd h = flag_bit h.flags 4

unfoldable pub rcode : Header → ℕ
rcode h = h.flags % 16

pub record Question : Type 0 where
  pub name : Text
  pub type : ℕ
  pub class : ℕ

pub record RawRr : Type 0 where
  pub name : Text
  pub type : ℕ
  pub class : ℕ
  pub ttl : ℕ
  pub rdata : Bytes
  pub rdata_start : ℕ

pub record RawMessage : Type 0 where
  pub raw : Bytes
  pub header : Header
  pub question : Question
  pub answer : List RawRr
  pub authority : List RawRr
  pub additional : List RawRr

pub record RrResult : Type 0 where
  pub rr : RawRr
  pub next : ℕ

pub record SectionResult : Type 0 where
  pub rrs : List RawRr
  pub next : ℕ

unfoldable pub parse_rr : Bytes → ℕ → Result RrResult
parse_rr msg start = do
  parsed ← rethrow_as message_malformed (parse_domain_name msg start)
  throw_if (ltb (length msg) (parsed.next + 10)) message_malformed
  type ← get_uint16 msg parsed.next
  class ← get_uint16 msg (parsed.next + 2)
  ttl ← get_uint32 msg (parsed.next + 4)
  rdlen ← get_uint16 msg (parsed.next + 8)
  throw_if (ltb (length msg) (parsed.next + 10 + rdlen)) message_malformed
  ok (record {
    rr = record {
      name = parsed.name;
      type = type;
      class = class;
      ttl = ttl;
      rdata = slice (parsed.next + 10) (parsed.next + 10 + rdlen) msg;
      rdata_start = parsed.next + 10;
    };
    next = parsed.next + 10 + rdlen;
  })

-- The loop on the records that are left; `rrs` holds those that were read.
unfoldable pub parse_rrs : ℕ → Bytes → ℕ → List RawRr → Result SectionResult
parse_rrs zero msg pos rrs = ok (record { rrs = rrs; next = pos })
parse_rrs (suc count) msg pos rrs = rethrow_as message_malformed (parse_rr msg pos) >>= λ r.
    parse_rrs count msg r.next (rrs ++ r.rr ∷ [])

unfoldable pub parse_rr_section : Bytes → ℕ → ℕ → Result SectionResult
parse_rr_section msg pos count = parse_rrs count msg pos []

unfoldable pub parse_header : Bytes → Result Header
parse_header msg = do
  id ← get_uint16 msg 0
  flags ← get_uint16 msg 2
  qdcount ← get_uint16 msg 4
  ancount ← get_uint16 msg 6
  nscount ← get_uint16 msg 8
  arcount ← get_uint16 msg 10
  ok (record {
    id = id;
    flags = flags;
    qdcount = qdcount;
    ancount = ancount;
    nscount = nscount;
    arcount = arcount;
  })

pub record QuestionResult : Type 0 where
  pub question : Question
  pub next : ℕ

unfoldable pub parse_question : Bytes → ℕ → Result QuestionResult
parse_question msg start = do
  parsed ← rethrow_as message_malformed (parse_domain_name msg start)
  throw_if (ltb (length msg) (parsed.next + 4)) message_malformed
  type ← get_uint16 msg parsed.next
  class ← get_uint16 msg (parsed.next + 2)
  ok (record {
    question = record { name = parsed.name; type = type; class = class };
    next = parsed.next + 4;
  })

unfoldable pub parse_message : Bytes → Result RawMessage
parse_message msg = do
  throw_if (ltb (length msg) 12) message_malformed
  header ← parse_header msg
  throw_if (not (header.qdcount == 1)) message_malformed
  q ← parse_question msg 12
  answer ← rethrow_as message_malformed (parse_rr_section msg q.next header.ancount)
  authority ← rethrow_as message_malformed (parse_rr_section msg answer.next header.nscount)
  additional ← rethrow_as message_malformed (parse_rr_section msg authority.next header.arcount)
  ok (record {
    raw = msg;
    header = header;
    question = q.question;
    answer = answer.rrs;
    authority = authority.rrs;
    additional = additional.rrs;
  })
