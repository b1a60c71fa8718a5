-- ===== src/Wire/Name.antt =====
-- packages/core/src/wire/dns_wire.ts: domain names and queries in wire format. A name is a text
-- whose code units are octets; `fold` is the case mapping that the two encoders differ in.
pub mod Labels
pub mod Encode
pub mod Parse
pub mod Query
pub mod Decode
use dnsdata_js.Base.{
  ℕ, zero, suc, ◌+◌, ◌-◌, ◌*◌, ◌/◌, ◌%◌, ◌^◌, Bool, true, false, not, ◌&&◌, ◌||◌, Option, none,
  some, List, [], ◌∷◌, ◌++◌, map, ltb, leb, ◌==◌, if◌then◌else◌, length, get_elem?, is_empty, any,
}
use dnsdata_js.Base.Slices.{Bytes, byte_at, slice, be16}
use dnsdata_js.Base.Text.{Text, dot, join, ends_with_dot}
use dnsdata_js.Base.Result.{
  Exception, wire_error, pointer_loop, pointer_forward, Result, ok, err, stuck, ◌>>=◌, ◌>>◌,
  throw_if,
}

abbrev pub max_label_length : ℕ
max_label_length = 63

abbrev pub max_name_length : ℕ
max_name_length = 255

abbrev pub max_pointer_hops : ℕ
max_pointer_hops = 32

unfoldable pub ascii_to_lower : ℕ → ℕ
ascii_to_lower c = if leb 0x41 c && leb c 0x5a then c + 0x20 else c

-- `for (j = i; j < l && d[j] != '.'; ++j)`: the units up to the next dot, and what is left from it.
unfoldable pub label_from : Text → Text
label_from [] = []
label_from (c ∷ d) = let more = label_from d in if c == dot then [] else c ∷ more

unfoldable pub from_dot : Text → Text
from_dot [] = []
from_dot (c ∷ d) = let more = from_dot d in if c == dot then c ∷ d else more

-- The body of the outer loop up to the step to the next label. `first` is `i === 0`, and `at_dot`
-- is `j < l`.
unfoldable pub push_label : (ℕ → ℕ) → Bool → Bool → Text → Bytes → Result Bytes
push_label fold first at_dot [] bytes = if at_dot && not first then err wire_error else ok bytes
push_label fold first at_dot (c ∷ label) bytes =
    if ltb max_label_length (length (c ∷ label))
    then err wire_error
    else ok (bytes ++ length (c ∷ label) ∷ map fold (c ∷ label))

-- The outer loop on what is left of the name. Each round takes a unit at least.
unfoldable pub encode_loop : (ℕ → ℕ) → ℕ → Bool → Text → Bytes → Result Bytes
encode_loop fold fuel first [] bytes = ok bytes
encode_loop fold zero first (c ∷ d) bytes = stuck
encode_loop fold (suc fuel) first (c ∷ d) bytes =
    push_label fold first (not (is_empty (from_dot (c ∷ d)))) (label_from (c ∷ d)) bytes
    >>= λ bytes'. elim (from_dot (c ∷ d)) [
      | [] ↦ ok bytes'
      | _ ∷ more ↦
          encode_loop fold fuel false more (if is_empty more then bytes' ++ 0 ∷ [] else bytes')
    ]

-- `new Uint8Array(bytes)` keeps the low eight bits of each element.
unfoldable pub finish_name : Bytes → Result Bytes
finish_name bytes =
    if ltb max_name_length (length bytes) then err wire_error else ok (map (λ b. b % 256) bytes)

unfoldable pub encode_domain_name : Text → (ℕ → ℕ) → Result Bytes
encode_domain_name d fold = encode_loop fold (length d) true d [] >>= finish_name

unfoldable pub domain_name2wire : Text → Result Bytes
unfolding ascii_to_lower
domain_name2wire d = encode_domain_name d ascii_to_lower

unfoldable pub domain_name2wire_preserve_case : Text → Result Bytes
domain_name2wire_preserve_case d = encode_domain_name d (λ c. c)

pub record ParsedDomainName : Type 0 where
  pub name : Text
  pub next : ℕ

unfoldable pub assemble_name : List Text → Text
unfolding join
assemble_name [] = dot ∷ []
assemble_name (l ∷ ls) = join (dot ∷ []) (l ∷ ls) ++ dot ∷ []

-- The variables of `parse_domain_name`'s loop. `next` is none while it is -1.
pub record Cursor : Type 0 where
  pub labels : List Text
  pub pos : ℕ
  pub next : Option ℕ
  pub visited : List ℕ
  pub hops : ℕ

abbrev pub next_or : Option ℕ → ℕ → ℕ
next_or none p = p
next_or (some n) p = n

-- What one round of the loop does: go on, return or throw.
pub data Round : Type 0 where
  more : Cursor → Round
  done : ParsedDomainName → Round
  fail : Exception → Round

-- `b & 0xC0` and `((b & 0x3F) << 8) | low`, by arithmetic.
abbrev pub prefix_bits : ℕ → ℕ
prefix_bits b = b / 64 % 4

abbrev pub pointer_of : ℕ → ℕ → ℕ
pointer_of b low = be16 (b % 64) low

unfoldable pub follow_pointer : Bytes → Cursor → ℕ → Round
follow_pointer msg c b =
    let ptr = pointer_of b (byte_at msg (c.pos + 1)) in
    if leb (length msg) (c.pos + 1)
    then fail wire_error
    else if leb c.pos ptr
    then fail pointer_forward
    else if any (λ v. v == ptr) c.visited
    then fail pointer_loop
    else if ltb max_pointer_hops (c.hops + 1)
    then fail pointer_loop
    else more (record {
      labels = c.labels;
      pos = ptr;
      next = some (next_or c.next (c.pos + 2));
      visited = ptr ∷ c.visited;
      hops = c.hops + 1;
    })

unfoldable pub read_label : Bytes → Cursor → ℕ → Round
read_label msg c b =
    if ltb max_label_length b
    then fail wire_error
    else if ltb (length msg) (c.pos + 1 + b)
    then fail wire_error
    else more (record c {
      labels = c.labels ++ slice (c.pos + 1) (c.pos + 1 + b) msg ∷ [];
      pos = c.pos + 1 + b;
    })

unfoldable pub parse_octet : Bytes → Cursor → ℕ → Round
unfolding follow_pointer read_label assemble_name
parse_octet msg c b =
    if b == 0
    then done (record { name = assemble_name c.labels; next = next_or c.next (c.pos + 1) })
    else if prefix_bits b == 3
    then follow_pointer msg c b
    else if not (prefix_bits b == 0)
    then fail wire_error
    else read_label msg c b

-- `pos >= msg.length` or the octet at `pos`.
abbrev pub at_octet : Bytes → Cursor → Option ℕ → Round
at_octet msg c none = fail wire_error
at_octet msg c (some b) = parse_octet msg c b

unfoldable pub parse_round : Bytes → Cursor → Round
unfolding parse_octet
parse_round msg c = at_octet msg c (get_elem? msg c.pos)

unfoldable pub parse_loop : ℕ → Bytes → Cursor → Result ParsedDomainName
parse_loop zero msg c = stuck
parse_loop (suc fuel) msg c = elim (parse_round msg c) [
  | more c' ↦ parse_loop fuel msg c'
  | done p ↦ ok p
  | fail e ↦ err e
]

abbrev pub start_at : ℕ → Cursor
start_at offset = record { labels = []; pos = offset; next = none; visited = []; hops = 0 }

-- A pointer is followed 32 times at most, and each stretch between two takes an octet a round.
abbrev pub parse_fuel : Bytes → ℕ
parse_fuel msg = 33 * (length msg + 1)

unfoldable pub parse_domain_name : Bytes → ℕ → Result ParsedDomainName
parse_domain_name msg offset =
    if leb (length msg) offset
    then err wire_error
    else parse_loop (parse_fuel msg) msg (start_at offset)
