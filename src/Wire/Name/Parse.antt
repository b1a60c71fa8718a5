-- ===== src/Wire/Name/Parse.antt =====
-- `parse_domain_name` on any input: it ends, and the offset that it returns is in range.
pub mod RoundTrip
pub mod Pointers
pub mod Forward
use dnsdata_js.Base.{
  ℕ, zero, suc, ◌+◌, ◌-◌, ◌*◌, ◌≤◌, ◌<◌, ◌≡◌, refl, sym, ap, ◌∙◌, arith, Option, none, some, List,
  [], ◌∷◌, ◌++◌, length, get_elem?, Option-cases, inl, inr, leb, Bool-cases, le→leb, leb→le,
}
use dnsdata_js.Base.Slices.{Bytes, byte_at, get_elem?-some_lt}
use dnsdata_js.Base.Result.{Result, ok, err, stuck, IsReached, Returned}
use dnsdata_js.Wire.Name.{
  Cursor, Round, more, done, fail, next_or, pointer_of, follow_pointer, read_label, parse_octet,
  parse_round, at_octet, parse_loop, parse_fuel, start_at, parse_domain_name, ParsedDomainName,
}

-- `next` once it is set, and the current position before, lies behind `start` and in the message.
abbrev NextInRange : ℕ → Bytes → Option ℕ → ℕ → Type 0
NextInRange start msg none pos = start ≤ pos
NextInRange start msg (some n) pos = (start < n) × (n ≤ length msg)

record CursorInv (start : ℕ) (msg : Bytes) (c : Cursor) : Type 0 where
  in_message : c.pos ≤ length msg
  few_hops : c.hops ≤ 32
  next_in_range : NextInRange start msg c.next c.pos

-- The rounds left: those up to the end of the message for each pointer that may still follow.
abbrev weight : Bytes → Cursor → ℕ
weight msg c = (32 - c.hops) * (length msg + 1) + (length msg - c.pos)

abbrev RoundInv : ℕ → Bytes → Cursor → Round → Type 0
RoundInv start msg c (more c') = CursorInv start msg c' × (weight msg c' < weight msg c)
RoundInv start msg c (done p) = (start < p.next) × (p.next ≤ length msg)
RoundInv start msg c (fail e) = Unit

hop_weight :
    (h n p q : ℕ)
    → h + 1 ≤ 32
    → q < p
    → p < n
    → (32 - (h + 1)) * (n + 1) + (n - q) < (32 - h) * (n + 1) + (n - p)
hop_weight h n p q few back inside =
    let e : (32 - h) * (n + 1) ≡ (32 - (h + 1)) * (n + 1) + (n + 1) =
      ap (λ (k : ℕ). k * (n + 1)) {x = 32 - h} {y = 32 - (h + 1) + 1} (omega arith) ∙ omega arith in
    omega arith

follow_pointer-RoundInv :
    (start : ℕ) (msg : Bytes) (c : Cursor) (b : ℕ)
    → CursorInv start msg c
    → c.pos < length msg
    → RoundInv start msg c (follow_pointer msg c b)
unfolding follow_pointer
follow_pointer-RoundInv start msg c b v lt =
    let ptr = pointer_of b (byte_at msg (c.pos + 1)) in
    let lighter = hop_weight c.hops (length msg) c.pos ptr in
    elim (Option-cases c.next) [
      | inl e ↦ ground (arith, e, lighter)
      | inr (n, e) ↦ ground (arith, e, lighter)
    ]

read_label-RoundInv :
    (start : ℕ) (msg : Bytes) (c : Cursor) (b : ℕ)
    → CursorInv start msg c
    → c.pos < length msg
    → RoundInv start msg c (read_label msg c b)
unfolding read_label
read_label-RoundInv start msg c b v lt = elim (Option-cases c.next) [
  | inl e ↦ ground (arith, e)
  | inr (n, e) ↦ ground (arith, e)
]

at_octet-RoundInv :
    (start : ℕ) (msg : Bytes) (c : Cursor) (o : Option ℕ)
    → CursorInv start msg c
    → get_elem? msg c.pos ≡ o
    → RoundInv start msg c (at_octet msg c o)
unfolding parse_octet
at_octet-RoundInv start msg c none v e = tt
at_octet-RoundInv start msg c (some b) v e =
    let lt = get_elem?-some_lt msg c.pos b e in
    let jump = follow_pointer-RoundInv start msg c b v lt in
    let text = read_label-RoundInv start msg c b v lt in
    elim (Option-cases c.next) [
      | inl n ↦ ground (arith, n, lt, jump, text)
      | inr (m, n) ↦ ground (arith, n, lt, jump, text)
    ]

parse_round-RoundInv :
    (start : ℕ) (msg : Bytes) (c : Cursor)
    → CursorInv start msg c
    → RoundInv start msg c (parse_round msg c)
unfolding parse_round
parse_round-RoundInv start msg c v = at_octet-RoundInv start msg c (get_elem? msg c.pos) v refl

abbrev pub InRange : ℕ → Bytes → Result ParsedDomainName → Type 0
InRange start msg (ok p) = (start < p.next) × (p.next ≤ length msg)
InRange start msg (err e) = Unit
InRange start msg stuck = ⊥

parse_loop-InRange :
    (start fuel : ℕ) (msg : Bytes) (c : Cursor)
    → CursorInv start msg c
    → weight msg c < fuel
    → InRange start msg (parse_loop fuel msg c)
unfolding parse_loop
parse_loop-InRange start zero msg c v w = absurd (omega arith)
parse_loop-InRange start (suc fuel) msg c v w =
    after (parse_round msg c) (parse_round-RoundInv start msg c v)
      (λ c' v' w'. parse_loop-InRange start fuel msg c' v' w')
  where
    after :
        (r : Round)
        → RoundInv start msg c r
        → ((c' : Cursor)
            → CursorInv start msg c'
            → weight msg c' < fuel
            → InRange start msg (parse_loop fuel msg c'))
        → InRange start msg
            (elim r [ more c' ↦ parse_loop fuel msg c' | done p ↦ ok p | fail e ↦ err e ])
    after (more c') h ih = ih c' h.0 (omega arith)
    after (done p) h ih = h
    after (fail e) h ih = tt

-- `parse_domain_name` ends on every message and offset: it returns or throws, and the offset that
-- it returns lies behind the one it was given and within the message.
pub parse_domain_name-InRange :
    (msg : Bytes) (offset : ℕ) → InRange offset msg (parse_domain_name msg offset)
unfolding parse_domain_name
parse_domain_name-InRange msg offset = elim (Bool-cases (leb (length msg) offset)) [
  | inl out ↦ rw out tt
  | inr within ↦ rw within (
      parse_loop-InRange offset (parse_fuel msg) msg (start_at offset)
        (record { in_message = ground arith; few_hops = omega arith; next_in_range = omega arith })
        (ground arith))
]
