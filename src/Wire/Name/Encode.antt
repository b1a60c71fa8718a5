-- ===== src/Wire/Name/Encode.antt =====
-- What `encode_domain_name` writes, for every name and either case mapping.
pub mod Inverse
pub mod RoundTrip
use dnsdata_js.Base.{
  ℕ, zero, suc, ◌+◌, ◌-◌, ◌%◌, ◌≤◌, ◌<◌, ◌≡◌, ◌≢◌, refl, sym, ap, ◌∙◌, arith, Bool, true, false,
  not, ◌&&◌, ◌⊎◌, inl, inr, List, [], ◌∷◌, ◌++◌, map, append-nil, append_assoc, length,
  length-append, length-map, All, All-append, is_empty, ltb, ◌==◌, if◌then◌else◌, Bool-cases,
  le→ltb_false, lt→ltb,
}
use mathlib.Core.Path.{ap₂}
use dnsdata_js.Base.Slices.{Bytes, IsByte}
use dnsdata_js.Base.Result.{Result, ok, err, stuck, ◌>>=◌, >>=-eq-ok, wire_error, IsReached}
use dnsdata_js.Base.Text.{Text, dot, ends_with_dot}
use dnsdata_js.Wire.Name.{
  label_from, from_dot, push_label, encode_loop, finish_name, encode_domain_name,
}
use dnsdata_js.Wire.Name.Labels.{NoDot, wire_labels, wire_of, dotted}

label_from-dot : (l rest : Text) → NoDot l → label_from (l ++ dot ∷ rest) ≡ l
unfolding label_from
label_from-dot [] rest h = refl
label_from-dot (c ∷ l) rest h = ground (arith, label_from-dot l rest h.1)

from_dot-dot : (l rest : Text) → NoDot l → from_dot (l ++ dot ∷ rest) ≡ dot ∷ rest
unfolding from_dot
from_dot-dot [] rest h = refl
from_dot-dot (c ∷ l) rest h = ground (arith, from_dot-dot l rest h.1)

-- A text is its first label and what is left from the dot on.
pub label_from-append-from_dot : (d : Text) → label_from d ++ from_dot d ≡ d
unfolding label_from from_dot
label_from-append-from_dot [] = refl
label_from-append-from_dot (c ∷ d) = ground (arith, label_from-append-from_dot d)

pub label_from-NoDot : (d : Text) → NoDot (label_from d)
unfolding label_from
label_from-NoDot [] = tt
label_from-NoDot (c ∷ d) = ground (arith, label_from-NoDot d)

-- What stands at the front of what is left is a dot.
pub from_dot_cases : (d : Text) → (from_dot d ≡ []) ⊎ ((r : Text) × (from_dot d ≡ dot ∷ r))
unfolding from_dot
from_dot_cases [] = inl refl
from_dot_cases (c ∷ d) = elim (Bool-cases (c == dot)) [
  | inl e ↦ inr (d, ground (arith))
  | inr e ↦ rw e (from_dot_cases d)
]

-- A label that the encoders take: 1 to 63 units, none of them a dot.
abbrev pub IsPlain : Text → Type 0
IsPlain l = (1 ≤ length l) × (length l ≤ 63) × NoDot l

push_label-IsPlain :
    (fold : ℕ → ℕ) (first at_dot : Bool) (l : Text) (bytes : Bytes)
    → 1 ≤ length l
    → length l ≤ 63
    → push_label fold first at_dot l bytes ≡ ok (bytes ++ length l ∷ map fold l)
unfolding push_label
push_label-IsPlain fold first at_dot [] bytes lo hi = absurd (omega arith)
push_label-IsPlain fold first at_dot (c ∷ l) bytes lo hi = rw (le→ltb_false 63 (length (c ∷ l)) hi)

encode_loop_step :
    (fold : ℕ → ℕ) (fuel : ℕ) (first : Bool) (l rest : Text) (bytes : Bytes)
    → IsPlain l
    → encode_loop fold (suc fuel) first (l ++ dot ∷ rest) bytes
      ≡ encode_loop fold fuel false rest (
          if is_empty rest
          then (bytes ++ length l ∷ map fold l) ++ 0 ∷ []
          else bytes ++ length l ∷ map fold l)
unfolding encode_loop
encode_loop_step fold fuel first [] rest bytes v = absurd (omega arith)
encode_loop_step fold fuel first (c ∷ l) rest bytes v =
    rw (label_from-dot (c ∷ l) rest v.2, from_dot-dot (c ∷ l) rest v.2)
      (rw (push_label-IsPlain fold first true (c ∷ l) bytes v.0 v.1))

abbrev pub folded : (ℕ → ℕ) → List Text → List Text
folded fold ls = map (map fold) ls

dotted-is_empty : (l : Text) (ls : List Text) → is_empty (dotted (l ∷ ls)) ≡ false
dotted-is_empty [] ls = refl
dotted-is_empty (c ∷ l) ls = refl

-- The front of the wire form that one round writes.
pub wire_split :
    (bytes l : Bytes) (ms : List Text) (n : ℕ)
    → n ≡ length l
    → (bytes ++ n ∷ l) ++ wire_of ms ≡ bytes ++ wire_of (l ∷ ms)
wire_split bytes l ms n e = rw e (
    append_assoc bytes (length l ∷ l) (wire_of ms)
    ∙ ap (λ (t : Bytes). bytes ++ length l ∷ t) (sym (append_assoc l (wire_labels ms) (0 ∷ []))))

pub encode_loop-nil :
    (fold : ℕ → ℕ) (fuel : ℕ) (first : Bool) (bytes : Bytes)
    → encode_loop fold fuel first [] bytes ≡ ok bytes
unfolding encode_loop
encode_loop-nil fold zero first bytes = refl
encode_loop-nil fold (suc fuel) first bytes = refl

encode_loop-dotted :
    (fold : ℕ → ℕ) (ls : List Text) (l : Text) (fuel : ℕ) (first : Bool) (bytes : Bytes)
    → length ls < fuel
    → All IsPlain (l ∷ ls)
    → encode_loop fold fuel first (dotted (l ∷ ls)) bytes
      ≡ ok (bytes ++ wire_of (folded fold (l ∷ ls)))
encode_loop-dotted fold ls l zero first bytes lt v = absurd (omega arith)
encode_loop-dotted fold [] l (suc fuel) first bytes lt v =
    encode_loop_step fold fuel first l [] bytes v.0
    ∙ encode_loop-nil fold fuel false ((bytes ++ length l ∷ map fold l) ++ 0 ∷ [])
    ∙ ap ok (wire_split bytes (map fold l) [] (length l) (sym (length-map l fold)))
encode_loop-dotted fold (m ∷ ls) l (suc fuel) first bytes lt v =
    encode_loop_step fold fuel first l (dotted (m ∷ ls)) bytes v.0
    ∙ rw (dotted-is_empty m ls)
        (encode_loop-dotted fold ls m fuel false (bytes ++ length l ∷ map fold l) (omega arith) v.1)
    ∙ ap ok
        (wire_split bytes (map fold l) (folded fold (m ∷ ls)) (length l) (sym (length-map l fold)))

pub finish_name-IsByte :
    (bytes : Bytes) → length bytes ≤ 255 → All IsByte bytes → finish_name bytes ≡ ok bytes
unfolding finish_name
finish_name-IsByte bytes short v = rw (le→ltb_false 255 (length bytes) short) (ap ok (kept bytes v))
  where
    kept : (bs : Bytes) → All IsByte bs → map (λ b. b % 256) bs ≡ bs
    kept [] v = refl
    kept (b ∷ bs) (p, v) =
        ap₂ (λ (x : ℕ) (xs : Bytes). x ∷ xs) {x = b % 256} (omega arith) (kept bs v)

-- Every name is spelled with its octets: no unit is above 255.
abbrev pub Maps : (ℕ → ℕ) → Text → Type 0
Maps fold l = All IsByte (map fold l)

pub wire_of-IsByte :
    (fold : ℕ → ℕ) (ls : List Text)
    → All IsPlain ls
    → All (Maps fold) ls
    → All IsByte (wire_of (folded fold ls))
wire_of-IsByte fold [] v w = omega arith
wire_of-IsByte fold (l ∷ ls) (p, v) (q, w) = (
  omega (arith, length-map l fold),
  rw (append_assoc)
      (All-append IsByte (map fold l) (wire_of (folded fold ls)) q (wire_of-IsByte fold ls v w)),
)

length-wire_of :
    (fold : ℕ → ℕ) (ls : List Text) → length (wire_of (folded fold ls)) ≡ length (dotted ls) + 1
length-wire_of fold [] = refl
length-wire_of fold (l ∷ ls) = omega (
  arith,
  ap length (append_assoc (map fold l) (wire_labels (folded fold ls)) (0 ∷ [])),
  length-append (map fold l) (wire_of (folded fold ls)),
  length-append l (dot ∷ dotted ls),
  length-map l fold,
  length-wire_of fold ls,
)

length-le-dotted : (ls : List Text) → length ls ≤ length (dotted ls)
length-le-dotted [] = omega arith
length-le-dotted (l ∷ ls) = omega (arith, length-append l (dot ∷ dotted ls), length-le-dotted ls)

-- A fully qualified name of labels of 1 to 63 units, 254 units in all, is encoded as its labels
-- under the case mapping, each behind its length, and the root's zero.
pub encode_domain_name-dotted :
    (fold : ℕ → ℕ) (l : Text) (ls : List Text)
    → All IsPlain (l ∷ ls)
    → All (Maps fold) (l ∷ ls)
    → length (dotted (l ∷ ls)) ≤ 254
    → encode_domain_name (dotted (l ∷ ls)) fold ≡ ok (wire_of (folded fold (l ∷ ls)))
unfolding encode_domain_name
encode_domain_name-dotted fold l ls v w short =
    rw
      (encode_loop-dotted fold ls l (length (dotted (l ∷ ls))) true []
        (omega (arith, length-append l (dot ∷ dotted ls), length-le-dotted ls)) v)
      (finish_name-IsByte (wire_of (folded fold (l ∷ ls)))
        (omega (arith, length-wire_of fold (l ∷ ls))) (wire_of-IsByte fold (l ∷ ls) v w))
