-- ===== src/Wire/Name/Labels.antt =====
-- Sequences of labels, and the two forms of a name that they make: the wire form and the text.
use dnsdata_js.Base.{
  ◌≤◌, ◌≡◌, ◌≢◌, refl, ap, ◌∙◌, arith, List, [], ◌∷◌, ◌++◌, append_assoc, length, length-append,
  All,
}
use dnsdata_js.Base.Slices.{Bytes, IsByte}
use dnsdata_js.Base.Text.{Text, dot, join}
use dnsdata_js.Wire.Name.{assemble_name}

-- No unit is a dot.
abbrev pub NoDot : Text → Type 0
NoDot label = All (λ c. c ≢ dot) label

-- A label of 1 to 63 octets.
abbrev pub IsLabel : Text → Type 0
IsLabel label = (1 ≤ length label) × (length label ≤ 63) × All IsByte label

-- The length octet and the octets of each label, and the root's zero.
abbrev pub wire_labels : List Text → Bytes
wire_labels [] = []
wire_labels (l ∷ ls) = length l ∷ (l ++ wire_labels ls)

abbrev pub wire_of : List Text → Bytes
wire_of ls = wire_labels ls ++ 0 ∷ []

-- Each label with a dot behind it.
abbrev pub dotted : List Text → Text
dotted [] = []
dotted (l ∷ ls) = l ++ dot ∷ dotted ls

join-dotted : (l : Text) (ls : List Text) → join (dot ∷ []) (l ∷ ls) ++ dot ∷ [] ≡ dotted (l ∷ ls)
unfolding join
join-dotted l [] = refl
join-dotted l (m ∷ ls) =
    append_assoc (l ++ dot ∷ []) (join (dot ∷ []) (m ∷ ls)) (dot ∷ [])
    ∙ append_assoc l (dot ∷ []) (join (dot ∷ []) (m ∷ ls) ++ dot ∷ [])
    ∙ ap (λ (t : Text). l ++ dot ∷ t) (join-dotted m ls)

-- `assemble_name` puts a dot behind each label; the root is a single dot.
pub assemble_name-dotted : (l : Text) (ls : List Text) → assemble_name (l ∷ ls) ≡ dotted (l ∷ ls)
unfolding assemble_name
assemble_name-dotted l ls = join-dotted l ls

pub wire_labels-append :
    (ls ms : List Text) → wire_labels (ls ++ ms) ≡ wire_labels ls ++ wire_labels ms
wire_labels-append [] ms = refl
wire_labels-append (l ∷ ls) ms =
    ap (λ (t : Bytes). length l ∷ t) (rw (append_assoc, wire_labels-append ls ms))

pub length-wire_labels : (ls : List Text) → length (wire_labels ls) ≡ length (dotted ls)
length-wire_labels [] = refl
length-wire_labels (l ∷ ls) = omega (
  arith,
  length-append l (wire_labels ls),
  length-append l (dot ∷ dotted ls),
  length-wire_labels ls,
)
