-- ===== src/Dnssec/SignedZone/Digest/Order.antt =====
-- packages/core/src/dnssec/dnssec_zone.ts: the order and the repeats of the records of an RRset have
-- no part in what is signed.
use dnsdata_js.Base.{
  ℕ, List, [], ◌∷◌, All, ◌≡◌, refl, sym, ap, ◌∙◌, ◌↔◌, drop, take, length, ◌++◌, ◌/◌, ◌%◌, ◌^◌,
  take-append-drop,
}
use mathlib.Core.Path.{subst}
use dnsdata_js.Base.Slices.{Bytes}
use dnsdata_js.Base.Order.{
  Sign, less, equal, greater, opposite, Comparison, Comparison-on, equal_refl,
}
use dnsdata_js.Base.Among.{Among, here, there, All-Among, All-map_Among}
use dnsdata_js.Base.Sorting.{
  sort, drop_repeats, drop_repeats_of, Ascending, sort-Weakly, drop_repeats-Ascending, Among-sort,
  Stands-drop_repeats, unless_equal, All-sort, All-drop_repeats,
}
use dnsdata_js.Wire.Builder.{compare_uint8arrays}
use dnsdata_js.Wire.Builder.Order.{compare_uint8arrays-order}
use dnsdata_js.Dnssec.Canonical.Entries.{rdata-Comparison}
use dnsdata_js.Dnssec.SignedZone.Digest.{compare_rdata, canonical_rrset_order}

rdata_order : Comparison compare_rdata
unfolding compare_rdata
rdata_order = Comparison-on (λ (b : Bytes). drop 2 b) compare_uint8arrays rdata-Comparison

-- A body as `get_wire_body` writes it: two octets with the length of the rest.
abbrev pub IsFramed : Bytes → Type 0
IsFramed b = let n : ℕ = length (drop 2 b) in take 2 b ≡ n / 2 ^ 8 % 256 ∷ n % 256 ∷ []

framed-same : (a b : Bytes) → IsFramed a → IsFramed b → drop 2 a ≡ drop 2 b → a ≡ b
framed-same a b f g e =
    sym (take-append-drop 2 a)
    ∙ ap (λ (x : Bytes). x ++ drop 2 a)
        (f ∙ ap (λ (r : Bytes). length r / 2 ^ 8 % 256 ∷ length r % 256 ∷ []) e ∙ sym g)
    ∙ ap (λ (r : Bytes). take 2 b ++ r) e
    ∙ take-append-drop 2 b

compare_rdata-same : (a b : Bytes) → IsFramed a → IsFramed b → compare_rdata a b ≡ equal → a ≡ b
unfolding compare_rdata
compare_rdata-same a b f g e =
    let (flip, (trans, (to, from))) = compare_uint8arrays-order (drop 2 a) (drop 2 b) [] in
    framed-same a b f g (to e)

compare_both :
    (a b : Bytes)
    → IsFramed a
    → IsFramed b
    → (compare_uint8arrays a b ≡ equal) ↔ (compare_rdata a b ≡ equal)
unfolding compare_rdata
compare_both a b f g =
    let (flip, (trans, (to, from))) = compare_uint8arrays-order a b [] in
    (
      λ e.
          subst (λ (x : Bytes). compare_rdata a x ≡ equal) (to e)
            (equal_refl compare_rdata rdata_order a),
      λ e. from (compare_rdata-same a b f g e),
    )

unless_equal-both {ℓ} :
    {A : Type ℓ} (s t : Sign) (x : A) (rest : List A)
    → (s ≡ equal) ↔ (t ≡ equal)
    → unless_equal s x rest ≡ unless_equal t x rest
unless_equal-both less less x rest h = refl
unless_equal-both less equal x rest (to, from) = let e = from refl in absurd (cc)
unless_equal-both less greater x rest h = refl
unless_equal-both equal less x rest (to, from) = let e = to refl in absurd (cc)
unless_equal-both equal equal x rest h = refl
unless_equal-both equal greater x rest (to, from) = let e = to refl in absurd (cc)
unless_equal-both greater less x rest h = refl
unless_equal-both greater equal x rest (to, from) = let e = from refl in absurd (cc)
unless_equal-both greater greater x rest h = refl

drop_repeats_of-both :
    (p : Bytes) (xs : List Bytes)
    → IsFramed p
    → All IsFramed xs
    → drop_repeats_of compare_uint8arrays p xs ≡ drop_repeats_of compare_rdata p xs
unfolding drop_repeats_of
drop_repeats_of-both p [] f h = refl
drop_repeats_of-both p (x ∷ xs) f (g, h) =
    unless_equal-both (compare_uint8arrays p x) (compare_rdata p x) x
      (drop_repeats_of compare_uint8arrays x xs) (compare_both p x f g)
    ∙ ap (unless_equal (compare_rdata p x) x) (drop_repeats_of-both x xs g h)

drop_repeats-both :
    (xs : List Bytes)
    → All IsFramed xs
    → drop_repeats compare_uint8arrays xs ≡ drop_repeats compare_rdata xs
unfolding drop_repeats
drop_repeats-both [] h = refl
drop_repeats-both (x ∷ xs) (f, h) = ap (λ (r : List Bytes). x ∷ r) (drop_repeats_of-both x xs f h)

-- Two strictly ascending lists with the same elements are the same.
heads_same :
    (x y : Bytes) (xs ys : List Bytes)
    → All (λ (z : Bytes). compare_rdata x z ≡ less) xs
    → All (λ (z : Bytes). compare_rdata y z ≡ less) ys
    → Among x (y ∷ ys)
    → Among y (x ∷ xs)
    → x ≡ y
heads_same x _ xs ys h k here m = refl
heads_same x y xs ys h k (there m) here = refl
heads_same x y xs ys h k (there m) (there n) =
    let l : compare_rdata x y ≡ less =
      All-Among (λ (z : Bytes). compare_rdata x z ≡ less) y xs n h in
    let r : compare_rdata y x ≡ less =
      All-Among (λ (z : Bytes). compare_rdata y z ≡ less) x ys m k in
    let f : compare_rdata y x ≡ opposite (compare_rdata x y) = rdata_order.flip x y in
    let g : compare_rdata y x ≡ greater = f ∙ ap opposite l in absurd (cc)

tail_of :
    (x : Bytes) (xs ys : List Bytes)
    → All (λ (z : Bytes). compare_rdata x z ≡ less) xs
    → ((z : Bytes) → Among z (x ∷ xs) → Among z (x ∷ ys))
    → (z : Bytes) → Among z xs
    → Among z ys
tail_of x xs ys h w z m =
    let l : compare_rdata x z ≡ less =
      All-Among (λ (u : Bytes). compare_rdata x u ≡ less) z xs m h in
    behind x z ys l (w z (there m))
  where
    behind :
        (x z : Bytes) (ys : List Bytes) → compare_rdata x z ≡ less → Among z (x ∷ ys) → Among z ys
    behind x _ ys l here =
        let e : compare_rdata x x ≡ equal = equal_refl compare_rdata rdata_order x in absurd (cc)
    behind x z ys l (there m) = m

Ascending-unique :
    (xs ys : List Bytes)
    → Ascending compare_rdata xs
    → Ascending compare_rdata ys
    → ((z : Bytes) → Among z xs → Among z ys)
    → ((z : Bytes) → Among z ys → Among z xs)
    → xs ≡ ys
Ascending-unique [] [] a b to from = refl
Ascending-unique [] (y ∷ ys) a b to from = let n = from y here in elim n [ ]
Ascending-unique (x ∷ xs) [] a b to from = let n = to x here in elim n [ ]
Ascending-unique (x ∷ xs) (y ∷ ys) (h, a) (k, b) to from =
    let same : x ≡ y = heads_same x y xs ys h k (to x here) (from y here) in
    let k' : All (λ (z : Bytes). compare_rdata x z ≡ less) ys =
      subst (λ (u : Bytes). All (λ (z : Bytes). compare_rdata u z ≡ less) ys) (sym same) k in
    let to' = λ (z : Bytes) (m : Among z (x ∷ xs)).
      subst (λ (u : Bytes). Among z (u ∷ ys)) (sym same) (to z m) in
    let from' = λ (z : Bytes) (m : Among z (x ∷ ys)).
      from z (subst (λ (u : Bytes). Among z (u ∷ ys)) same m) in
    ap (λ (u : Bytes). u ∷ xs) same
    ∙ ap (λ (r : List Bytes). y ∷ r)
        (Ascending-unique xs ys a b (tail_of x xs ys h to') (tail_of x ys xs k' from'))

module _ (bodies : List Bytes) (framed : All IsFramed bodies) where
  order-both : canonical_rrset_order bodies ≡ drop_repeats compare_rdata (sort compare_rdata bodies)
  unfolding canonical_rrset_order
  order-both =
      drop_repeats-both (sort compare_rdata bodies) (All-sort compare_rdata IsFramed bodies framed)

  canonical_rrset_order-Ascending : Ascending compare_rdata (canonical_rrset_order bodies)
  canonical_rrset_order-Ascending =
      subst (λ (r : List Bytes). Ascending compare_rdata r) (sym order-both)
        (drop_repeats-Ascending compare_rdata rdata_order (sort compare_rdata bodies)
          (sort-Weakly compare_rdata rdata_order bodies))

  kept-all : (P : Bytes → Type 0) → All P bodies → All P (canonical_rrset_order bodies)
  kept-all P h =
      subst (λ (r : List Bytes). All P r) (sym order-both)
        (All-drop_repeats compare_rdata P (sort compare_rdata bodies)
          (All-sort compare_rdata P bodies h))

  kept-some : (x : Bytes) → Among x bodies → Among x (canonical_rrset_order bodies)
  kept-some x m =
      let (y, k, e) =
        Stands-drop_repeats compare_rdata rdata_order x (sort compare_rdata bodies)
          (Among-sort compare_rdata x bodies m) in
      let k' : Among y (canonical_rrset_order bodies) =
        subst (λ (r : List Bytes). Among y r) (sym order-both) k in
      let f_y = All-Among IsFramed y (canonical_rrset_order bodies) k' (kept-all IsFramed framed) in
      let f_x = All-Among IsFramed x bodies m framed in
      subst (λ (u : Bytes). Among u (canonical_rrset_order bodies))
        (compare_rdata-same y x f_y f_x e) k'

  kept-in : (x : Bytes) → Among x (canonical_rrset_order bodies) → Among x bodies
  kept-in x m =
      All-Among (λ (u : Bytes). Among u bodies) x (canonical_rrset_order bodies) m
        (kept-all (λ (u : Bytes). Among u bodies)
          (All-map_Among (λ (u : Bytes). Among u bodies) bodies (λ u k. k)))

-- For bodies that carry their own length, `canonical_rrset_order` depends on the set of the bodies
-- only: neither their order nor their repeats change what is digested.
pub canonical_rrset_order-set :
    (bodies others : List Bytes)
    → All IsFramed bodies
    → All IsFramed others
    → ((x : Bytes) → (Among x bodies) ↔ (Among x others))
    → canonical_rrset_order bodies ≡ canonical_rrset_order others
canonical_rrset_order-set bodies others f g h =
    Ascending-unique (canonical_rrset_order bodies) (canonical_rrset_order others)
      (canonical_rrset_order-Ascending bodies f) (canonical_rrset_order-Ascending others g)
      (λ x m. let (to, from) = h x in kept-some others g x (to (kept-in bodies f x m)))
      (λ x m. let (to, from) = h x in kept-some bodies f x (from (kept-in others g x m)))
