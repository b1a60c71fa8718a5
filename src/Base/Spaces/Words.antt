-- ===== src/Base/Spaces/Words.antt =====
-- Words joined by single spaces, and read back by `trim` and `split(/\s+/)`.
use dnsdata_js.Base.Lists.{all, All, is_empty}
use Prim.Native.Nat.{ℕ}
use mathlib.Core.Path.{subst, ◌≡◌, refl, sym, ap, ◌∙◌}
use mathlib.Core.Bool.{Bool, true, false, not, ◌&&◌}
use mathlib.Core.List.{
  List, [], ◌∷◌, ◌++◌, reverse, append_assoc, append-nil, reverse-append, reverse-reverse,
}
use dnsdata_js.Base.Text.{Text, join, cons_first}
use dnsdata_js.Base.Spaces.{is_space, drop_spaces, trim, split_spaces}

-- At least one unit, and no white space.
abbrev pub is_word : Text → Bool
is_word s = not (is_empty s) && all (λ c. not (is_space c)) s

-- The last unit is no white space.
abbrev EndsInWord : Text → Type 0
EndsInWord s = (p : Text) × (d : ℕ) × (s ≡ p ++ d ∷ []) × (is_space d ≡ false)

pub &&-true : (a b : Bool) → (a && b) ≡ true → (a ≡ true) × (b ≡ true)
&&-true true b h = (refl, h)
&&-true false b h = cc

not-true : (a : Bool) → not a ≡ true → a ≡ false
not-true true h = cc
not-true false h = refl

word-EndsInWord : (s : Text) → is_word s ≡ true → EndsInWord s
word-EndsInWord [] h = absurd (cc)
word-EndsInWord (c ∷ []) h =
    let (a, b) = &&-true (not (is_space c)) true h in ([], c, refl, not-true (is_space c) a)
word-EndsInWord (c ∷ e ∷ s) h =
    let (a, b) = &&-true (not (is_space c)) (all (λ x. not (is_space x)) (e ∷ s)) h in
    let (p, d, q, n) = word-EndsInWord (e ∷ s) b in (c ∷ p, d, ap (◌∷◌ c) q, n)

append-EndsInWord : (x y : Text) → EndsInWord y → EndsInWord (x ++ y)
append-EndsInWord x y (p, d, e, n) =
    (x ++ p, d, ap (λ (z : Text). x ++ z) e ∙ sym (append_assoc x p (d ∷ [])), n)

drop_spaces-word : (s t : Text) → is_word s ≡ true → drop_spaces (s ++ t) ≡ s ++ t
unfolding drop_spaces
drop_spaces-word [] t h = absurd (cc)
drop_spaces-word (c ∷ s) t h =
    let (a, b) = &&-true (not (is_space c)) (all (λ x. not (is_space x)) s) h in
    rw (not-true (is_space c) a) refl

drop_spaces-EndsInWord : (s : Text) → EndsInWord s → drop_spaces (reverse s) ≡ reverse s
unfolding drop_spaces
drop_spaces-EndsInWord s (p, d, e, n) = rw (e, reverse-append p (d ∷ []), n) refl

-- `trim` leaves what starts with a word and ends in one.
trim-words : (s t : Text) → is_word s ≡ true → EndsInWord (s ++ t) → trim (s ++ t) ≡ s ++ t
unfolding trim
trim-words s t h e =
    rw (drop_spaces-word s t h, drop_spaces-EndsInWord (s ++ t) e) (reverse-reverse (s ++ t))

split_spaces-last : (s : Text) → all (λ c. not (is_space c)) s ≡ true → split_spaces s ≡ s ∷ []
unfolding split_spaces
split_spaces-last [] h = refl
split_spaces-last (c ∷ s) h =
    let (a, b) = &&-true (not (is_space c)) (all (λ x. not (is_space x)) s) h in
    rw (not-true (is_space c) a) (ap (cons_first c) (split_spaces-last s b))

split_spaces-word :
    (s w t : Text)
    → all (λ c. not (is_space c)) s ≡ true
    → is_word w ≡ true
    → split_spaces (s ++ 32 ∷ (w ++ t)) ≡ s ∷ split_spaces (w ++ t)
unfolding split_spaces
split_spaces-word s [] t h k = absurd (cc)
split_spaces-word [] (e ∷ w) t h k =
    let (a, b) = &&-true (not (is_space e)) (all (λ x. not (is_space x)) w) k in
    rw (not-true (is_space e) a) refl
split_spaces-word (c ∷ s) (e ∷ w) t h k =
    let (a, b) = &&-true (not (is_space c)) (all (λ x. not (is_space x)) s) h in
    rw (not-true (is_space c) a) (ap (cons_first c) (split_spaces-word s (e ∷ w) t b k))

abbrev pub AreWords : List Text → Type 0
AreWords ws = All (λ (w : Text). is_word w ≡ true) ws

abbrev after : Text → List Text → Text
after sep [] = []
after sep (w ∷ ws) = sep ++ join sep (w ∷ ws)

join-after : (sep w : Text) (ws : List Text) → join sep (w ∷ ws) ≡ w ++ after sep ws
unfolding join
join-after sep w [] = sym (append-nil w)
join-after sep w (v ∷ ws) = append_assoc w sep (join sep (v ∷ ws))

join-EndsInWord :
    (w : Text) (ws : List Text) → AreWords (w ∷ ws) → EndsInWord (join (32 ∷ []) (w ∷ ws))
unfolding join
join-EndsInWord w [] (h, _) = word-EndsInWord w h
join-EndsInWord w (v ∷ ws) (h, k) =
    append-EndsInWord (w ++ 32 ∷ []) (join (32 ∷ []) (v ∷ ws)) (join-EndsInWord v ws k)

split_spaces-join :
    (w : Text) (ws : List Text)
    → AreWords (w ∷ ws)
    → split_spaces (join (32 ∷ []) (w ∷ ws)) ≡ w ∷ ws
unfolding join
split_spaces-join w [] (h, _) =
    let (a, b) = &&-true (not (is_empty w)) (all (λ c. not (is_space c)) w) h in
    split_spaces-last w b
split_spaces-join w (v ∷ ws) (h, (k, ks)) =
    let (a, b) = &&-true (not (is_empty w)) (all (λ c. not (is_space c)) w) h in
    ap split_spaces (
      append_assoc w (32 ∷ []) (join (32 ∷ []) (v ∷ ws))
      ∙ ap (λ (x : Text). w ++ 32 ∷ x) (join-after (32 ∷ []) v ws))
    ∙ (split_spaces-word w v (after (32 ∷ []) ws) b k
        ∙ ap (λ (x : Text). w ∷ split_spaces x) (sym (join-after (32 ∷ []) v ws))
        ∙ ap (λ (x : List Text). w ∷ x) (split_spaces-join v ws (k, ks)))

-- Words joined by spaces are read back.
pub split_spaces-trim-join :
    (w : Text) (ws : List Text)
    → AreWords (w ∷ ws)
    → split_spaces (trim (join (32 ∷ []) (w ∷ ws))) ≡ w ∷ ws
split_spaces-trim-join w ws (h, k) =
    let e = join-EndsInWord w ws (h, k) in
    ap split_spaces (
      ap trim (join-after (32 ∷ []) w ws)
      ∙ trim-words w (after (32 ∷ []) ws) h
          (subst (λ (x : Text). EndsInWord x) (join-after (32 ∷ []) w ws) e)
      ∙ sym (join-after (32 ∷ []) w ws))
    ∙ split_spaces-join w ws (h, k)
