-- ===== src/Resolver/Stream/Taking.antt =====
-- packages/core/src/resolver/stream.ts: what `take` removes from the chunks.
use dnsdata_js.Base.{
  ℕ, zero, suc, ◌-◌, ◌≤◌, min, List, [], ◌∷◌, ◌++◌, ◌==◌, length, take, drop, ◌≡◌, refl, sym, ap,
  ◌∙◌, arith, append_assoc, append-nil, length-append, length-take, take-append-drop, Bool-cases,
  inl, inr,
}
use dnsdata_js.Base.Slices.{Bytes}
use dnsdata_js.Base.Result.{ok}
use dnsdata_js.Resolver.Stream.{take_chunks}

-- The octets of the chunks, in order.
unfoldable pub joined : List Bytes → Bytes
joined [] = []
joined (c ∷ cs) = c ++ joined cs

pub joined-append : (cs : List Bytes) (c : Bytes) → joined (cs ++ c ∷ []) ≡ joined cs ++ c
unfolding joined
joined-append [] c = append-nil c
joined-append (d ∷ cs) c = rw (joined-append cs c, append_assoc) refl

-- What a read takes, and the rest.
pub record Taken (n : ℕ) (chunks : List Bytes) : Type 0 where
  pub out : Bytes
  pub left : List Bytes
  pub taken : take_chunks n chunks ≡ ok (out, left)
  pub in_order : out ++ joined left ≡ joined chunks
  pub exact : length out ≡ n

take_all : (xs : Bytes) (n : ℕ) → n ≡ length xs → take n xs ≡ xs
take_all [] zero h = refl
take_all [] (suc n) h = refl
take_all (x ∷ xs) zero h = absurd (omega arith)
take_all (x ∷ xs) (suc n) h = ap (◌∷◌ x) (take_all xs n (omega arith))

pub take_chunks-Taken : (n : ℕ) (chunks : List Bytes) → n ≤ length (joined chunks) → Taken n chunks
unfolding take_chunks joined
take_chunks-Taken zero chunks h = record {
  out = [];
  left = chunks;
  taken = refl;
  in_order = refl;
  exact = refl;
}
take_chunks-Taken (suc m) [] h = absurd (omega arith)
take_chunks-Taken (suc m) (head ∷ chunks) h =
    elim (Bool-cases (min (length head) (suc m) == length head)) [
      | inl t ↦
          let e : min (length head) (suc m) ≡ length head = ground arith in
          let r =
            take_chunks-Taken (suc m - min (length head) (suc m)) chunks
              (omega (arith, length-append head (joined chunks))) in
          record {
            out = take (min (length head) (suc m)) head ++ r.out;
            left = r.left;
            taken = rw (t, r.taken) refl;
            in_order =
                rw (append_assoc, r.in_order, take_all head (min (length head) (suc m)) e) refl;
            exact = omega (
              arith,
              length-append (take (min (length head) (suc m)) head) r.out,
              length-take (min (length head) (suc m)) head,
              r.exact,
            );
          }
      | inr f ↦ record {
        out = take (min (length head) (suc m)) head;
        left = drop (min (length head) (suc m)) head ∷ chunks;
        taken = rw f refl;
        in_order =
            sym (
              append_assoc (take (min (length head) (suc m)) head)
                (drop (min (length head) (suc m)) head) (joined chunks))
            ∙ ap (λ (xs : Bytes). xs ++ joined chunks)
                (take-append-drop (min (length head) (suc m)) head);
        exact = length-take (min (length head) (suc m)) head ∙ ground arith;
      }
    ]
