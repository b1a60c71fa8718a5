-- ===== src/Resolver/Stream/Order.antt =====
-- packages/core/src/resolver/stream.ts: no octet is lost, repeated or reordered.
use dnsdata_js.Base.{
  ℕ, ◌+◌, Bool, true, false, Option, none, some, List, [], ◌∷◌, ◌++◌, leb, if◌then◌else◌, length,
  ◌≡◌, refl, sym, ap, ◌∙◌, arith, append_assoc, append-nil, length-append, leb→le,
}
use dnsdata_js.Base.Slices.{Bytes}
use dnsdata_js.Base.Result.{Result, ok, err, stuck, ◌>>=◌}
use dnsdata_js.Resolver.Stream.Taking.{joined, joined-append, Taken, take_chunks-Taken}
use dnsdata_js.Resolver.Stream.{
  SocketStream, Event, on_data, on_end, on_error, on_close, on_timeout, on_abort, close, recv_exact,
  Outcome, resolved, rejected, Failure, take_chunks, try_resolve, try_resolve_pending, step, run,
  resolve_with, reject_pending,
}

-- The count of buffered octets is right.
abbrev pub IsCounted : SocketStream → Type 0
IsCounted s = s.buffered_len ≡ length (joined s.chunks)

-- The octets handed out, in order.
unfoldable pub delivered : List Outcome → Bytes
delivered [] = []
delivered (resolved out ∷ os) = out ++ delivered os
delivered (rejected why ∷ os) = delivered os

delivered-append : (os ps : List Outcome) → delivered (os ++ ps) ≡ delivered os ++ delivered ps
unfolding delivered
delivered-append [] ps = refl
delivered-append (resolved out ∷ os) ps = rw (delivered-append os ps, append_assoc) refl
delivered-append (rejected why ∷ os) ps = delivered-append os ps

-- The octets that events bring.
unfoldable pub arrived : List Event → Bytes
arrived [] = []
arrived (on_data c ∷ es) = c ++ arrived es
arrived (_ ∷ es) = arrived es

-- A result with no exception, in which what was handed out and what is still held are `octets`.
abbrev pub Holds : Bytes → Result (SocketStream × List Outcome) → Type 0
Holds octets (ok (t, outs)) =
    (t.buffered_len ≡ length (joined t.chunks)) × (delivered outs ++ joined t.chunks ≡ octets)
Holds octets (err e) = ⊥
Holds octets stuck = ⊥

Holds-if :
    (octets : Bytes) (b : Bool) (x y : Result (SocketStream × List Outcome))
    → (b ≡ true → Holds octets x)
    → (b ≡ false → Holds octets y)
    → Holds octets (if b then x else y)
Holds-if octets true x y h k = h refl
Holds-if octets false x y h k = k refl

resolve_with-Holds :
    (s : SocketStream) (n : ℕ)
    → IsCounted s
    → Taken n s.chunks
    → Holds (joined s.chunks) (resolve_with s n (take_chunks n s.chunks))
unfolding resolve_with delivered
resolve_with-Holds s n h t =
    let whole : length (t.out ++ joined t.left) ≡ length (joined s.chunks) = ap length t.in_order in
    rw t.taken (
      omega (arith, length-append t.out (joined t.left), t.exact),
      rw (append-nil t.out) t.in_order,
    )

try_resolve-Holds :
    (s : SocketStream) (p : Option ℕ) → IsCounted s → Holds (joined s.chunks) (try_resolve s p)
unfolding try_resolve delivered
try_resolve-Holds s none h = (h, refl)
try_resolve-Holds s (some n) h =
    Holds-if (joined s.chunks) s.fatal _ _ (λ t. (h, refl))
      (λ f.
        Holds-if (joined s.chunks) (leb n s.buffered_len) _ _
          (λ t.
            resolve_with-Holds s n h
              (take_chunks-Taken n s.chunks (omega (arith, leb→le n s.buffered_len t))))
          (λ g. Holds-if (joined s.chunks) s.ended _ _ (λ t. (h, refl)) (λ k. (h, refl))))

reject_pending-Holds :
    (s : SocketStream) (why : Failure) (p : Option ℕ)
    → IsCounted s
    → Holds (joined s.chunks) (reject_pending s why p)
unfolding delivered
reject_pending-Holds s why none h = (h, refl)
reject_pending-Holds s why (some n) h = (h, refl)

step-Holds :
    (s : SocketStream) (e : Event)
    → IsCounted s
    → Holds (joined s.chunks ++ arrived (e ∷ [])) (step s e)
unfolding step try_resolve_pending arrived delivered
step-Holds s (on_data c) h =
    rw (append-nil c, sym (joined-append s.chunks c))
      (try_resolve-Holds
        (record s { chunks = s.chunks ++ c ∷ []; buffered_len = s.buffered_len + length c })
        s.pending
        (rw (joined-append s.chunks c) (omega (arith, length-append (joined s.chunks) c))))
step-Holds s on_end h =
    rw (append-nil (joined s.chunks)) (try_resolve-Holds (record s { ended = true }) s.pending h)
step-Holds s on_error h =
    rw (append-nil (joined s.chunks)) (try_resolve-Holds (record s { fatal = true }) s.pending h)
step-Holds s on_close h =
    rw (append-nil (joined s.chunks)) (try_resolve-Holds (record s { ended = true }) s.pending h)
step-Holds s on_timeout h = rw (append-nil (joined s.chunks)) (reject_pending-Holds s _ s.pending h)
step-Holds s on_abort h =
    rw (append-nil (joined s.chunks))
      (reject_pending-Holds (record s { signal_aborted = true }) _ s.pending h)
step-Holds s close h = (h, sym (append-nil (joined s.chunks)))
step-Holds s (recv_exact n) h = rw (append-nil (joined s.chunks)) (
    Holds-if (joined s.chunks) s.fatal _ _ (λ t. (h, refl))
      (λ f.
        Holds-if (joined s.chunks) s.signal_aborted _ _ (λ t. (h, refl))
          (λ g. try_resolve-Holds (record s { pending = some n }) (some n) h)))

arrived-cons : (e : Event) (es : List Event) → arrived (e ∷ es) ≡ arrived (e ∷ []) ++ arrived es
unfolding arrived
arrived-cons (on_data c) es = rw (append-nil c) refl
arrived-cons on_end es = refl
arrived-cons on_error es = refl
arrived-cons on_close es = refl
arrived-cons on_timeout es = refl
arrived-cons on_abort es = refl
arrived-cons close es = refl
arrived-cons (recv_exact n) es = refl

Holds->>= :
    (before after : Bytes) (r : Result (SocketStream × List Outcome))
    (k : SocketStream → Result (SocketStream × List Outcome))
    → Holds before r
    → ((t : SocketStream) → IsCounted t → Holds (joined t.chunks ++ after) (k t))
    → Holds (before ++ after) (r >>= λ (t, out). k t >>= λ (u, outs). ok (u, out ++ outs))
Holds->>= before after (ok (t, out)) k (c, e) h = go (k t) (h t c)
  where
    go :
        (m : Result (SocketStream × List Outcome))
        → Holds (joined t.chunks ++ after) m
        → Holds (before ++ after) (m >>= λ (u, outs). ok (u, out ++ outs))
    go (ok (u, outs)) (d, f) = (
      d,
      rw (delivered-append out outs, append_assoc, f)
          (sym (append_assoc (delivered out) (joined t.chunks) after)
            ∙ ap (λ (xs : Bytes). xs ++ after) e),
    )
    go (err x) h = h
    go stuck h = h
Holds->>= before after (err x) k c h = c
Holds->>= before after stuck k c h = c

-- Whatever happens to a stream, in any order: no exception is thrown, the count of buffered octets
-- stays right, and the octets handed out to the reads, followed by those still held, are the octets
-- held before followed by all that arrived.
pub run-Holds :
    (s : SocketStream) (es : List Event)
    → IsCounted s
    → Holds (joined s.chunks ++ arrived es) (run s es)
unfolding run delivered arrived
run-Holds s [] h = (h, sym (append-nil (joined s.chunks)))
run-Holds s (e ∷ es) h =
    rw (arrived-cons e es, sym (append_assoc (joined s.chunks) (arrived (e ∷ [])) (arrived es)))
      (Holds->>= (joined s.chunks ++ arrived (e ∷ [])) (arrived es) (step s e) (λ t. run t es)
        (step-Holds s e h) (λ t c. run-Holds t es c))
