-- ===== src/Resolver/Auth/Laws.antt =====
-- packages/core/src/resolver/auth/client.ts: what a response that the client returns satisfies, and
-- that every connection is closed.
use dnsdata_js.Base.{
  ℕ, ◌+◌, ◌*◌, ◌≤◌, ltb, ◌==◌, Option, none, some, List, [], ◌∷◌, length, get_or, ◌≡◌, inl, inr,
  Bool-cases, arith,
}
use dnsdata_js.Base.Text.{Text}
use dnsdata_js.Base.Slices.{Bytes}
use dnsdata_js.Resolver.Auth.{
  AuthError, Event, dial_udp, dial_tcp, opened, send, recv, Answer, returned, thrown, Dialer, Task,
  pure, continue_with, ◌then_do◌, validate_response, is_truncated, accept_udp, udp_session,
  query_udp, exchange_on, tcp_session, query_tcp, or_tcp, query_one, or_next, first_or,
  query_servers, query_raw, no_servers, udp_truncated, all_servers_failed,
}

-- A message of a header at least, with the transaction ID of the query.
abbrev pub IsReply : ℕ → Bytes → Type 0
IsReply query_id resp = (12 ≤ length resp) × (get_or resp 0 0 * 256 + get_or resp 1 0 ≡ query_id)

-- What holds of the value that a task returns.
abbrev pub OnReturn {ℓ κ} : {A : Type ℓ} → (A → Type κ) → Answer A → Type κ
OnReturn P (returned a) = P a
OnReturn P (thrown e) = Unit

continue-OnReturn {ℓ κ μ} :
    {A : Type ℓ} {B : Type κ} (P : B → Type μ) (a : Answer A) (f : A → Task B) (l : List Event)
    → ((x : A) (log : List Event) → OnReturn P (f x log).0)
    → OnReturn P (continue_with a f l).0
continue-OnReturn P (returned x) f l h = h x l
continue-OnReturn P (thrown e) f l h = tt

validated :
    (resp : Bytes) (query_id : ℕ) (next : Task Bytes) (P : Bytes → Type 0) (log : List Event)
    → (IsReply query_id resp → (l : List Event) → OnReturn P (next l).0)
    → OnReturn P ((validate_response resp query_id then_do λ _. next) log).0
unfolding validate_response
validated resp query_id next P log h = elim (Bool-cases (ltb (length resp) 12)) [
  | inl t ↦ rw t tt
  | inr f ↦ elim (Bool-cases (get_or resp 0 0 * 256 + get_or resp 1 0 == query_id)) [
    | inl t ↦ rw (f, t) (h (ground arith, ground arith) log)
    | inr g ↦ rw (f, g) tt
  ]
]

module _ (d : Dialer) (query_id : ℕ) where
  accept_udp-IsReply :
      (resp : Bytes) (log : List Event)
      → OnReturn (IsReply query_id) (accept_udp d query_id resp log).0
  accept_udp-IsReply resp log =
      validated resp query_id _ (IsReply query_id) log
        (λ r l. elim (Bool-cases (is_truncated resp)) [ inl t ↦ rw t tt | inr f ↦ rw f r ])

  query_udp-IsReply :
      (addr : Text) (query : Bytes) (log : List Event)
      → OnReturn (IsReply query_id) (query_udp d addr query_id query log).0
  unfolding query_udp udp_session
  query_udp-IsReply addr query log =
      continue-OnReturn (IsReply query_id) (d.on_dial (dial_udp addr ∷ log)) _ (dial_udp addr ∷ log)
        (λ x l.
          continue-OnReturn (IsReply query_id) (d.on_send (send query ∷ opened ∷ l)) _
            (send query ∷ opened ∷ l)
            (λ y l'.
              continue-OnReturn (IsReply query_id) (d.on_recv (recv ∷ l')) _ (recv ∷ l')
                accept_udp-IsReply))

  query_tcp-IsReply :
      (addr : Text) (query : Bytes) (log : List Event)
      → OnReturn (IsReply query_id) (query_tcp d addr query_id query log).0
  unfolding query_tcp tcp_session
  query_tcp-IsReply addr query log =
      continue-OnReturn (IsReply query_id) (d.on_dial (dial_tcp addr ∷ log)) _ (dial_tcp addr ∷ log)
        (λ x l.
          continue-OnReturn (IsReply query_id) (exchange_on d query (opened ∷ l)).0 _
            (exchange_on d query (opened ∷ l)).1
            (λ resp l'. validated resp query_id (pure resp) (IsReply query_id) l' (λ r l''. r)))

  or_tcp-OnReturn :
      (P : Bytes → Type 0) (a : Answer Bytes) (tcp : Task Bytes) (l : List Event)
      → OnReturn P a
      → OnReturn P (tcp l).0
      → OnReturn P (or_tcp d a tcp l).0
  or_tcp-OnReturn P (returned resp) tcp l h k = h
  or_tcp-OnReturn P (thrown udp_truncated) tcp l h k = k
  or_tcp-OnReturn P (thrown no_servers) tcp l h k = tt
  or_tcp-OnReturn P (thrown AuthError.timeout) tcp l h k = tt
  or_tcp-OnReturn P (thrown AuthError.aborted) tcp l h k = tt
  or_tcp-OnReturn P (thrown (all_servers_failed e)) tcp l h k = tt
  or_tcp-OnReturn P (thrown (AuthError.response_too_short n)) tcp l h k = tt
  or_tcp-OnReturn P (thrown (AuthError.id_mismatch n m)) tcp l h k = tt
  or_tcp-OnReturn P (thrown (AuthError.transport s)) tcp l h k = tt
  or_tcp-OnReturn P (thrown (AuthError.not_built e)) tcp l h k = tt

  query_one-IsReply :
      (addr : Text) (query : Bytes) (log : List Event)
      → OnReturn (IsReply query_id) (query_one d addr query_id query log).0
  unfolding query_one
  query_one-IsReply addr query log =
      or_tcp-OnReturn (IsReply query_id) (query_udp d addr query_id query log).0
        (query_tcp d addr query_id query) (query_udp d addr query_id query log).1
        (query_udp-IsReply addr query log)
        (query_tcp-IsReply addr query (query_udp d addr query_id query log).1)

  or_next-OnReturn :
      (P : Bytes → Type 0) (a : Answer Bytes) (next : AuthError → Task Bytes) (l : List Event)
      → OnReturn P a
      → ((e : AuthError) → OnReturn P (next e l).0)
      → OnReturn P (or_next d a next l).0
  or_next-OnReturn P (returned resp) next l h k = h
  or_next-OnReturn P (thrown e) next l h k = k e

  query_servers-IsReply :
      (first : Option AuthError) (servers : List Text) (query : Bytes) (log : List Event)
      → OnReturn (IsReply query_id) (query_servers d first servers query_id query log).0
  unfolding query_servers
  query_servers-IsReply none [] query log = tt
  query_servers-IsReply (some e) [] query log = tt
  query_servers-IsReply first (addr ∷ servers) query log =
      or_next-OnReturn (IsReply query_id) (query_one d addr query_id query log).0 _
        (query_one d addr query_id query log).1 (query_one-IsReply addr query log)
        (λ e.
          query_servers-IsReply (some (first_or d first e)) servers query
            (query_one d addr query_id query log).1)

  -- Every response that `query_raw` returns has at least the 12 octets of a header and the
  -- transaction ID of the query, whatever the network answers.
  pub query_raw-IsReply :
      (servers : List Text) (query : Bytes) (log : List Event)
      → OnReturn (IsReply query_id) (query_raw d servers query_id query log).0
  unfolding query_raw
  query_raw-IsReply servers query log = query_servers-IsReply none servers query log
