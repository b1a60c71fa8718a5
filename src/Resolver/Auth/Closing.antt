-- ===== src/Resolver/Auth/Closing.antt =====
-- packages/core/src/resolver/auth/client.ts: `finally` closes every connection that was opened.
use dnsdata_js.Base.{
  ℕ, suc, ◌+◌, ◌*◌, ltb, ◌==◌, Option, none, some, List, [], ◌∷◌, length, get_or, ◌≡◌, inl, inr,
  Bool-cases, arith,
}
use dnsdata_js.Base.Text.{Text}
use dnsdata_js.Base.Slices.{Bytes}
use dnsdata_js.Base.Result.{Result, ok, err, stuck}
use dnsdata_js.Resolver.Stream.{frame}
use dnsdata_js.Resolver.Auth.{
  AuthError, Event, dial_udp, dial_tcp, opened, closed, Answer, returned, thrown, Dialer, Task,
  continue_with, ◌then_do◌, finally_close, mark_opened, validate_response, of_result, is_truncated,
  call_send, call_recv, call_recv_exact, accept_udp, udp_session, query_udp, exchange_on,
  tcp_session, query_tcp, or_tcp, query_one, or_next, first_or, query_servers, query_raw,
  no_servers, udp_truncated, all_servers_failed,
}

-- How many connections were opened, and how many closed.
unfoldable pub count_opened : List Event → ℕ
count_opened [] = 0
count_opened (opened ∷ log) = suc (count_opened log)
count_opened (_ ∷ log) = count_opened log

unfoldable pub count_closed : List Event → ℕ
count_closed [] = 0
count_closed (closed ∷ log) = suc (count_closed log)
count_closed (_ ∷ log) = count_closed log

-- As many were closed as were opened between the logs.
abbrev pub IsEven : List Event → List Event → Type 0
IsEven log l = count_opened l + count_closed log ≡ count_closed l + count_opened log

IsEven-trans : (a b c : List Event) → IsEven a b → IsEven b c → IsEven a c
IsEven-trans a b c h k = omega arith

-- A task that closes what it opens.
abbrev pub Tidy {ℓ} : {A : Type ℓ} → Task A → Type 0
Tidy m = (log : List Event) → IsEven log (m log).1

continue-Tidy {ℓ κ} :
    {A : Type ℓ} {B : Type κ} (a : Answer A) (f : A → Task B) (l : List Event)
    → ((x : A) → Tidy (f x))
    → IsEven l (continue_with a f l).1
continue-Tidy (returned x) f l h = h x l
continue-Tidy (thrown e) f l h = omega arith

then_do-Tidy {ℓ κ} :
    {A : Type ℓ} {B : Type κ} (m : Task A) (f : A → Task B)
    → Tidy m
    → ((x : A) → Tidy (f x))
    → Tidy (m then_do f)
then_do-Tidy m f h k log =
    IsEven-trans log (m log).1 (continue_with (m log).0 f (m log).1).1 (h log)
      (continue-Tidy (m log).0 f (m log).1 k)

validate_response-Tidy : (resp : Bytes) (query_id : ℕ) → Tidy (validate_response resp query_id)
unfolding validate_response
validate_response-Tidy resp query_id log = elim (Bool-cases (ltb (length resp) 12)) [
  | inl t ↦ rw t (omega arith)
  | inr f ↦ elim (Bool-cases (get_or resp 0 0 * 256 + get_or resp 1 0 == query_id)) [
    | inl t ↦ rw (f, t) (omega arith)
    | inr g ↦ rw (f, g) (omega arith)
  ]
]

of_result-Tidy {ℓ} : {A : Type ℓ} (r : Result A) → Tidy (of_result r)
of_result-Tidy (ok a) log = omega arith
of_result-Tidy (err e) log = omega arith
of_result-Tidy stuck log = omega arith

module _ (d : Dialer) where
  call_send-Tidy : (out : Bytes) → Tidy (call_send d out)
  unfolding count_opened count_closed
  call_send-Tidy out log = omega arith

  call_recv-Tidy : Tidy (call_recv d)
  unfolding count_opened count_closed
  call_recv-Tidy log = omega arith

  call_recv_exact-Tidy : (n : ℕ) → Tidy (call_recv_exact d n)
  unfolding count_opened count_closed
  call_recv_exact-Tidy n log = omega arith

  accept_udp-Tidy : (query_id : ℕ) (resp : Bytes) → Tidy (accept_udp d query_id resp)
  accept_udp-Tidy query_id resp =
      then_do-Tidy (validate_response resp query_id) _ (validate_response-Tidy resp query_id)
        (λ _ log. elim (Bool-cases (is_truncated resp)) [
          | inl t ↦ rw t (omega arith)
          | inr f ↦ rw f (omega arith)
        ])

  udp_session-Tidy : (query_id : ℕ) (query : Bytes) → Tidy (udp_session d query_id query)
  unfolding udp_session
  udp_session-Tidy query_id query = then_do-Tidy (call_send d query) _ (call_send-Tidy query) (λ _.
      then_do-Tidy (call_recv d) (accept_udp d query_id) call_recv-Tidy (accept_udp-Tidy query_id))

  exchange_on-Tidy : (query : Bytes) → Tidy (exchange_on d query)
  unfolding exchange_on
  exchange_on-Tidy query =
      then_do-Tidy (of_result (frame query)) _ (of_result-Tidy (frame query)) (λ out.
        then_do-Tidy (call_send d out) _ (call_send-Tidy out) (λ _.
          then_do-Tidy (call_recv_exact d 2) _ (call_recv_exact-Tidy 2)
            (λ hdr. call_recv_exact-Tidy (get_or hdr 0 0 * 256 + get_or hdr 1 0))))

  tcp_session-Tidy : (query_id : ℕ) (query : Bytes) → Tidy (tcp_session d query_id query)
  unfolding tcp_session
  tcp_session-Tidy query_id query =
      then_do-Tidy (exchange_on d query) _ (exchange_on-Tidy query) (λ resp.
        then_do-Tidy (validate_response resp query_id) _ (validate_response-Tidy resp query_id)
          (λ _ log. omega arith))

  -- A session between a dial and the closing.
  dialed :
      (a : Answer (Unit {0})) (session : Task Bytes)
      → Tidy session
      → (l : List Event)
      → IsEven l (continue_with a (λ _. mark_opened then_do λ _. finally_close session) l).1
  unfolding count_opened count_closed
  dialed (returned x) session h l = omega (arith, h (opened ∷ l))
  dialed (thrown e) session h l = omega arith

  query_udp-Tidy :
      (addr : Text) (query_id : ℕ) (query : Bytes) → Tidy (query_udp d addr query_id query)
  unfolding query_udp count_opened count_closed
  query_udp-Tidy addr query_id query log =
      dialed (d.on_dial (dial_udp addr ∷ log)) (udp_session d query_id query)
        (udp_session-Tidy query_id query) (dial_udp addr ∷ log)

  query_tcp-Tidy :
      (addr : Text) (query_id : ℕ) (query : Bytes) → Tidy (query_tcp d addr query_id query)
  unfolding query_tcp count_opened count_closed
  query_tcp-Tidy addr query_id query log =
      dialed (d.on_dial (dial_tcp addr ∷ log)) (tcp_session d query_id query)
        (tcp_session-Tidy query_id query) (dial_tcp addr ∷ log)

  or_tcp-Tidy :
      (a : Answer Bytes) (tcp : Task Bytes) (l : List Event)
      → Tidy tcp
      → IsEven l (or_tcp d a tcp l).1
  or_tcp-Tidy (returned resp) tcp l h = omega arith
  or_tcp-Tidy (thrown udp_truncated) tcp l h = h l
  or_tcp-Tidy (thrown no_servers) tcp l h = omega arith
  or_tcp-Tidy (thrown AuthError.timeout) tcp l h = omega arith
  or_tcp-Tidy (thrown AuthError.aborted) tcp l h = omega arith
  or_tcp-Tidy (thrown (all_servers_failed e)) tcp l h = omega arith
  or_tcp-Tidy (thrown (AuthError.response_too_short n)) tcp l h = omega arith
  or_tcp-Tidy (thrown (AuthError.id_mismatch n m)) tcp l h = omega arith
  or_tcp-Tidy (thrown (AuthError.transport s)) tcp l h = omega arith
  or_tcp-Tidy (thrown (AuthError.not_built e)) tcp l h = omega arith

  query_one-Tidy :
      (addr : Text) (query_id : ℕ) (query : Bytes) → Tidy (query_one d addr query_id query)
  unfolding query_one
  query_one-Tidy addr query_id query log =
      let r = query_udp d addr query_id query log in
      IsEven-trans log r.1 (or_tcp d r.0 (query_tcp d addr query_id query) r.1).1
        (query_udp-Tidy addr query_id query log)
        (or_tcp-Tidy r.0 (query_tcp d addr query_id query) r.1 (query_tcp-Tidy addr query_id query))

  or_next-Tidy :
      (a : Answer Bytes) (next : AuthError → Task Bytes) (l : List Event)
      → ((e : AuthError) → Tidy (next e))
      → IsEven l (or_next d a next l).1
  or_next-Tidy (returned resp) next l h = omega arith
  or_next-Tidy (thrown e) next l h = h e l

  query_servers-Tidy :
      (first : Option AuthError) (servers : List Text) (query_id : ℕ) (query : Bytes)
      → Tidy (query_servers d first servers query_id query)
  unfolding query_servers
  query_servers-Tidy none [] query_id query log = omega arith
  query_servers-Tidy (some e) [] query_id query log = omega arith
  query_servers-Tidy first (s ∷ servers) query_id query log =
      let r = query_one d s query_id query log in
      IsEven-trans log r.1 _ (query_one-Tidy s query_id query log) (
        or_next-Tidy r.0 _ r.1
          (λ e. query_servers-Tidy (some (first_or d first e)) servers query_id query))

  -- Whatever the network answers, and whichever errors are thrown on the way, `query_raw` closes as
  -- many connections as it opens.
  pub query_raw-Tidy :
      (servers : List Text) (query_id : ℕ) (query : Bytes) (log : List Event)
      → count_opened log ≡ count_closed log
      → count_opened (query_raw d servers query_id query log).1
        ≡ count_closed (query_raw d servers query_id query log).1
  unfolding query_raw
  query_raw-Tidy servers query_id query log h =
      omega (arith, query_servers-Tidy none servers query_id query log)
