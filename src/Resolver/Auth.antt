-- ===== src/Resolver/Auth.antt =====
-- packages/core/src/resolver/auth/client.ts and stream.ts: the client that asks one server after the
-- other. The dialer is a parameter that answers each call by all that happened before it; a
-- `Promise` is the value it settles with.
use dnsdata_js.Base.{
  ℕ, ◌+◌, ◌*◌, ◌/◌, ◌%◌, ltb, Bool, true, false, not, if◌then◌else◌, ◌==◌, is_empty, Option, none,
  some, List, [], ◌∷◌, ◌++◌, length, get_or, map,
}
use dnsdata_js.Base.Text.{Text}
use dnsdata_js.Base.Slices.{Bytes}
use dnsdata_js.Base.Result.{Exception, Result, ok, err, stuck}
use dnsdata_js.Resolver.Addr.{normalize_host_port}
use dnsdata_js.Resolver.Stream.{frame}
use dnsdata_js.Wire.Name.Query.{build_query_with_options}
pub mod Laws
pub mod Failover
pub mod Closing

-- `transport`, `timeout` and `aborted` come from the dialer; `not_built` is an exception of the
-- message builder or of `exchange`.
pub data AuthError : Type 0 where
  no_servers udp_truncated timeout aborted : AuthError
  all_servers_failed : AuthError → AuthError
  response_too_short : ℕ → AuthError
  id_mismatch : ℕ → ℕ → AuthError
  transport : Text → AuthError
  not_built : Exception → AuthError

pub data Event : Type 0 where
  dial_udp dial_tcp : Text → Event
  opened closed : Event
  send : Bytes → Event
  recv : Event
  recv_exact : ℕ → Event

pub data Answer {ℓ} (A : Type ℓ) : Type ℓ where
  returned : A → Answer A
  thrown : AuthError → Answer A

-- What the network answers to a call, given all events before it, the last one first.
pub record Dialer : Type 0 where
  pub on_dial : List Event → Answer (Unit {0})
  pub on_send : List Event → Answer (Unit {0})
  pub on_recv : List Event → Answer Bytes

-- A computation: what it settles with, and the events with those it adds.
abbrev pub Task {ℓ} : Type ℓ → Type ℓ
Task A = List Event → Answer A × List Event

abbrev pub pure {ℓ} : {A : Type ℓ} → A → Task A
pure a log = (returned a, log)

abbrev pub throw_error {ℓ} : {A : Type ℓ} → AuthError → Task A
throw_error e log = (thrown e, log)

abbrev pub continue_with {ℓ κ} : {A : Type ℓ} {B : Type κ} → Answer A → (A → Task B) → Task B
continue_with (returned a) f log = f a log
continue_with (thrown e) f log = (thrown e, log)

infixl 5 ◌then_do◌
abbrev pub ◌then_do◌ {ℓ κ} : {A : Type ℓ} {B : Type κ} → Task A → (A → Task B) → Task B
(m then_do f) log = let (a, l) = m log in continue_with a f l

-- An event, and what the dialer answers to it.
abbrev pub call {ℓ} : {A : Type ℓ} → Event → (List Event → Answer A) → Task A
call e answer log = (answer (e ∷ log), e ∷ log)

-- `try { m } finally { conn.close(); }`
abbrev pub finally_close {ℓ} : {A : Type ℓ} → Task A → Task A
finally_close m log = let (a, l) = m log in (a, closed ∷ l)

-- The connection of a dial that succeeds is open.
abbrev pub mark_opened : Task (Unit {0})
mark_opened log = (returned tt, opened ∷ log)

unfoldable pub validate_response : Bytes → ℕ → Task (Unit {0})
validate_response resp query_id =
    let resp_id = get_or resp 0 0 * 256 + get_or resp 1 0 in
    if ltb (length resp) 12
    then throw_error (response_too_short (length resp))
    else if resp_id == query_id
    then pure tt
    else throw_error (id_mismatch resp_id query_id)

abbrev pub of_result {ℓ} : {A : Type ℓ} → Result A → Task A
of_result (ok a) log = (returned a, log)
of_result (err e) log = (thrown (not_built e), log)
of_result stuck log = (thrown (not_built Exception.plain_error), log)

-- `resp[2] & 0x02`
unfoldable pub is_truncated : Bytes → Bool
is_truncated resp = get_or resp 2 0 / 2 % 2 == 1

module _ (d : Dialer) where
  abbrev pub call_send : Bytes → Task (Unit {0})
  call_send out = call (send out) d.on_send

  abbrev pub call_recv : Task Bytes
  call_recv = call recv d.on_recv

  abbrev pub call_recv_exact : ℕ → Task Bytes
  call_recv_exact n = call (recv_exact n) d.on_recv

  abbrev pub accept_udp : ℕ → Bytes → Task Bytes
  accept_udp query_id resp = validate_response resp query_id then_do λ _.
      if is_truncated resp then throw_error udp_truncated else pure resp

  -- `_query_udp` on an open connection.
  unfoldable pub udp_session : ℕ → Bytes → Task Bytes
  unfolding validate_response is_truncated
  udp_session query_id query =
      call_send query then_do λ _. call_recv then_do λ resp. accept_udp query_id resp

  unfoldable pub query_udp : Text → ℕ → Bytes → Task Bytes
  unfolding udp_session
  query_udp addr query_id query = call (dial_udp addr) d.on_dial then_do λ _.
      mark_opened then_do λ _. finally_close (udp_session query_id query)

  -- `exchange`
  unfoldable pub exchange_on : Bytes → Task Bytes
  unfolding frame
  exchange_on query = of_result (frame query) then_do λ out. call_send out then_do λ _.
      call_recv_exact 2 then_do λ hdr. call_recv_exact (get_or hdr 0 0 * 256 + get_or hdr 1 0)

  unfoldable pub tcp_session : ℕ → Bytes → Task Bytes
  unfolding exchange_on validate_response
  tcp_session query_id query =
      exchange_on query then_do λ resp. validate_response resp query_id then_do λ _. pure resp

  unfoldable pub query_tcp : Text → ℕ → Bytes → Task Bytes
  unfolding tcp_session
  query_tcp addr query_id query = call (dial_tcp addr) d.on_dial then_do λ _.
      mark_opened then_do λ _. finally_close (tcp_session query_id query)

  -- `catch` of `_query_one`.
  abbrev pub or_tcp : Answer Bytes → Task Bytes → Task Bytes
  or_tcp (returned resp) tcp log = (returned resp, log)
  or_tcp (thrown udp_truncated) tcp log = tcp log
  or_tcp (thrown e) tcp log = (thrown e, log)

  unfoldable pub query_one : Text → ℕ → Bytes → Task Bytes
  unfolding query_udp query_tcp
  query_one addr query_id query log =
      let (a, l) = query_udp addr query_id query log in or_tcp a (query_tcp addr query_id query) l

  abbrev pub first_or : Option AuthError → AuthError → AuthError
  first_or none e = e
  first_or (some first) e = first

  abbrev pub or_next : Answer Bytes → (AuthError → Task Bytes) → Task Bytes
  or_next (returned resp) next log = (returned resp, log)
  or_next (thrown e) next log = next e log

  -- The loop of `query_raw`, with the first error so far.
  unfoldable pub query_servers : Option AuthError → List Text → ℕ → Bytes → Task Bytes
  unfolding query_one
  query_servers none [] query_id query log = (thrown no_servers, log)
  query_servers (some e) [] query_id query log = (thrown (all_servers_failed e), log)
  query_servers first (addr ∷ servers) query_id query log =
      let (a, l) = query_one addr query_id query log in
      or_next a (λ e. query_servers (some (first_or first e)) servers query_id query) l

  unfoldable pub query_raw : List Text → ℕ → Bytes → Task Bytes
  unfolding query_servers
  query_raw servers query_id query = query_servers none servers query_id query

  -- `query`, for the transaction ID that `random_query_id` drew.
  unfoldable pub query_server_list : List Text → Bool → ℕ → Text → ℕ → Task Bytes
  unfolding build_query_with_options query_raw
  query_server_list servers checking_disabled id qname qtype =
      of_result (build_query_with_options id qname qtype checking_disabled) then_do λ msg.
      query_raw servers id msg

-- The servers of `new AuthClient(opts)`.
unfoldable pub servers_of : List Text → List Text
unfolding normalize_host_port
servers_of raw_servers = map (λ addr. normalize_host_port addr 53) raw_servers

-- `_udp_buffer_size`
unfoldable pub udp_buffer_size : ℕ → ℕ
udp_buffer_size n = if ltb n 512 then 512 else n
