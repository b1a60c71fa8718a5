-- ===== src/Resolver/Stream.antt =====
-- packages/core/src/resolver/stream.ts: messages with a length in front, and the `SocketStream`
-- that serves exact reads from the chunks a socket delivers.
use dnsdata_js.Base.{
  ℕ, zero, suc, ◌+◌, ◌-◌, ◌*◌, ◌/◌, ◌%◌, ◌^◌, min, Bool, true, false, not, Option, none, some, List,
  [], ◌∷◌, ◌++◌, ltb, leb, ◌==◌, if◌then◌else◌, length, take, drop,
}
use dnsdata_js.Base.Slices.{Bytes, byte_at, be16}
use dnsdata_js.Base.Result.{Result, ok, err, stuck, type_error, range_error, throw_if, ◌>>=◌, ◌>>◌}
pub mod Taking
pub mod Order
pub mod Framing

-- Why a read is rejected: the error of the socket, the end of the stream, the timer or the signal.
pub data Failure : Type 0 where
  fatal_error stream_ended timed_out aborted : Failure

pub data Outcome : Type 0 where
  resolved : Bytes → Outcome
  rejected : Failure → Outcome

pub record SocketStream : Type 0 where
  pub chunks : List Bytes
  pub buffered_len : ℕ
  pub pending : Option ℕ
  pub fatal : Bool
  pub ended : Bool
  pub closed : Bool
  pub signal_aborted : Bool

abbrev pub new_stream : SocketStream
new_stream = record {
  chunks = [];
  buffered_len = 0;
  pending = none;
  fatal = false;
  ended = false;
  closed = false;
  signal_aborted = false;
}

-- One turn of the loop of `take` ends with `head` used up or with the read complete.
abbrev pub with_front : Bytes → Result (Bytes × List Bytes) → Result (Bytes × List Bytes)
with_front front (ok (out, chunks)) = ok (front ++ out, chunks)
with_front front (err e) = err e
with_front front stuck = stuck

-- The loop of `take`, where `n` octets are still to be written.
unfoldable pub take_chunks : ℕ → List Bytes → Result (Bytes × List Bytes)
take_chunks zero chunks = ok ([], chunks)
take_chunks (suc m) [] = err type_error
take_chunks (suc m) (head ∷ chunks) =
    let count = min (length head) (suc m) in
    let rest = take_chunks (suc m - count) chunks in
    if count == length head
    then with_front (take count head) rest
    else ok (take count head, drop count head ∷ chunks)

-- `take` removes the octets; the read that waited for them is settled.
unfoldable pub resolve_with :
    SocketStream → ℕ → Result (Bytes × List Bytes) → Result (SocketStream × List Outcome)
resolve_with s n (ok (out, chunks)) = ok (
  record s { chunks = chunks; buffered_len = s.buffered_len - n; pending = none },
  resolved out ∷ [],
)
resolve_with s n (err e) = err e
resolve_with s n stuck = stuck

unfoldable pub try_resolve : SocketStream → Option ℕ → Result (SocketStream × List Outcome)
unfolding take_chunks resolve_with
try_resolve s none = ok (s, [])
try_resolve s (some n) =
    if s.fatal
    then ok (record s { pending = none }, rejected fatal_error ∷ [])
    else if leb n s.buffered_len
    then resolve_with s n (take_chunks n s.chunks)
    else if s.ended
    then ok (record s { pending = none }, rejected stream_ended ∷ [])
    else ok (s, [])

unfoldable pub try_resolve_pending : SocketStream → Result (SocketStream × List Outcome)
unfolding try_resolve
try_resolve_pending s = try_resolve s s.pending

-- What happens to the stream: the events of the socket, of the timer of the read that waits and of
-- the signal, and the calls.
pub data Event : Type 0 where
  on_data : Bytes → Event
  on_end on_error on_close on_timeout on_abort close : Event
  recv_exact : ℕ → Event

-- The timer and the signal reach only a read that waits.
abbrev pub reject_pending : SocketStream → Failure → Option ℕ → Result (SocketStream × List Outcome)
reject_pending s why none = ok (s, [])
reject_pending s why (some n) = ok (record s { pending = none }, rejected why ∷ [])

unfoldable pub step : SocketStream → Event → Result (SocketStream × List Outcome)
unfolding try_resolve_pending
step s (on_data chunk) =
    try_resolve_pending
      (record s { chunks = s.chunks ++ chunk ∷ []; buffered_len = s.buffered_len + length chunk })
step s on_end = try_resolve_pending (record s { ended = true })
step s on_error = try_resolve_pending (record s { fatal = true })
step s on_close = try_resolve_pending (record s { ended = true })
step s on_timeout = reject_pending s timed_out s.pending
step s on_abort = reject_pending (record s { signal_aborted = true }) aborted s.pending
step s close = ok (record s { closed = true }, [])
step s (recv_exact n) =
    if s.fatal
    then ok (s, rejected fatal_error ∷ [])
    else if s.signal_aborted
    then ok (s, rejected aborted ∷ [])
    else try_resolve_pending (record s { pending = some n })

unfoldable pub run : SocketStream → List Event → Result (SocketStream × List Outcome)
unfolding step
run s [] = ok (s, [])
run s (e ∷ es) = step s e >>= λ (t, out). run t es >>= λ (u, outs). ok (u, out ++ outs)

-- What `exchange` writes: the query behind its length.
unfoldable pub frame : Bytes → Result Bytes
frame query =
    throw_if (ltb 0xffff (length query)) range_error
    >> ok (length query / 2 ^ 8 % 256 ∷ length query % 256 ∷ query)

-- `exchange`, with what the connection does on `send` and then on the two reads.
unfoldable pub exchange :
    {S : Type 0}
    → (S → Bytes → Result S)
    → (S → ℕ → Result (S × Bytes))
    → S
    → Bytes
    → Result (S × Bytes)
unfolding frame
exchange send recv conn query = frame query >>= λ out. send conn out >>= λ sent.
    recv sent 2 >>= λ (conn', hdr). recv conn' (be16 (byte_at hdr 0) (byte_at hdr 1))
