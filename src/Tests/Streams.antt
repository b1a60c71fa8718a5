-- ===== src/Tests/Streams.antt =====
-- packages/core/src/resolver/stream.ts on a message that arrives in three chunks.
use dnsdata_js.Base.{List, [], ◌∷◌, ◌≡◌, refl, arith}
use dnsdata_js.Base.Result.{ok}
use dnsdata_js.Resolver.Stream.{new_stream, Event, on_data, on_end, recv_exact, run, exchange}
use dnsdata_js.Resolver.Stream.Taking.{joined}
use dnsdata_js.Resolver.Stream.Order.{arrived, Holds, run-Holds}
use dnsdata_js.Resolver.Stream.Framing.{send_back, read_back, exchange-send_back}

abbrev events : List Event
events =
    recv_exact 2
    ∷ on_data (0 ∷ [])
    ∷ on_data (3 ∷ 7 ∷ [])
    ∷ recv_exact 3
    ∷ on_data (8 ∷ 9 ∷ 5 ∷ [])
    ∷ on_end
    ∷ []

run-Holds_example : Holds (0 ∷ 3 ∷ 7 ∷ 8 ∷ 9 ∷ 5 ∷ []) (run new_stream events)
unfolding joined arrived
run-Holds_example = run-Holds new_stream events refl

exchange-send_back_example :
    exchange (send_back (4 ∷ 5 ∷ [])) read_back [] (1 ∷ 2 ∷ 3 ∷ [])
    ≡ ok (4 ∷ 5 ∷ [], 1 ∷ 2 ∷ 3 ∷ [])
exchange-send_back_example = exchange-send_back (1 ∷ 2 ∷ 3 ∷ []) (4 ∷ 5 ∷ []) (omega arith)
