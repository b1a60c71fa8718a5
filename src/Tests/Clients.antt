-- ===== src/Tests/Clients.antt =====
-- packages/core/src/resolver/auth/client.ts with a first server that does not answer.
use dnsdata_js.Base.{List, [], ◌∷◌, ◌≡◌, refl, if◌then◌else◌}
use dnsdata_js.Base.Text.{Text, codes, text_eq}
use dnsdata_js.Base.Slices.{Bytes}
use dnsdata_js.Base.Among.{here, there}
use dnsdata_js.Resolver.Auth.{
  AuthError, Event, dial_udp, Answer, returned, thrown, Dialer, query_one, query_raw,
}
use dnsdata_js.Resolver.Auth.Laws.{OnReturn, IsReply, query_raw-IsReply}
use dnsdata_js.Resolver.Auth.Failover.{
  Succeeds, IsUp, ThrowsOnly, query_raw-up, query_raw-ThrowsOnly,
}
use dnsdata_js.Resolver.Auth.Closing.{count_opened, count_closed, query_raw-Tidy}

abbrev answer_dial : List Event → Answer (Unit {0})
answer_dial (dial_udp addr ∷ log) =
    if text_eq addr (codes "up") then returned tt else thrown AuthError.timeout
answer_dial _ = thrown AuthError.timeout

abbrev reply : Bytes
reply = 1 ∷ 2 ∷ 0x80 ∷ 0 ∷ 0 ∷ 0 ∷ 0 ∷ 0 ∷ 0 ∷ 0 ∷ 0 ∷ 0 ∷ []

abbrev dialer : Dialer
dialer = record {
  on_dial = answer_dial;
  on_send = λ log. returned tt;
  on_recv = λ log. returned reply;
}

abbrev servers : List Text
servers = codes "down" ∷ codes "up" ∷ []

query_raw-IsReply_example : OnReturn (IsReply 258) (query_raw dialer servers 258 [] []).0
query_raw-IsReply_example = query_raw-IsReply dialer 258 servers [] []

query_raw-Tidy_example :
    count_opened (query_raw dialer servers 258 [] []).1
    ≡ count_closed (query_raw dialer servers 258 [] []).1
unfolding count_opened count_closed
query_raw-Tidy_example = query_raw-Tidy dialer servers 258 [] [] refl

server-IsUp : IsUp dialer 258 [] (codes "up")
unfolding query_one text_eq
server-IsUp log = tt

query_raw-up_example : Succeeds dialer 258 [] (query_raw dialer servers 258 [] []).0
query_raw-up_example = query_raw-up dialer 258 [] servers (codes "up") [] (there here) server-IsUp

query_raw-ThrowsOnly_example :
    ThrowsOnly dialer 258 [] servers [] (query_raw dialer servers 258 [] []).0
query_raw-ThrowsOnly_example = query_raw-ThrowsOnly dialer 258 [] servers []
