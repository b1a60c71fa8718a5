-- ===== src/Resolver/Auth/Failover.antt =====
-- packages/core/src/resolver/auth/client.ts: the servers in turn.
use dnsdata_js.Base.{ℕ, Option, none, some, List, [], ◌∷◌, ◌≡◌, refl}
use dnsdata_js.Base.Text.{Text}
use dnsdata_js.Base.Slices.{Bytes}
use dnsdata_js.Base.Among.{Among, here, there}
use dnsdata_js.Resolver.Auth.{
  AuthError, Event, Answer, returned, thrown, Dialer, Task, query_one, or_next, first_or,
  query_servers, query_raw, no_servers, all_servers_failed,
}

module _ (d : Dialer) (query_id : ℕ) (query : Bytes) where
  -- The answer is a value.
  abbrev pub Succeeds : Answer Bytes → Type 0
  Succeeds (returned resp) = Unit
  Succeeds (thrown e) = ⊥

  -- A server that answers the query, whatever happened before.
  abbrev pub IsUp : Text → Type 0
  IsUp addr = (log : List Event) → Succeeds (query_one d addr query_id query log).0

  or_next-here :
      (a : Answer Bytes) (next : AuthError → Task Bytes) (l : List Event)
      → Succeeds a
      → Succeeds (or_next d a next l).0
  or_next-here (returned resp) next l h = tt
  or_next-here (thrown e) next l h = absurd h

  or_next-there :
      (a : Answer Bytes) (next : AuthError → Task Bytes) (l : List Event)
      → ((e : AuthError) → Succeeds (next e l).0)
      → Succeeds (or_next d a next l).0
  or_next-there (returned resp) next l h = tt
  or_next-there (thrown e) next l h = h e

  query_servers-up :
      (first : Option AuthError) (servers : List Text) (addr : Text) (log : List Event)
      → Among addr servers
      → IsUp addr
      → Succeeds (query_servers d first servers query_id query log).0
  unfolding query_servers
  query_servers-up first [] addr log m up = elim m [ ]
  query_servers-up first (_ ∷ servers) addr log here up = or_next-here _ _ _ (up log)
  query_servers-up first (s ∷ servers) addr log (there m) up =
      or_next-there (query_one d s query_id query log).0 _ (query_one d s query_id query log).1
        (λ e.
          query_servers-up (some (first_or d first e)) servers addr
            (query_one d s query_id query log).1 m up)

  -- `query_raw` returns a response as soon as one of the servers is up: it tries every server until
  -- one answers.
  pub query_raw-up :
      (servers : List Text) (addr : Text) (log : List Event)
      → Among addr servers
      → IsUp addr
      → Succeeds (query_raw d servers query_id query log).0
  unfolding query_raw
  query_raw-up servers addr log m up = query_servers-up none servers addr log m up

  -- A response, or the error of all servers with the error of the first one.
  abbrev OrFirst : AuthError → Answer Bytes → Type 0
  OrFirst e (returned resp) = Unit
  OrFirst e (thrown x) = x ≡ all_servers_failed e

  or_next-OrFirst :
      (e : AuthError) (a : Answer Bytes) (next : AuthError → Task Bytes) (l : List Event)
      → ((x : AuthError) → OrFirst e (next x l).0)
      → OrFirst e (or_next d a next l).0
  or_next-OrFirst e (returned resp) next l h = tt
  or_next-OrFirst e (thrown x) next l h = h x

  query_servers-OrFirst :
      (e : AuthError) (servers : List Text) (log : List Event)
      → OrFirst e (query_servers d (some e) servers query_id query log).0
  unfolding query_servers
  query_servers-OrFirst e [] log = refl
  query_servers-OrFirst e (s ∷ servers) log =
      or_next-OrFirst e (query_one d s query_id query log).0 _ (query_one d s query_id query log).1
        (λ x. query_servers-OrFirst e servers (query_one d s query_id query log).1)

  -- What `query_raw` may throw: for no servers that there are none, and else that all failed, with
  -- the error that the first server met.
  abbrev pub ThrowsOnly : List Text → List Event → Answer Bytes → Type 0
  ThrowsOnly servers log (returned resp) = Unit
  ThrowsOnly [] log (thrown e) = e ≡ no_servers
  ThrowsOnly (s ∷ servers) log (thrown e) =
      (x : AuthError) × ((query_one d s query_id query log).0 ≡ thrown x)
      × (e ≡ all_servers_failed x)

  first_server :
      (s : Text) (servers : List Text) (log : List Event) (a : Answer Bytes) (l : List Event)
      → (query_one d s query_id query log).0 ≡ a
      → ThrowsOnly
          (s ∷ servers)
          log
          (or_next d a (λ e. query_servers d (some (first_or d none e)) servers query_id query) l).0
  first_server s servers log (returned resp) l q = tt
  first_server s servers log (thrown x) l q =
      of_rest (query_servers d (some x) servers query_id query l).0
        (query_servers-OrFirst x servers l)
    where
      of_rest : (a : Answer Bytes) → OrFirst x a → ThrowsOnly (s ∷ servers) log a
      of_rest (returned resp) h = tt
      of_rest (thrown e) h = (x, q, h)

  -- `query_raw` throws `AuthNoServersError` for an empty list, and otherwise only
  -- `AuthAllServersFailedError` with the error that the first server of the list met.
  pub query_raw-ThrowsOnly :
      (servers : List Text) (log : List Event)
      → ThrowsOnly servers log (query_raw d servers query_id query log).0
  unfolding query_raw query_servers
  query_raw-ThrowsOnly [] log = refl
  query_raw-ThrowsOnly (s ∷ servers) log =
      first_server s servers log (query_one d s query_id query log).0
        (query_one d s query_id query log).1 refl
