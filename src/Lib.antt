-- ===== src/Lib.antt =====
-- dnsdata-js is a DNS and DNSSEC library: it encodes and decodes the wire format, orders names,
-- judges denial of existence, and exchanges messages with servers. All of the code is under
-- packages/core/src, and the paths below are relative to it.
--
-- The parts and the files that model them:
--   Base: texts are lists of UTF-16 code units, octet arrays are lists of numbers below 256, and a
--     function that may throw returns a `Result` (dns_exception.ts). `Base.Order` holds the laws of
--     comparison functions.
--   Wire/Builder: `WireBuilder` and `compare_uint8arrays` of wire/dns_wire_util.ts.
--   Wire/Name: `encode_domain_name`, `parse_domain_name`, `wire2domain_name` and the query builder
--     of wire/dns_wire.ts. The loop of the parser is a step on the record of its variables.
--   Wire/View, Wire/Message: `DataView` reads and the parser of wire/dns_message.ts.
--   Wire/RData: decoders of wire/rdata_decoder.ts.
--   Types: the switches of types/dns_type_table.ts and types/algorithm.ts, as tables.
--   Dnssec/Canonical: zone/canonical.ts and dnssec/dnssec_util.ts.
--   Dnssec/Denial, Dnssec/Nsec, Dnssec/Nsec3: dnssec/nsec.ts and dnssec/nsec3.ts. The test for a
--     covered name is written twice in the code, and once here over a comparison.
--   Dnssec/SignerNames: dnssec/signer/names.ts.
--   Dnssec/Signer: dnssec/signer/nsec.ts, on the records of zone/dns_zone.ts in canonical order.
--   Dnssec/Keys: dnssec/dnskey.ts, ds.ts, rrsig.ts and crypto.ts.
--   Dnssec/SigCheck: dnssec/sigcheck.ts.
--   Dnssec/SignedZone: dnssec/dnssec_zone.ts, with the zone's map of records. Of its parent a zone
--     has the state, since the code never asks the parent of the parent.
--   Verifier/Names, Verifier/Negative: verifier/leaf_negative.ts, negative.ts, and the functions on
--     names of verifier.ts and alias.ts. The verifier asks the NSEC and NSEC3 handlers of a zone.
--   Verifier/Signed: the signer's chain against the verifier's proofs.
--   Verifier/Cache: verifier/cache.ts.
--   Verifier/Verdict: verifier/verdict.ts.
--   Verifier/Walk, Steps, Load, Ksks, Descent, Leaf, Chain: the chain walk of verifier/chain.ts, with
--     alias.ts, wildcard.ts, answer.ts, sigcheck.ts, result.ts, reason.ts and resolver.ts. A `Walk` is
--     a monad of a state and exceptions over a `World`: the result under construction, the cache and
--     the log of requests. `Load` fills a zone from the cache or the resolver, `Ksks` matches keys
--     with anchors and DS records, `Descent` goes from the root to the last zone, `Leaf` judges the
--     name there, and `Chain` follows aliases.
--   Resolver/Stream: resolver/stream.ts, the socket as a sequence of events.
--   Resolver/Addr, Resolver/Auth: resolver/addr.ts and resolver/auth/client.ts. A `Task` adds to
--     the log of what was asked of the network, and the dialer answers by the log.
--   Resolver/Memory: resolver/memory/names.ts, and in ZoneIndex the owners, existing names and cuts
--     of resolver/memory/zone_index.ts, without the records that it parses.
--   Tests: runs on concrete inputs.
--
-- Bounds and fuel: `encode_loop` has one round for each unit of the name, and a round takes a unit
-- at least. `parse_loop` has 33 rounds for each octet of the message and one octet more: at most 32
-- pointers are followed, and between two of them every round but the last moves on by an octet.
-- `bitmap_loop` has a round for each octet. `add_existing` and `encloser_from` have three rounds more
-- than the name has labels: a parent has a label less until it is the root. `take_chunks` is
-- recursion on the chunks. `hops` has 11 rounds, as many as the loop of the source (MAX_ALIAS_HOPS). A
-- `Result` is `stuck` where fuel ran out.
--
-- Parameters stand for code outside the repository: SHA-1 (`sha1`), base64 (`base64`), the crypto
-- library of Node.js (`Crypto`), the random transaction ID, a connection (`send`, `recv`) and the
-- network (`Dialer`), the resolver and the abort signal of a walk (`Outside`). Both the dialer and
-- the resolver answer by the log of what was asked before. Some parts of the repository meet others
-- through parameters too: whether an RRset verifies (`verify_rrset` of a `Zone`), what a registry
-- makes of a record (`Registry`, `canonical_rdata`), and the proofs of absence that a walk asks for
-- (`Denials`). The clock stands still during a walk.
--
-- Not modelled: texts of exceptions and of proofs in words (a proof is a value with the names in
-- it); `toLowerCase` and `trim` outside the first 256 code units; sockets, timers that belong to no
-- waiting read, files and the command line; private keys and signing; the step events of a walk, its
-- reasons in words and the details of its exceptions; the collection of the NSEC and NSEC3
-- candidates of a proof, and the exception with which a proof ends where a signature check throws;
-- anchors and times as text; the zone file parser and the handlers of single record types; the NSEC3
-- chain of the signer; the answers of the in-memory authority and the parsed records of its index;
-- the DoH and DoT resolvers.
pub mod Base
pub mod Types
pub mod Wire
pub mod Dnssec
pub mod Verifier
pub mod Resolver
pub mod Tests
