-- ===== src/Lib.antt =====
-- A model of the proxy's core: how a request finds its route and its backend, how backends are judged healthy, how
-- clients are limited, how chunked bodies are followed, and which routes a Gateway's listeners take.
--
-- The parts and how they interact. A route table (src/routing/build.rs) is built from the configuration or from the
-- Kubernetes objects that the control plane lets in (src/kubernetes/reference_grants.rs). A worker reads a
-- request's head (src/proxy/http_parser.rs), asks the table for a rule (src/routing/mod.rs), lets the rule's
-- limiter decide (src/rate_limit.rs), and picks one of the rule's backends by weight among those that the health
-- registry (src/proxy/health.rs) holds to be healthy. The body of the message is followed by an observer of the
-- chunked coding (src/proxy/chunked.rs). Of the control plane's replicas only the leader writes, which
-- src/kubernetes/controller/leader.rs elects through a Lease.
--
-- The files.
-- - Prelude and its children: the library's names, tests on numbers and bytes, lists, text, and Prelude/Map, a hash
--   map as the list of its entries.
-- - Net: IpAddr and SocketAddr.
-- - HttpParser: src/proxy/http_parser.rs. Class has the byte classes, each as the test that fills the table's bit,
--   Word the test of `scan` on eight bytes at once, Scan the scans, Head the pass over the header lines, Request
--   `extract_routing_info` as a whole, Path `normalize_path`. An index into the data becomes the bytes from it on.
--   Lines, Effects, Framing, Once and Accepted follow a head that passes; Path/Clean and Path/Rewrite a path.
-- - Chunked: `Phase`, `step` and `advance` of src/proxy/chunked.rs. Chunked/Bytewise has the scan that looks at
--   every byte, Chunked/Split bodies that come in several reads.
-- - RateLimit: `Limiter`, `consume`, `check_at`, `sweep_at`, `limiter_for` and the sweeper's tick of
--   src/rate_limit.rs; the exchanges that `consume` lost are an argument. Bucket, Rate and Sweep hold what follows
--   from them.
-- - Routing: Types (rules, filters and backends), Hosts (hostname patterns), Match (`find_best_rule_match`), Order
--   (the precedence of rules), Select (`BackendSelector`) and Table (`find_http_route`) for src/routing/mod.rs,
--   Build for src/routing/build.rs, with Build/Resolve for the resolution of a backend's address, and Sort for the
--   standard library's stable sort.
-- - Routing/Tls: `tls_route` and `resolve_tls_passthrough` of src/routing/mod.rs.
-- - Method: src/proxy/method.rs.
-- - Health: `HealthRegistry` of src/proxy/health.rs. Entry and Tracks follow one entry and one method, Streak any
--   run of methods, Backoff the rounds of a probe.
-- - Kubernetes: Objects (the Gateway API's objects, src/kubernetes/parent_ref.rs and src/kubernetes/hostname.rs)
--   and Grants (src/kubernetes/reference_grants.rs), whose children Terms, Selectors and Takes say which routes a
--   listener takes; Ports for src/kubernetes/controller/provision/ports.rs.
-- - Leader: src/kubernetes/controller/leader.rs. Role has `Leader` and its streams, Lock the Lease and `LeaseLock`,
--   Campaign the loop of `run_campaign` in pieces, System the replicas over one API server as a step relation.
--   Invariant and its children follow the replicas through every step; Safety, Answers, Takeover and Gains hold
--   what follows.
-- - DataPlane: Addresses models which addresses a Gateway's listeners bind on a pod, src/dataplane/addresses.rs.
--   Its children Lists, Resolved and Bound lead to what is bound.
-- - Tests: runs on concrete inputs.
--
-- A struct is a record and an enum a data type with the source's constructors. A method that changes its receiver
-- returns the changed value. A machine word is a number with its wrap-around or its saturation written out. A
-- string is the list of its bytes. Maps have no order: a list stands for one, and nothing is said about the order
-- of its entries.
--
-- Fuel. `advance` of Chunked runs on one unit more than the bytes of the slice, since each round takes a byte or
-- ends. The search for a free port in Kubernetes/Ports runs on one unit for each used port. `gcd_loop` of
-- Routing/Types runs on one unit more than the divisor, which falls in each round. The pass over header lines runs
-- on a unit for each byte of them, since each line takes some.
--
-- Parameters. The regular expressions and their engine, the hash of a TLS route, the health of an address as a
-- selection sees it, the result of a probe's connection, and the count of a limiter's references come from outside
-- and are arguments, and so are the resolver of names, and the parsers of an IP literal, of an IPv4 address and of
-- a prefix length. In the leader election the API server is a record of operations with the laws that the election
-- relies on: a write is refused when the Lease has changed since it was read or exists already, and each write that
-- is accepted gives a later version. The clocks of the replicas run alike from different origins, a timer of a task
-- that leads or is in a round fires within a bounded delay, and no two records are stamped alike. A task may die at
-- any step, a request may be served after its sender gave it up, and an answer may be lost.
--
-- Left out of numbers and addresses. The priority of a wildcard scope is not cut to 32 bits, which takes a host of
-- 2 ^ 32 bytes. A socket address has no flow label and no scope. A word of bytes is read with its low byte first.
--
-- Not modelled. Sockets, TLS, HTTP/2 and the runtime are third-party code around the parts above. The sync
-- protocol, the rest of provisioning and the configuration file are not modelled. Logs, metrics and clocks are left
-- out; a clock's reading is an argument. The health registry's methods are single steps: each holds its entry's
-- guard, and the interleavings of the atomics inside two readers of one entry are not looked at.
pub mod Prelude
pub mod HttpParser
pub mod Chunked
pub mod Net
pub mod RateLimit
pub mod Routing
pub mod Method
pub mod Health
pub mod Kubernetes
pub mod Leader
pub mod DataPlane
pub mod Tests
