-- ===== src/Lib.antt =====
-- A model of parts of AudioDown Core, a server that aggregates audio platforms through plugins, and
-- proofs of what makes them correct: the aggregation of contents, the policy that decides which
-- network destinations a plugin may reach, the cookie jars of the proxy, and the supervisor's
-- operations that build and install a plugin.
--
-- The program's parts. A client asks the server for a search, a discovery or the categories. The
-- content service (crates/audiodown-content/src/router.rs) lists the candidates (plugins that may
-- answer) from the store, keeps and ranks the eligible ones (`select_candidates`), groups them by
-- platform (`group_candidates`, `prepare_groups`), asks the platforms concurrently, each platform's
-- candidates in turn until one answers (`search_platform` and its two siblings), validates what the
-- plugins say (crates/audiodown-plugin-api/src/content.rs, src/error.rs, src/rpc.rs), puts the
-- answers together in the order of the platforms, without duplicates (src/dedup.rs), and gives back
-- a cursor that holds one plugin cursor for each platform (src/cursor.rs). A plugin reaches the
-- network only through a proxy, whose policy (crates/audiodown-network-proxy/src/policy.rs) checks
-- the URL against the hosts of the plugin's manifest, resolves the host, refuses addresses that are
-- not global, and pins a request and its redirects to the addresses that it found. The cookies of a
-- login or of a refreshed credential stay in the proxy, in a jar of limited size and time that is
-- bound to its plugin (src/cookie_jar.rs). The supervisor builds and installs plugins: an operation
-- (crates/audiodown-supervisor/src/install_operation.rs) is accepted, built in a task of its own, and
-- finalized or aborted; its record is written to the disk at each change, and read after a restart. A
-- plugin runs in a container next to a gateway to the proxy (crates/audiodown-supervisor/src/policy.rs).
--
-- The files.
-- Base and Base/: names of the libraries, tests, lists, results, comparisons, sorting, text. A Rust
--   `String` is the list of its Unicode scalar values, and `str::len` is computed from their UTF-8
--   widths. `Result` with `>>=` is Rust's `Result` with `?`.
-- Domain/PluginId (Laws): `PluginId::parse` of crates/audiodown-domain/src/plugin.rs.
-- PluginApi/Content (Types, Checks, Laws), PluginApi/Error, PluginApi/Rpc: the messages of a plugin,
--   with every `validate`; the function `validate_x` is the method of the type X.
-- Content/Candidate, Content/Select: `select_candidates`, its filter and its order.
-- Content/Group (Partition, Prepared): `group_candidates` and `prepare_groups`; the `BTreeMap` is an
--   association list in the order of its keys.
-- Content/Cursor (Laws, Binding, Envelope): the cursor, its validation, its encoding and decoding.
-- Content/Platform (Fallback, Answers): one platform. The three loops of the source, over search,
--   discover and categories, are the function `ask_in_turn` with the call and the answer's use as
--   arguments; `decode_result` is the three `decode_*_response` functions in the same way.
-- Content/Dedup (Reference, Sections): deduplication; the `HashSet` is the list of inserted keys.
-- Content/Service (Schedule, Inversion, Cursors, Items, Paging, Resume): the service's methods.
-- Content/Examples: plugins, requests and a codec on which the theorems are used.
--
-- Network/Address (Blocks): the addresses, `is_global_address`, `is_fixture_address`, with the tests
--   of `std::net` that they call. An address is its octets or segments, numbers below 256 or 2^16.
-- Network/Host (Patterns, Listed): `HostPattern`, `normalize_host`, `valid_hostname`.
-- Network/Policy (Addresses, Pinned, Authorized): `ProxyPolicy` and `authorize_url`, `authorize_redirect`;
--   the state behind `&mut impl DnsResolver` is passed on explicitly.
-- Network/Examples: a manifest, a URL and a resolver on which the theorems are used.
--
-- Network/Cookies (Session, Store, Jars, Requests, Bounds, Access, Commit, Withheld, Exclusion,
--   Examples): cookie_jar.rs. Session has the bindings and `normalize_origins`, with `CredentialTargetOrigin::parse` of
--   crates/audiodown-plugin-api/src/manifest.rs; Store the limits, the header and the capture; Jars
--   the methods of `TemporaryCookieJars`, on the sessions that their lock guards and at a time `now`.
--
-- Supervisor/Protocol: the install operations of crates/audiodown-supervisor-protocol/src/lib.rs.
-- Supervisor/Install: install_operation.rs. State has its records and the `World`: the operations in
--   memory, the directories, the calls of the build adapter. Files has the accesses to the
--   directories, Sections what is done under one lock (`begin`, `set_built`, `set_failed`,
--   `set_state`, `acknowledge`, `cleanup_acknowledged`, `list`), Lifecycle (Building, Opening) what is composed
--   of these (`finalize`, `abort`; `run_build`; `reconcile_restart`, `open`). Steps says which changes of the
--   operations the bounds on them need: not which state follows on which, as long as an operation
--   has not ended. Simulation, Quiet and Composed show that the code makes no other changes; Bounds,
--   Interleaving, Listing, Finalized, Abort, Restart, Opened and Durable prove the rest.
-- Supervisor/Policy (Sandbox): crates/audiodown-supervisor/src/policy.rs, the containers and the
--   network of a plugin. What the two container specifications have in common is `Confinement`.
-- Supervisor/Examples: an operation and a plugin on which the theorems are used.
--
-- Concurrency. Each method of the cookie jars and each critical section of the install operations is
-- one step on the state that its lock guards; sequences of such steps, of any callers, are lists.
-- `search` takes as an argument the order in which the numbered calls finish: a function on the list
-- of numbered results, a rearrangement where a theorem says so. Asking a plugin is a function of the
-- request, so the model has no effects between the calls of one request.
--
-- Failures. An access of the supervisor to the disk succeeds, fails without an effect, or fails after
-- a part of it (a file replaced but not synced, a directory emptied but not removed), as a stream of
-- outcomes says, of which the theorems assume nothing.
--
-- Bounds. The loops are structural recursions on the candidates, the plugin cursors, the operations
-- or the cookies: no fuel is used. The loop that draws an ID for a cookie jar runs on the IDs drawn.
-- The limits of the source (sizes in bytes, numbers of entries) are constants by their names.
--
-- Parameters. serde_json, base64 and sha2 are the records `ContentJson` and `CursorCodec`; what the
-- cursor relies on is `IsCodec` (decoding undoes encoding) and `SeparatesRequests` (requests are
-- serialised apart, and the digests of two requests do not collide). The store and the plugins are
-- the record `Backend`. The parser of the url crate is a function to the parts of a `Url` that the
-- policy reads, and the resolver is any function of the host and its state.
--
-- serde_json and the build adapter of the install operations are the record `Host`, url,
-- cookie_store, psl and http for the cookie jars the record `Library`; what a commit reads out of a
-- store for the vault is the parameter `snapshot`.
--
-- Not modelled: tracing and the async runtime; the seeding of a cookie jar and the rest of the network
-- proxy (headers, the request loop); Docker and the rest of the supervisor; the plugin manager, the
-- vault, the storage and the HTTP server.
pub mod Base
pub mod PluginApi
pub mod Domain
pub mod Content
pub mod Network
pub mod Supervisor
