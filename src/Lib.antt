-- ===== src/Lib.antt =====
-- eShield is a DDoS shield: an XDP program that judges every packet in the kernel (eshield-ebpf), the
-- types and pure functions that it shares with user space (eshield-common), the service of a node
-- that controls the program (eshield), and a hub that connects the nodes (eshield-hub). This library
-- models the kernel side and the shared crate whole, and of the two services the parts that decide.
--
-- The kernel program runs once per frame. It parses the Ethernet, IP and transport headers, counts the
-- packet, passes it if its source is whitelisted, and otherwise asks eleven modules in a fixed order;
-- the first that acts decides, and a packet on which none acts passes. The modules talk through maps:
-- the flood detectors, the rate limit and the SYN proxy share one counter per source and write the
-- blacklist, which a later packet meets as the second module; every verdict moves the source's trust,
-- which scales its thresholds.
--
-- The node writes the same maps. Its control plane keeps a snapshot of the settings beside CONFIG and
-- the two limit configurations, and changes all of them on a patch, a reload or a measurement; it
-- blocks and releases addresses in the blacklist and stores the blocks; it applies what the hub sends
-- and reports its own blocks. A task renews the secrets of the SYN cookies, the adaptive engine blocks
-- sources whose packets are dropped again and again, and the login form is guarded by address. The
-- hub limits the requests of each node, lists which nodes are alive, merges the blocks that they
-- report and hands them out page by page. A synchroniser stores the blocks that the data plane makes,
-- and the console asks for tokens.
--
-- Files, and the code that they model:
--   Base, Base/*: numbers, machine words, bits, lists, dictionaries, text and results; no code of the
--     repository.
--   Common/*: eshield-common/src/lib.rs, the records and constants.
--   Pure/*: eshield-common/src/pure.rs. Block: merge_block_entry. Decay: decay_counter. Acl:
--     match_port_acl_entry. ConnTrack: conn_track_step. Cookie: build_cookie and its variants.
--     Checksum: checksum and tcp_checksum.
--   DataPlane/Kernel: what the program takes from the kernel and aya: LRU hash maps and ring buffers
--     with their laws, bpf_xdp_adjust_tail and bpf_csum_diff. DataPlane/State: maps.rs and the frame.
--   DataPlane/Parser/*: parser.rs, and the parse functions of main.rs.
--   DataPlane/Trust, RateCounter, Blacklist, RateLimit, Flood, ConnTrack, PortRate, PortAcl, L7Scan,
--     SynCookie, TcpReset: the files of eshield-ebpf/src with these names (Flood: the three *_flood.rs).
--   DataPlane/Rewrite: how syn_cookie.rs and tcp_reset.rs write into a frame.
--   DataPlane/Drop, Checks/*, Sample, Run: eshield-ebpf/src/main.rs.
--   Node/LoginLimiter/*: eshield/src/login_limiter.rs, and login_api_handler of web.rs as `login`.
--   Node/Config/*: eshield/src/config.rs. Sections: the sections that are read. PortAcl: the port
--     rules. Validate, Validate/Lists: validate and the functions that it calls.
--   Node/Ip: eshield/src/ip.rs. Node/Store: the blacklist table of eshield/src/store.rs.
--   Node/Control: eshield/src/control.rs. Runtime: the snapshot and the maps at the start and after a
--     reload. Patch: patch_runtime. Blocks: blocks, releases, and the hub's policies. Publish: the
--     report to the hub. Tables/*: set_port_acl and set_l7_patterns, and the loops that write the two
--     tables of the data plane.
--   Node/Auth/*: eshield/src/auth.rs. Node/BlacklistSync/*: eshield/src/blacklist_sync.rs.
--     Node/Audit/*: the chain of hashes of eshield/src/audit.rs.
--     Node/HubClient/*: the failover and the pulls of eshield/src/hub_client.rs.
--   Node/Cookies: init_cookie_secrets and rotate_cookie_secrets of eshield/src/main.rs.
--   Node/Adaptive, Node/Timeseries: eshield/src/adaptive.rs and timeseries.rs.
--   Hub/Limiter, Hub/Registry: eshield-hub/src/limiter.rs and registry.rs.
--   Hub/Store: eshield-hub/src/store.rs, the merges. Store/Query: query_since and
--     query_tombstones_since. Store/Removal: prune and delete_policies.
--   The files below these (Trust/Score, Ledger/*, Run/Precedence and so on) hold their theorems.
--   Tests/*: a kernel with concrete maps, and runs on it.
--
-- A function that changes maps takes the state and returns it; an early `return` is a branch. A map
-- is a value of its parameter type, so every write that the code makes is an operation on it; errors
-- of an insertion, which the code ignores, do not occur. Statistics are per CPU, and one packet is
-- handled at a time. A frame is the list of its bytes; a header field is read at its offset on the
-- little-endian target bpfel-unknown-none. Numbers are natural numbers with the wrap-around or the
-- saturation of the Rust operation written out; the unchecked `+= 1` of the counters wraps.
--
-- The loops of the program are bounded by constants or by a count from the configuration: they are
-- recursion on that bound (64 rounds of decay, at most 32 port rules, 8 signatures and 2 buckets), so
-- no fuel is needed. The clock is read once per packet and once per drop event; these readings and
-- the random number of a packet are arguments.
--
-- In user space a call takes the time and the random bytes that it reads; a hash map is a list of
-- entries, on whose order no theorem depends; a check that may fail returns a result. The one
-- loop without a bound of its own, the eviction of the adaptive engine, is on fuel: it gets as many
-- rounds as there are entries, and each round drops one. What the code takes from elsewhere is a
-- parameter: the parser of addresses, the lower case of Unicode, the file system and the interfaces
-- of the host, and tests of floating-point numbers. A call is one step, and steps come one after
-- another. Two calls of the code are steps only in this model: the login handler releases the lock of
-- the limiter between the check, the verification and the record of a failure, so that attempts can
-- pass the check together; and patch_runtime copies the snapshot, and writes it back later without
-- having held its lock, so that of two patches at a time one can be lost.
--
-- The tables of the hub's database are lists of rows in the order of their keys, and a transaction
-- that fails leaves them as they were. The chunks of a merge are on fuel, one round for each policy,
-- and every round takes one or more. The HTTP client, with what the hubs answer, the comparison of
-- tokens in constant time, SHA-256, and the entries of the data plane's map are arguments.
--
-- Not modelled: the concurrency of several CPUs on the shared maps; aya, the kernel and the verifier,
-- and the errors of their calls in user space; the errors of the database; logs; in
-- the node the table of projects, the danger level's averages, the threat feeds, the packet log, the
-- console's other handlers and the terminal; in the hub the HTTP interface; the console.
pub mod Base
pub mod Common
pub mod Pure
pub mod DataPlane
pub mod Hub
pub mod Node
pub mod Tests
