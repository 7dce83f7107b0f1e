-- ===== src/Lib.antt =====
-- PariNS, a filtering DNS server: its admission budgets, its handling of client subnets, its
-- response cache, the learning of shared answers and the owner of background refreshes.
--
-- Every query and connection passes the source limits (src/limits.rs) before it is served, and every
-- sign-in of the management interface passes the sign-in budget (src/manage/auth_budget.rs). A query
-- that misses the cache is prepared for its upstream (src/ecs.rs), and the scope of the answer
-- decides which clients it may be served to and which stored answers it replaces (src/cache.rs).
-- Answers that agree across networks are learned for a whole family (src/cache/sharing.rs). Fresh
-- hits near expiry, and queries whose caller left, are finished by the refresh owner
-- (src/resolver/refresh.rs), whose answers are admitted like any other.
--
-- Prelude, Prelude/*: lists, options, tests and numbers that the other files share. Prelude/Assoc
--   is a hash map as an association list, and Prelude/Sweep a map whose keys stand once each in a
--   queue, as both budgets keep it.
-- Net, Net/*: `IpAddr` as a number with its family. The `ipnet` crate is the interface `IpNet`, a
--   record of its operations with their documented laws; every definition that uses subnets takes
--   one. Tests/Cidr.antt gives a concrete one, so the laws can hold.
-- Limits/Settings, Limits/Table, Limits/Limiter: src/limits.rs. `Table.State` is `State`, `refill`
--   is `Entry::refill`, `acquire` is `acquire_at` under the lock, `release` is `Permit::drop` under
--   the lock; `Limiter.acquire_at`, `Limiter.drop`, `Limiter.source` and `Limiter.create` are the
--   methods around them. The other files of Limits hold the lemmas and theorems.
-- AuthBudget/Table: src/manage/auth_budget.rs. `attempt` is `attempt_at` under the lock, `expire` is
--   `expire`, and `identity` the peer that is charged.
-- Ecs/Scope, Ecs/Prepare, Ecs/Response: src/ecs.rs. `prepare`, `source_scope`, `response_scope`,
--   `matches`, `reply_scope` and `response_matches` have the source's names. Ecs/Wire:
--   `validate_wire`, its loops over records and options, over the DNS library's reader, whose
--   interface is `Decoder` of Ecs/Decoder; a concrete one is in Tests/Wire.antt. Ecs/Wire/Options
--   and Ecs/Wire/Records relate the bytes to options and records, Ecs/Wire/Complete and
--   Ecs/Wire/Accepts show what passes, and Ecs/Wire/Sound has the theorem. A loop over options has
--   one round more than the data has bytes. Ecs/Overlap: `scopes_overlap` and
--   `learned_serves` of src/cache.rs.
-- Cache/Select: `Shard::select` of src/cache.rs, on the bucket that the key finds; `Entry` keeps the
--   fields that the choice reads. Cache/Best holds its lemmas and theorems. Cache/Sizing: the budgets
--   that `Cache::new` gives its shards, with the lemmas and theorems in Cache/Shares.
-- Cache/Shard, Cache/Admit, Cache/Store, Cache/Failing, Cache/Serve, Cache/Invalidate, Cache/New: one
--   shard of src/cache.rs, with the decisions of src/cache/decision.rs in Cache/Decision. `remove_id`
--   is `Cache::remove`; `evict`, `prune`, `place`, `admit` and `admit_failure` have the source's
--   names, `lookup_locked` is `lookup_inner` under the lock, and `invalidate_shard` what `invalidate`
--   does to each shard. The key, the wire bytes and the fingerprint are types of their own, and what
--   is computed before the lock is taken is the record `Request`. The `lru` crate is the interface
--   `LruCache` of Cache/Lru, given by what each operation does to the sequence of entries in order of
--   use; Tests/Lru has a concrete one. Cache/Consistent says when a shard is consistent, and the other
--   files of Cache hold the lemmas and theorems.
-- Sharing/Samples, Sharing/Record: src/cache/sharing.rs. `observe` is `Table::observe` on the record
--   of one class, none where the table holds none; `promotable` and the phases have the source's
--   names. Sharing/Evidence says what stands behind a record, and Sharing/Apart, Sharing/Learning,
--   Sharing/History and Sharing/Revocation hold the lemmas and theorems. The type of fingerprints is
--   a parameter with decidable equality.
-- Refresh/Owner: src/resolver/refresh.rs. `schedule`, `cancel` and `finish` are `schedule`, `cancel`
--   and `Completion::drop`; a task is the key of its completion. Refresh/Room and Refresh/Slots hold
--   the lemmas and Refresh/Life the theorems.
-- Policy/Key, Policy/Labels, Policy/Rules: src/policy/canonical.rs, `Key`. `rule`, `query` and `push`
--   have the source's names; a text is its bytes and a name its labels. Policy/Labels says what a key
--   says of labels.
-- Policy/Radix: src/policy/radix.rs. `Node`, `Index`, `Match`, `lookup` and `block_match` have the
--   source's names. A walk is a loop over rounds; `descend` is the step to a child, and the search
--   by first byte over sorted children is the search for the one child with the byte. A walk has as
--   many rounds as the key has bytes, and one: each edge has a byte. Policy/Radix/Stored lists the
--   keys of an index and says when it is well-formed. Policy/Radix/Verdict decides by the covering keys alone, and the other
--   modules there relate the walks to it.
-- Policy/Text, Policy/Printing: `Index::rule` of src/policy/radix.rs. The decoding of UTF-8 is a
--   parameter that takes ASCII as it is.
-- Policy/Explain, Policy/Covered, Policy/Outcome, Policy/Explained: `Policy::explain` of src/policy.rs.
-- Policy/Chain, Policy/Chain/Reached: `Policy::apply_response` of src/policy.rs over any function that
--   blocks names. Names are a parameter with decidable equality, which is the DNS library's; the loop
--   has two rounds more than the answer has records. Policy/Responses: the method of a
--   slot, of src/policy/response.rs. Policy/Trace: `block_answer`, with the parts that the message
--   is written from in place of the message; a query has a question. `Name::from_ascii` is a parameter
--   of which nothing is assumed, and its refusal is a panic. Policy/Blocked and Policy/Traced: the
--   theorems on it, alone and over the chain.
-- Policy/Disk: src/policy/radix_disk.rs, `Index::walk` and `validate_key`. A refusal and an index out of
--   range are both none. Each round pushes a child or ends a node, so that two rounds for each node
--   are enough. Policy/Disk/Entered, Policy/Disk/Covering and Policy/Disk/Accepted show what an
--   accepted index has.
-- Flight: src/flight.rs. `new_hold`, `leave` and `drop_hold` are `Hold::new`, `leave` and `drop`;
--   `join` is the steps `bypass`, or `reap`, `find_group` and then `join_group` or `lead`, with those
--   of other threads between them. A work keeps how many holds are counted beside the counter that
--   the code keeps, and its other references. Flight/Works holds the invariant, Flight/Moves and
--   Flight/History its preservation, and Flight/Single the theorems.
-- Tests/*: runs on concrete values, and the theorems at inputs that meet their hypotheses.
--
-- Modelling. A call that holds a mutex throughout is one step on the state; threads are sequences of
-- such steps in any order. Times are nanoseconds as numbers. An `unwrap` of nothing, an `expect` and
-- a counter that would fall below zero are results of their own (`panic`, `fault`, or `none`), so
-- that a panic is told apart from an answer. Subtractions of times stop at zero, as `duration_since` and
-- `saturating_duration_since` do. The cast of the credit to 64 bits is kept as a remainder. The two
-- sweeps are bounded loops: they take as many rounds as the source does, at most 16, so there is no
-- fuel. Of a DNS message the model keeps the class of its question and its EDNS payload size and
-- client subnet, all that src/ecs.rs reads to prepare a query; the DNS library's own limits on the
-- payload size are not part of it. In a shard an `Arc<Entry>` is its id: the bucket and the partition
-- share one entry, a reader's clone is an id in `held`, and an entry that left the cache while a
-- reader holds it is in `orphans`, so that its charge leaves the byte counter with the last clone.
-- The loop that makes room runs on fuel, one round more than the partition has entries.
--
-- Not modelled: sockets, TLS, QUIC and HTTP, the database, files and processes, the web interface
-- and the management handlers, which are I/O or calls of other libraries. `Context::finish`, the
-- text form of scopes of src/ecs.rs, `password_work` of
-- src/manage/auth_budget.rs (a semaphore of the runtime), the LRU table around the records of
-- src/cache/sharing.rs and the hash that makes their fingerprints, and of src/cache.rs
-- the policy rules, the preparation of a response, snapshots and diagnostics are not modelled either.
-- Of the policy the build of the index, the configuration files, the messages that
-- src/policy/response.rs writes, and the byte layout and digests of src/policy/radix_disk.rs are left out.
pub mod Flight
pub mod Prelude
pub mod Net
pub mod Limits
pub mod AuthBudget
pub mod Ecs
mod Tests
pub mod Sharing
pub mod Cache
pub mod Policy
pub mod Refresh
