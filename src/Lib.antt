-- ===== src/Lib.antt =====
-- This library verifies the core of the package neural_pods: the admission of pods to measured
-- memory, the mesh over which they talk, the contracts that link them, the household in which
-- pods lend memory to a model, the placement of regions with its leader lease, the runs of task
-- graphs, the registry of knowledge and artifacts with revocation along their lineage, the
-- adaptive batching of requests, the framed transport of messages, the replication of records
-- with a quorum, and the streams between pods. Each part is translated from its Python file
-- function by function, under the source's names.
--
--   neural_pods/resource_runtime.py: Resource. `ResourceGovernor` is the record Governor, with
--     the counter as an association list; each method is the function of its name and returns a
--     result and the new governor. Its lock makes every call one step, so threads are sequences
--     of steps (Resource/History), with negative activations and leases given back twice among
--     them. `ResourceBoundHandler` is Resource/Handler, over any wrapped handler.
--   neural_pods/mesh.py: Mesh. Topics are lists of levels (Mesh/Topic), `envelope_refusal` is
--     Mesh/Envelope, and `MeshEndpoint` with publish, forward, subscribe and the arrival of
--     messages is Mesh/Endpoint and Mesh/Publish. A chain of forwards by any pods is a relation
--     (Mesh/Chain).
--   neural_pods/pod_contract.py: Contract. Manifests, links, and the lifecycle gate; a life of
--     a manifest is a relation (Contract/Gate).
--   neural_pods/household.py: Household. Offers, requests, reservations and the log of events
--     are the record Household; request_allocation stands with the types, the placement and
--     start in Household/Placing, join, approve, release and the token cache in
--     Household/Calls, and restore_from_events in Household/Restore. Histories of calls are a
--     relation (Household/History).
--   neural_pods/placement.py: Leader is `FencedLeader`, with histories of its calls in
--     Leader/Fencing; Placement is `PlacementDriver`, whose choice of nodes is proved in
--     Placement/Selection and Placement/Slots, assign and route in Placement/Assign, the health
--     pass in Placement/Reconcile, and all calls together in Placement/History.
--   neural_pods/taskgraph.py: TaskGraph. A run is a relation between pools (the queue, the
--     running nodes, the outputs), of which the steps are a worker that takes a node and a node
--     that finishes; the checks of the constructor are TaskGraph/Validate, whose loop has as
--     many rounds as there are nodes.
--   neural_pods/registry.py: Lineage is the walk of `ancestors` and `revoke` over the edges.
--     Registry is the record of the tables; its writes are Registry/Writes, its reads
--     Registry/Queries, each with the outcome an operation leaves behind in Registry/Outcomes.
--     The rules of `_valid` are proved in Registry/Usable, what a revocation and a publish
--     change in Registry/Revocation and Registry/Heads, and histories of operations are a
--     relation (Registry/History).
--   neural_pods/adaptive_batcher.py: Batcher. The queues, the counter and the futures are the
--     record Batcher; `submit`, `close` and `cancel` stand with it, `_select` is
--     Batcher/Select, the worker's round `_run` is Batcher/Rounds, whose steps interleave with
--     those of the callers under the condition variable (Batcher/History).
--   neural_pods/raft_transport.py: Raft. A frame is a list of bytes; the encoder and the
--     decoder are functions between frames and messages, and Raft/Server reads a connection
--     from the chunks in which the network hands on the bytes.
--   neural_pods/replication.py: Replication. The rows of `PostgresReplica` and the writes of
--     `QuorumReplicator` are the module itself, its reads and its health Replication/Reads;
--     what each attempt on a replica comes to is an argument of a call. Replication/Quorum has
--     the sequences of calls, Replication/Register the register that the replicas implement,
--     and Replication/Fits the invariant that ties them.
--   neural_pods/pod_streams.py: Streams. `DuplexSession` is the record of its log with the
--     function of each operation, over sequences of calls in Streams/Duplex; `merge_branches`
--     is Streams/Merge, and Streams/Order is about the order in which branches arrive.
--   Common holds the shared helpers: Boolean tests with equality as an instance, lists,
--     dictionaries that keep their order, results of code that raises, and signed integers with
--     a counter.
--
-- The parts meet at values. An envelope carries the hop budget, deadline and trace of a link,
-- and a bound handler holds a lease of the governor during a call.
--
-- Python's integers are unbounded and are ℤ here, or the native ℕ where they only count or
-- name; texts that are only compared are numbers. Four loops run on fuel: that of
-- `_validate_dag` has a round for each node; the walk over the edges of the registry has one
-- for each row of its table; the reading of a message has one for each byte that is missing,
-- since a read that gives nothing ends it; and the reading of a connection has one for each
-- byte that arrives, since a frame has at least the bytes of its header. The theorems on them
-- show that this is enough; the other loops run over finite lists or a fixed number of
-- attempts. A restore reads the newest million events, as the source does; the theorems on it
-- ask for a log that is not longer. Parameters are the keyed digest of an envelope, what JSON
-- gives back for its body, the digest of a household's key, the digest of a manifest, the
-- digests of the registry, the broker's answers, what the network does to each put and get of a
-- replica, the handlers that are wrapped or run, and the function that runs a batch.
--
-- Not modelled: sockets, threads beyond their sequences of locked calls, files, SQL as such
-- (the tables of the registry are lists) and vector back ends, and the tensor code; floating
-- point (times are whole milliseconds, and a NaN is left out).
pub mod Common
pub mod Resource
pub mod Mesh
pub mod Contract
pub mod Household
pub mod Leader
pub mod Placement
pub mod TaskGraph
pub mod Lineage
pub mod Registry
pub mod Raft
pub mod Batcher
pub mod Replication
pub mod Streams
