-- ===== src/Lib.antt =====
-- A verification library for DefraDB, a database of documents that replicas merge as CRDTs.
--
-- The parts, and the files that model them:
--   * core/key.go: Keys. The key types of the datastore, the headstore and the system store as
--     records, their texts (`to_string`, `head_to_string` and the like for `ToString`) and the
--     parsers (`new_data_store_key`, `new_head_store_key`); `prefix_end` is `PrefixEnd`. A Go string
--     or byte slice is a list of numbers (`Bytes`).
--   * client/descriptions.go and db/base/collection_keys.go: Collection. The descriptions of collections
--     and the keys that they make, over Keys; Prelude/Decimal is fmt.Sprint of a number.
--   * encoding/binary's unsigned varints, which store a priority: Varint.
--   * datastore/store.go: Store. What the CRDTs call of a datastore, over a list of entries that
--     stands for a map. A `Backend` says at which operations on which keys the storage fails, so that
--     every error path is in the model. Store/Txn is datastore/txn.go, a transaction with its callbacks.
--   * core/delta.go and core/crdt: Crdt. The deltas; Crdt/Lww is lwwreg.go, Crdt/Composite is
--     composite.go, and the priorities of base.go stand in Crdt itself. Methods that write are
--     functions on the store that return their error beside what they have written
--     (Prelude/Exec).
--   * datastore/blockstore.go: Blockstore, over Store, with the blocks of a hash that is a parameter.
--   * merkle/clock: Clock. heads.go (`write`, `replace`, `list`) over Store at the texts of head keys,
--     and ProcessNode of clock.go as `process_node`. Clock/Node is makeNode of ipld.go over the
--     interface `Dag`, the nodes of merkledag; Clock/Node/Links has its laws. Clock/Add is putBlock and
--     AddDAGNode over the three stores that a clock writes to: of the CRDT, the heads and the blocks.
--   * merkle/crdt: Merkle. A CRDT and its clock: `set` of a register, `set_composite` and
--     `delete_composite` make a delta, publish it and write what the clock says. A `Setting` collects
--     what one register needs of its stores. Merkle/Factory is factory.go, over any constructors.
--   * core/data.go: Spans. The spans of keys of a scan; a slice that Go makes with empty places is a
--     list of options.
--   * db/fetcher/fetcher.go: Fetcher. The datastore's iterator is a `Source`, which gives the results for
--     a span. Fetcher itself has the fetcher of one kind of documents (`init_fetcher`, `start_fetcher`
--     and `fetch_next` for init, start and FetchNext), Fetcher/Merged the one with a second fetcher for
--     deleted documents. Fetcher/Reference says which documents a list of pairs makes, and Fetcher/KeyOrder
--     what one order of keys is.
--   * planner/commit.go and db/fetcher/dag.go: DagScan. The scan of commits from their heads; `next` is
--     the body of Next, and `scan` its calls. A Cid is its text, and a block is read by a parameter.
--   * planner/arbitrary_join.go and planner/pipe.go: Group. The groups of a group node, as an ordered map
--     from keys to cells. A plan below is what it gives, one row after another; Group/Pipe is the pipe that
--     gives each of them a copy of its own, and Group/Readers its two readers.
--   * events/simple.go: Events. The channel of commands and the goroutine that handles them, one call
--     after another, as a list of commands; what it sends and closes is a log. The buffers of the channels
--     and the waiting of a send on one that is full are not modelled: where a subscriber stops reading,
--     the goroutine, and with it Close, waits for ever.
--   * datastore/memory: Memory. Memory/Item and Memory/Datastore are memory.go, Memory/Txn is txn.go
--     with the commit of memory.go, Memory/Query is the Query of txn.go, Memory/Auto is Put and
--     Delete of memory.go, Memory/Purge its executePurge and Close, and Memory/Batch is batch.go. The
--     B-tree is other code: Memory/Tree is what its documentation says of it, and Memory/Model is a
--     sorted list that does so.
--   * connor, and planner/mapper/targetable.go: Connor. Connor/Value has the values, keys and numbers,
--     Connor/Compare the comparisons, Connor/Like the patterns, Connor/Eq the rest of the operators
--     (`eq`, `match_with`, `match` for `Match`). A condition is one recursion: an operator is given
--     `eq` of its condition and of its condition's elements as functions of the data.
--   * planner/limit.go: Limit. The plan below a limit node is the sequence of results of its Next.
--   * planner/order.go, planner/values.go, db/base/compare.go, db/container and core/doc.go: Order. The
--     order node, which reads its plan to the end into a values node and sorts it. Go's sort.Stable is
--     the insertion sort that it is on up to 20 items; of more it merges blocks, with the same result
--     where Less is a strict weak order, as Order/Less shows of the rows that Order/Node is about.
--   * db/sequence.go: Sequence, over Store, with the eight bytes of a number.
-- The CRDTs write through Store at the texts of Keys; the transactions of Memory are one
-- implementation of such a store.
--
-- Bounds: priorities and versions are 64-bit numbers; where a number wraps in the code, the
-- definition has the remainder, and the theorems say where they need that it does not. Loops
-- run over lists. The rounds of clearOldInFlightTxn and of executePurge take fuel, one more than there
-- are entries, which Memory/InFlight and Memory/PurgeEnds are about; the loop of FetchNext one more
-- than there are results left, since each round but the last takes one; and the calls of a scan of
-- commits as much as DagScan/Reached says.
--
-- Other code, as parameters: the decoding and the text of a Cid (go-cid) and the hash of a block, the
-- nodes of merkledag, the CBOR coding of deltas, the B-tree, the `NewKey` of go-datastore; of Go,
-- floating-point numbers, the package time and reflect.DeepEqual. The time of day is an argument. Not
-- modelled: contexts, locks (one operation at a time), the collections, the coding of documents'
-- values, the other nodes of the planner, the stores on disk, and the parts that are input and output
-- or glue (network, HTTP, command line, configuration, GraphQL parser).
pub mod Blockstore
pub mod Spans
pub mod Order
pub mod DagScan
pub mod Events
pub mod Fetcher
pub mod Merkle
pub mod Prelude
pub mod Group
pub mod Keys
pub mod Varint
pub mod Store
pub mod Crdt
pub mod Memory
pub mod Connor
pub mod Clock
pub mod Collection
pub mod Limit
pub mod Sequence
