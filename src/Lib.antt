-- ===== src/Lib.antt =====
-- Termyard shows the sessions of several machines in one browser tab. This library models the parts
-- of its Go server that keep state, and proves what makes each of them correct.
--
-- Conventions. A Go string is a list of bytes (Base/Text.antt), a map an association list whose
-- order is the order of one `range` (Base/Assoc.antt), a `time.Time` a number of nanoseconds with 0
-- for the zero time. A method is a function from the state to the new state and its results; the
-- mutex that it holds makes it one step. The clock, the disk and what is not in the repository are
-- arguments: `now` is what `time.Now` returned, `saves` says which stores `config.WriteJSON` can
-- write. `encoding/json` is modelled by the decoded value: a `json.RawMessage` is empty, text that
-- does not parse, or a value (GroupSync/Tree.antt).
--
-- GroupSync: pkg/groupsync, the saved pane layouts that peers keep in step. Json.antt is decoded
-- JSON with `replaceStrings`; Tree.antt `removeLeafAny`, `collectMemberKeys` and `MemberKeys`;
-- Group.antt the record `Group` and its field-by-field merge; Store.antt the store and `enforce`;
-- Ops.antt `SetTree`, `SetName`, `SetRank`, `Delete`, `ApplyRemote` and `ApplySnapshot`; Heal.antt
-- `MigrateKey`, `RemoveSessionKey`, `Restore` and `Reconcile`. `Tree/Panes.antt` has the layouts
-- that a tree stands for, the abstract view of the tree functions. `sort.Slice` and `sort.Strings`
-- are insertion sorts. No part of it needs fuel.
--
-- Ring: `ringBuffer` of pkg/pty/daemon.go, the output that a session daemon replays to a client that
-- joins. Ring.antt has `Write`, `Snapshot` and `SnapshotTail` with their slice copies; a buffer is a
-- list of bytes, and `Ring/Holds.antt` says when it holds a given sequence. All sizes are natural
-- numbers: the source never makes one negative, since a capacity is positive and a request of no
-- bytes returns at once.
--
-- Streams: `StreamRegistry` of pkg/peer/streamreg.go, which brings a viewer's claim of a token and the
-- stream that a peer registers under it together, whichever comes first. Streams.antt has `Register`,
-- `Claim` (up to its `select`, and what it returns after), `expire` and `removeWaiter`; pointers are
-- numbers, and the sends and closes of a method are the messages it returns. `Streams/History.antt`
-- runs any sequence of these; timers fire at any point of it. A claim that is sent a stream may still
-- choose its timer, so a delivery there is one that the claim can make.
--
-- SessionOrder: `Store` of pkg/sessionorder/sessionorder.go, the ranks in the sidebar, merged key by
-- key between machines: `Set`, `ApplyRemote`, `ApplySnapshot`, `MigrateKey` and `splitKey`.
--
-- Coalescer: `outputCoalescer` of pkg/ws/coalescer.go, which joins chunks of terminal output into
-- websocket frames. `Coalescer/Frames.antt` has `writeFrame` and the closures of `run` (the loop of
-- `appendChunk` on the chunk's length as fuel, since a round takes a byte at least); Coalescer.antt
-- has the channels, the callers and one step for each `select` of `run`. The case that a `select`
-- takes is an argument; when that case is not ready, another that is ready is taken, as a `select`
-- does. `Coalescer/History.antt` runs any interleaving of the callers, the timer and the goroutine, a
-- send of `SubmitControl` after the coalescer was closed included; `Coalescer/Close.antt` runs the
-- goroutine and the timer alone. `Coalescer/Measure.antt` bounds the steps that are left once the
-- chunks are closed. The connection is the answer to each write.
--
-- Peers: `PeerStore` of pkg/identity/peers.go, the paired machines in the order of their pairing:
-- `Add`, `RemoveByPublicKey`, the four methods that change one field, and the lookups. A method
-- returns the list and what it reports; the list has changed also when the file was not written.
--
-- Links: `LinkSupervisor` of pkg/peer/supervisor.go, which dials the paired machines of Peers.
-- Links.antt has what each method, and each goroutine of `runReconnector`, does under one lock; a
-- context is a number that is cancelled or not, and `Links/Runs.antt` interleaves these parts in any
-- order, with any arguments, hence also as the methods do. `Links/Backoff.antt` has the waiting times;
-- what `rand.Int63n` returns is an argument. `Links/Methods.antt` composes `Start`, `AddPeer`,
-- `RemovePeer`, `SetEnabled` and `ReconnectNow` with the store of Peers; what they tell the manager and
-- the other machine is left out. There a method runs as one step, the 50 ms without the lock in
-- `ReconnectNow` included; its locked parts are interleaved with all others in `Links/Runs.antt`.
--
-- Forwards: `Store` of pkg/portforward/store.go, the exposed ports: `Add`, `Remove` and `StopAll`,
-- with the socat processes that run and those whose kill failed; whether a start succeeds, and with
-- which number, and whether each kill succeeds are arguments of the call.
--
-- SessionAttrs: `Store` of pkg/sessionattrs/sessionattrs.go, which sessions are parked or hidden and
-- which schedule owns one, merged key by key between machines: `Set` with its rollback,
-- `ApplyRemote`, `ApplySnapshot`, `Prune`, `SetScheduleID` and `MigrateKey`. The live keys and the
-- hosts that are online are arguments of `Prune`.
--
-- ToolEvents: `Tracker` of pkg/toolevents/tracker.go, what the coding agents in the panes are doing.
-- ToolEvents.antt has `Record` in its steps, `RecordArtifacts`, `ActiveTurns`, `GetAll`, `Clear`,
-- `ClearAll`, `ClearArtifacts` and `EvictArtifact`; Artifacts.antt the loop of `storeArtifacts`;
-- Monitors.antt `promoteInactive`, `RecordProgress` and `checkStuck`, each run without a call between;
-- History.antt any sequence of these. A status is one of the five of the source or another string.
--
-- Not modelled: processes, sockets, HTTP and websocket handlers, the command line, the web frontend,
-- and the parts that call the network or a language model.
pub mod Base
pub mod Coalescer
pub mod Forwards
pub mod GroupSync
pub mod Links
pub mod Peers
pub mod Ring
pub mod SessionAttrs
pub mod SessionOrder
pub mod Streams
pub mod ToolEvents
