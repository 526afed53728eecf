-- ===== src/Lib.antt =====
-- The threshold signing service: peers that agree on a coordinator, start a signing, key generation
-- or resharing process together, and talk over libp2p streams.
--
-- Paths are from the repository's root. What each file models:
-- - Prelude: lists over native numbers, membership and equality tests, results, permutations, and Go
--   maps as association lists (Prelude/Maps). A Go string or byte slice is a list of bytes.
-- - Peers: tss_util/tss/ecdsa/common/utils.go and IsParticipant of tss_util/tss/util/util.go. A peer
--   id is a string of bytes. Its text form (Pretty, String), peer.Decode and keccak256 are the
--   parameter PeerLib.
-- - Sort: Go's sort.Sort and slices.Sort as the insertion sort that they run on short slices, with
--   what is needed of orders and reorderings. Session: SortPeersForSession and Less of tss_util/tss/util/sort.go.
-- - Message: tss_util/comm/messages.go and communication.go.
-- - Elector: tss_util/comm/elector. Static is static.go. Bully is bully.go: `elect`, `on_received` and
--   `receive_all` are elect and startBullyCoordination, `listen` the listener. Whether a message comes
--   before a timer fires is a Boolean that the environment gives.
-- - Process: the interface TssProcess, the errors of tss_util/tss/errors.go and
--   tss_util/comm/errors.go, and what the code calls of conc and encoding/json (Runtime).
-- - Coordinator: tss_util/tss/coordinator.go. Initiate is initiate and broadcastInitiateMsg, Await is
--   waitForStart and watchExecution, Execute is Execute, start, retry and handleError, and Calls is two
--   calls of Execute at once, in steps at the test of pendingProcesses and at its two changes.
-- - Ecdsa/Signing and Ecdsa/Monitor: tss_util/tss/ecdsa/signing/signing.go; the protocol of tss-lib is
--   a parameter.
-- - Ecdsa/Keygen and Ecdsa/Resharing: tss_util/tss/ecdsa/keygen/keygen.go and
--   tss_util/tss/ecdsa/resharing/resharing.go: what they tell the coordinator, and the start parameters
--   of resharing; Ecdsa/Resharing/Parties is sortParties, and Ecdsa/Resharing/Running is
--   NewResharing, what Run gives the protocol, and the end message; Ecdsa/Parties is CreatePartyID and
--   PartiesFromPeers of tss_util/tss/ecdsa/common/utils.go. The lists are sorted by slices.Sort, in
--   Sort/Total.
-- - Ecdsa/Messages: tss_util/tss/ecdsa/common/base.go, and TssMessage of
--   tss_util/tss/message/message.go. The party of tss-lib is a state with a function for its updates.
-- - Ecdsa/Signing/Running: what Run of a signing gives the protocol; Ecdsa/Parties/Own finds the party of
--   the node.
-- - PropStore: tss_util/store/propstore.go, over a database that is a parameter.
-- - Config/General: tss_util/tss_config/chain/config.go: the checks of one chain, and the flags over it.
-- - Comm: SubscriptionId is tss_util/comm/subID.go; Subscriptions, Streams, Framing and Libp2p are subscription.go, manager.go,
--   util.go and libp2p.go of tss_util/comm/p2p, Health is tss_util/comm/health.go, and Gate is
--   gater.go of tss_util/comm/p2p. The host, its DNS
--   resolver and JSON are the parameters Network and MessageJson.
-- - Frost: tss_util/tss/frost. Parties is common/util.go, Messages common/base.go, Signing, Keygen and
--   Resharing the files of these names; the protocols of multi-party-sig are parameters.
-- - Storage, Keyshare and Topology: the files of the stores; tss_util/keyshare/ecdsa.go and frost.go;
--   tss_util/topology/topology.go and store.go. JSON and binary forms are parameters. Keyshare/Locking is
--   the lock of the key share, in steps at the calls of all processes.
-- - Config: Relayer is tss_util/tss_config/relayer/config.go, Env is tss_util/tss_config/env.go, and
--   Chains is processRawConfig of tss_util/tss_config/config.go.
-- - Service: the two handlers of service/event_handlers.
-- - Strconv: what the code uses of fmt, strconv and encoding/hex: decimal digits, ParseInt in base 0,
--   and hexadecimal text.
-- - Examples: runs on small inputs, in a world of three peers.
--
-- How the parts interact: Execute asks the static elector for a coordinator, and runs initiate on that
-- node and waitForStart on the others. They exchange initiate, ready and start messages by Broadcast
-- and Subscribe, then run the process. If that fails, handleError asks the bully elector, which talks
-- over the same communication, and starts again without the peers that are to blame.
--
-- State and loops. A method with a receiver takes the record and returns the new one. A loop over a
-- select is a recursion over the list of what the channels and timers give it; when the list is at its
-- end, the loop still waits. What a loop does is a log of effects. Tasks of a pool that run side by
-- side have their logs one after the other, and the theorems about them speak of what is in the log; the
-- tasks of a broadcast take their steps in the order of a schedule, and the goroutines that send a
-- message on are steps of a relation.
-- Metrics and logs are left out, and so are locks, but for that of the key share; operations under one
-- lock are one step.
--
-- Fuel. The decimal digits of n have n + 1 rounds, and a number has no more digits than that. The
-- loop over a stream has fuel for its rounds, and has returned if the fuel is above the number of bytes.
--
-- Bounds. Counts are natural numbers, as are thresholds where they cannot be negative; the hash of a
-- peer is below 2 ^ 64, and the time in a subscription id is taken modulo 2 ^ 32, as the code does.
--
-- Not modelled: the protocols of tss-lib and multi-party-sig, libp2p, viper,
-- HTTP, the start of the service and the commands.
pub mod Prelude
pub mod Peers
pub mod Sort
pub mod Message
pub mod Session
pub mod Elector
pub mod Process
pub mod PropStore
pub mod Coordinator
pub mod Ecdsa
pub mod Strconv
pub mod Comm
pub mod Config
mod Examples
pub mod Topology
pub mod Storage
pub mod Keyshare
pub mod Frost
pub mod Service
