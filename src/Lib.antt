-- ===== src/Lib.antt =====
-- khala-link: the relay of khala's store-and-forward mailbox network, and the chat gateway beside it.
--
-- A node keeps its mailbox under $KHALA_HOME: letters in spool/for/<node>, presence leases, stream
-- entries and session statuses. Two nodes are joined by one connection, one end dialing and one end
-- serving. Each end offers its objects (OFFER), sends those that the other lacks (NEED, DATA), and
-- unlinks a letter of its own spool once the other has written STORED. The gateway relays letters
-- between the mailbox of `user` and a chat.
--
-- Parts and files. Paths on the right are from the repository's root.
--   Common    tests on numbers, lists, results and texts that the other files share
--   Wire      link/protocol.go: Codec is encoder and decoder, Frames is frameWriter.write and
--             readFrame, Messages and Offers are the frame bodies, Digest is transferID
--   Text      what the code uses of Go's strings, strconv and regexp
--   Names     link/config.go: validNode, validBasename, validMessageID, validGeneration, presenceNode
--   Config    link/config.go: loadConfig and dialEndpoints; Config/Dialing holds the lemmas on them
--   Install   link/install.go: Destination is installer.destination, Receive is installer.receive and
--             inspect, Quarantine the two quarantines and removeTransit, Presence the replacement of
--             leases, Epochs the expiry of epochs; Files is the file system; Staging, Immutable,
--             Mailbox, Objects and Quarantine/Keeps hold the lemmas on receive and destination
--   Relay     link/pump.go: Handshake is handshake and the checks of runRelayLoop, Reader is readLoop
--             and installIncoming, Sender and Exchange are sendCandidate and waitResponse; Network
--             joins two relays by their channels; Named, Pending, Promises, Stored, Turns, Order,
--             Delivery and NoLoss hold the lemmas on what either end promises and unlinks
--   Rolling   rateLimiter.wait of link/gateway.go
--   Gateway   link/gateway.go: Split is splitMessage, Posts is post, Queue is outQueue with the steps of
--             scanInbox, sendLoop and deliver, Status is deriveStatus and checkStatus, Inbound is
--             handleBatch and handleInbound; Letters, Once, Spacing and Offsets hold the lemmas on them
--   Conduit   link/conduit.go, the doorbell: Schedule is notificationRetryAfter, Inbox the unread letters
--             and queueDigest, Ring the data, Restore restoreState, Notify maybeNotify in the order of its
--             parts; Pace, Replay and Restart hold the lemmas on the pace of the frames
--   Leases    link/runtime.go: claimLease, liveLeaseOwnerRegistration and the release; healLease of
--             link/conduit.go; Fencing and Contest hold the lemmas on them
--   Notices   link/parent.go: noticeParents for one identity, the record of a notice and validateParent;
--             Record and Told hold the lemmas on them
--   Telegram  link/telegram.go: callRetry with its backoff; Retries holds the lemmas on it
--   Triage    link/triage.go: Conf is loadTriageConf, Letters triageTag and ask with its tries, Engine
--             observe and reserveLocked, Workers judge and store and the steps, Frame frameLine,
--             Garbage collectGarbage and logOnce; Thresholds, Busy, Exclusive, Reservations, Budget,
--             Settled, Keeping, Once, Tries and Counts hold the lemmas on them
--   Ears      link/ears.go: Snapshot, Records and Parse are parseListenerSnapshotBytes, Format is
--             formatListenerSnapshot, Sequence nextSnapshotSequence; Identities, Invariant, Accepted,
--             Order and Bounds hold the lemmas on them
--   Watch     link/watch.go: scanAll with the scans below it; Offered shows that the other end's installer
--             takes what they find, Complete that they find each file to offer
--   Examples  runs at concrete values
--
-- How state is modelled. A relay's state is the record Relay.State.State: the variables of readLoop, the
-- maps that reader and sender share, and the files. Each case of readLoop, the end of an install and
-- each answer that the sender waits for is a function from state to state with the frames it writes, so
-- that the goroutines' interleavings are sequences of such steps. Two relays and the frames between them
-- are a relation of steps, Relay.Network.NetStep, and so is the lease file of an identity. The notifier and
-- the parent notices are functions from their state and what a scan meets, with a restart as a step that
-- leaves only the files. What the operating system answers to one receive is a record Io with one
-- answer for each call. The files are a function from paths to
-- contents; rename, link and RENAME_NOREPLACE act on it as documented. A directory or a symbolic link
-- where a file is expected is not represented.
--
-- Numbers are native naturals; the 64-bit and 32-bit fields of frames and the int64 clock keep their
-- bounds, and the uint64 epoch of a lease wraps. Every loop is structural recursion, but for four over
-- a byte string whose fuel is its own length or the number printed, so that it cannot run out:
-- decimal, trim_space, fields and header_type.
--
-- SHA-256 is a parameter sha256. The installer and the relay take the parser of listener snapshots as
-- a parameter parse; Ears.Parse.parse_snapshot is the one of the code. In triage.conf,
-- strconv.ParseFloat is a parameter, and a float64 is its sign and the bits that order its magnitude.
-- The triage engine is a function for each step of its goroutines, and a run is any list of steps.
--
-- Not modelled: failing writes of the transport, the free text of an ERROR, log lines, the path that
-- receive returns for the log, test delays, touchFresh, keepalive, handleHint and the watches of the tree, the
-- recovery of stale staging files, the reading of files, the gateway's commands,
-- readTriageMessage, closing the triage engine, building the listener model, the registration of
-- sessions, the choice among sessions that reclaim a lease, the text of a frame and of a parent notice,
-- the dashboard and the shell tools.
pub mod Common
pub mod Wire
pub mod Text
pub mod Names
pub mod Install
pub mod Relay
pub mod Config
pub mod Rolling
pub mod Gateway
pub mod Conduit
pub mod Leases
pub mod Notices
pub mod Telegram
pub mod Triage
pub mod Ears
pub mod Watch
pub mod Examples
