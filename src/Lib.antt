-- ===== src/Lib.antt =====
-- A model of rakoshare, a BitTorrent-based file synchroniser written in Go, and the theorems about it.
--
-- The program keeps the content of a share in files, cuts it into pieces and exchanges the blocks of
-- the pieces with its peers. A TorrentSession (torrent.go) owns a file store (files.go), the set of
-- its pieces (pkg/bitset/bitset.go), the pieces that are being downloaded (ActivePiece in torrent.go)
-- and the list of its peers (peers.go). Every peer has a state (peer.go), a goroutine that reads
-- messages from its connection and hands them to the session, one that queues the messages to it and
-- one that writes them; the connection may be a buffered one (conn.go).
--
-- A Watcher (dirwatch.go) hashes the directory into a torrent when it changes. The peers of a share
-- are found by trackers (trackerClient.go) and tell each other of peers (pex.go); they greet with a
-- header (listen.go), agree on the newest torrent by signed announcements of its infohash
-- (control.go), with the keys of the share (pkg/id/id.go), and fetch its info dictionary from each
-- other (metadata.go).
--
-- The files, by what they model:
--   Bitset      pkg/bitset/bitset.go: every method. An index out of range is a panic.
--   Files       files.go: find, ReadAt and WriteAt of the store and of its entries. The disk is a
--               function from names to contents; the one error of opening a file is that it is missing.
--   Store       files.go: opening a store, the names of part files, marking pieces as bad and
--               Cleanup. A change of an entry that is a copy is lost, as it is in the code.
--   Active      torrent.go: ActivePiece and the loop of RequestBlock2. A count is an int.
--   Peer        peer.go: peerState, its request table, choking, the framing of messages, and the
--               goroutine queueingWriter as a relation between its states.
--   Conn        conn.go: the goroutine of a BufferedSpipeConn over the events of its select.
--   Peers       peers.go: the list of the peers. Splitting an address and reading a port are
--               parameters (record Net).
--   Requesting  torrent.go: RequestBlock, ChoosePiece, checkRange, RequestBlock2, requestBlockImp.
--   Serving     torrent.go: the cases REQUEST, CANCEL and BITFIELD of generalMessage, sendRequest,
--               isInteresting.
--   Pieces      pieces.go: computeSums, whose hashing goroutines deliver in any order, checkPieces,
--               checkPiece and checkEqual. SHA-1 is a parameter.
--   Download    torrent.go: the case PIECE of generalMessage with RecordBlock, doChoke,
--               removeRequests and doCheckRequests, over the peer that is served and the others.
--   Messages    torrent.go: DoMessage, generalMessage, extensionMessage, ClosePeer, and the case of
--               the loop of DoTorrent that takes a message.
--   Id          pkg/id/id.go: identities and their strings. ed25519, scrypt and base58 are parameters
--               (record Crypto).
--   Watch       dirwatch.go: BlockHasher, createMeta, torrentWalk and the turns of watch. The walk of
--               the file system is the list of what it visits.
--   Tracker     trackerClient.go: queryTrackers, queryTracker, getTrackerInfo and the shuffling. HTTP,
--               URLs, bencode and the printing of addresses are parameters (record Http).
--   Control     control.go: the announcements, their revisions and messages. bencode, ed25519 and
--               SHA-1 are parameters (record Wire).
--   Metadata    metadata.go: DoMetadata, and DoExtension of torrent.go. bencode and SHA-1 are
--               parameters (record Coding).
--   Greeting    the headers of torrent.go and control.go, and readHeader of listen.go.
--   Joining     hintNewPeer, AcceptNewPeer and AddPeer of torrent.go and control.go.
--   Life        the ticks of DoTorrent, Quit, and the turns of the loop as a relation.
--   Loading     load, reload and NewTorrentSession of torrent.go, over the store and its pieces.
--   Links       parseMagnet of uri.go; NewMetaInfo and RawInfo of metainfo.go.
--   ShareSession  pkg/sharesession/sharesession.go: the tables of a share's database.
--   Main        main.go: the main loop of Share over what its select receives, with the case of the
--               loop of the control session that takes a message.
--   Pex         pex.go: a round of StartPex, and the reading of peers and flags.
--   Base        names that the modules share: lists over the native numbers, the tests, the binary
--               digits of a number, and Run, the outcome of a call: it returns, it panics, or the
--               model's fuel ran out.
-- A definition bears the name of its Go function in snake case. A child module holds the proofs about
-- its parent's definitions, and a module Tests holds runs and the theorems at concrete inputs.
--
-- Bytes are numbers below 256 and messages are lists of bytes. Lengths and offsets that the program
-- never makes negative are natural numbers; an int that may be negative is of type ℤ. The wrapping
-- of a 32-bit number is written out where the code converts to one; sums and products of 64-bit
-- offsets and the counts and counters that are an int in the code do not wrap. A map is the list of
-- its entries in the order in which a run ranges over it, so what holds of every list holds of
-- every order. A random number and a time are arguments.
--
-- Loops without a bound of their own run on fuel. The loop of RequestBlock2 is given a round more
-- than the piece has blocks, the reader of messages a round more than the stream has messages or
-- bytes, and the goroutine of a buffered connection a round more than its longest packet has bytes,
-- the hasher a round more than a file has bytes, and the reader of a list of peers a round more
-- than it has peers. In the endgame the loop of RequestBlock2 has no such bound. The main loop runs
-- over the list of its events.
--
-- The main loop reaches the session of a torrent only by its interface, the record TorrentSessionI,
-- as the code does; the theorems rely on no law of it. What goes on between two turns of the main
-- loop is the turn `heard` of the control session and what a turn takes from the disk.
--
-- Not modelled: connecting to peers, and the ticks of the loop of the control session; starting
-- the watcher; and what only talks to the system or the network (port mapping, local discovery,
-- sockets, the commands).
mod Base
pub mod Bitset
pub mod Files
pub mod Active
pub mod Peer
pub mod Conn
pub mod Peers
pub mod Requesting
pub mod Serving
pub mod Store
pub mod Pieces
pub mod Download
pub mod Messages
pub mod Id
pub mod Watch
pub mod Tracker
pub mod Control
pub mod Metadata
pub mod Greeting
pub mod Pex
pub mod Joining
pub mod Links
pub mod Life
pub mod Loading
pub mod ShareSession
pub mod Main
