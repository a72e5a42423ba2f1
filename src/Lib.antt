-- ===== src/Lib.antt =====
-- DIFS, a distributed file store over Named Data Networking, as a model with proofs.
--
-- A file is a sequence of signed packets, its segments. Nodes keep packets and manifests; a
-- manifest says which node keeps which segments of a file. The manifests are shared out among the
-- nodes by the first byte of their hash: the key space. A node is a set of handles around one
-- storage. `WriteHandle` fetches the segments of a new file and has a manifest created by the node
-- that the key space names, whose `ManifestHandle` fetches and keeps it; `ReadHandle` answers reads
-- and forwards searches; `DeleteHandle` leads a deletion from the manifest to the nodes with the
-- segments; `KeySpaceHandle` adds and removes nodes and hands manifests over. The commands travel as
-- TLV packets, and manifests and key spaces as JSON.
--
-- Where the model stands for which file:
--   Manifest      src/manifest/manifest.cpp: `Manifest`, getHash, toJson, fromJson, toInfoJson,
--                 fromInfoJson. Manifest/Hash and Manifest/Documents are its theorems.
--   Storage       src/storage/storage.hpp, the abstract class and its contract; Storage/Disk is the
--                 file system that src/storage/fs-storage.cpp (Storage/Fs) works on, and
--                 Storage/Mongo is src/storage/mongodb-storage.cpp. Storage/RepoStorage is
--                 src/storage/repo-storage.cpp, over any storage that keeps the contract.
--                 Storage/Fs/Listing and Storage/Mongo/Listing are the enumerations.
--   Tlv           the encoding of ndn-cxx as the packets use it.
--   Command       src/repo-command-parameter.cpp, src/repo-command-response.cpp and
--                 src/repo-command.cpp: Parameter, Response and Validation.
--   KeySpace      src/handles/keyspace-handle.cpp: the document and what the handlers do to it;
--                 KeySpace/Handle has the state, the handlers and the messages, KeySpace/Ring the
--                 same as intervals of bytes, the specification. KeySpace/Refines and
--                 KeySpace/Takeover relate the two, KeySpace/Served runs sequences of commands,
--                 KeySpace/Lookup, KeySpace/Moves and KeySpace/Sync are on the look-up, on handing
--                 manifests over, and on fetching the key space.
--   DeleteHandle  src/handles/delete-handle.cpp, with DeleteHandle/Replies, DeleteHandle/Segments,
--                 DeleteHandle/Responses, DeleteHandle/Process and DeleteHandle/Refused.
--   WriteHandle   src/handles/write-handle.cpp, with the commands that need the key space in
--                 WriteHandle/Creation, its types in WriteHandle/State, and the theorems in
--                 WriteHandle/Arrivals, WriteHandle/Running, WriteHandle/Segments and
--                 WriteHandle/Created.
--   ManifestHandle  src/handles/manifest-handle.cpp, with ManifestHandle/Stored.
--   ReadHandle    src/handles/read-handle.cpp, with ReadHandle/Prefixes.
--   Handover      handing manifests over from one node to another: the handlers of the key space, of
--                 the search and of the deletion, run against one another; Handover/Picked,
--                 Handover/Fetched, Handover/Removed and Handover/Moved, and Handover/Complete with
--                 the list that the old node sends.
--   BulkInsert    src/handles/tcp-bulk-insert-handle.cpp: the buffer of a connection, with
--                 BulkInsert/Stream and BulkInsert/Room.
--   Client        lib/difs.cpp and lib/difs.hpp: the packets of `putFile` and what `getFile` writes,
--                 with Client/File and Client/Served; Client/Commands and Client/Callbacks have the
--                 commands and what follows their answers, with Client/Retry and Client/Get.
--   Transfer      a file through all of it: cut by the client, stored by a node, read back;
--                 Transfer/Kept, Transfer/Fetched, Transfer/Whole, Transfer/Timely,
--                 Transfer/Counted, Transfer/Endless, and Transfer/Checked, where a client checks the
--                 insertion.
--   InfoHandle    src/handles/info-handle.cpp, with InfoHandle/Listed.
--   Daemon        src/repo.cpp: `parseConfig` and how a node starts, over Daemon/Libraries;
--                 Daemon/Config writes a file out, with Daemon/Config/Sections,
--                 Daemon/Config/RoundTrip and Daemon/Config/Refused; Daemon/Joining runs a manager
--                 and the nodes that start after it.
--   Prelude       numbers, texts, lists, and the hexadecimal of the C++ library; Json is the
--                 property tree. Examples has concrete libraries, Tests the theorems run on them.
--
-- How the code is modelled. The members of a handle are a record; a handler takes the record and
-- gives the new one with the list of what it sends, in order, and says whether it threw. Replies,
-- interests, fetchers and timers are values of a type `Sent`; the response to an interest is
-- another call of the model. Segments arrive until the fetcher is stopped. Random numbers, times
-- and uninitialised variables are arguments. A name is the text of its URI. Numbers are 64-bit or
-- 32-bit as in the source, with the wrap-around written out.
--
-- Bounds and fuel. The loop of handleDeleteDataCommand takes fuel, since it need not end; two more
-- than the number of segments is enough. `std::hex` prints at most eight digits, and
-- `std::to_string` at most twenty, so these loops are bounded by that. Everything else is structural.
--
-- Parameters, with what is assumed of them stated where they are declared: the TLV codec, packets
-- and their wire format, SHA-1, the JSON writer and reader, the file system, the database driver,
-- the property tree with its INFO reader, `boost::format`, `appendSegment`, and `Block::fromBuffer`.
-- All of them have instances in Examples or Tests.
--
-- Not modelled: src/main.cpp and tools; the sockets of Boost.Asio; signatures, validation of packets
-- and the registration of prefixes, which ndn-cxx does; what is only printed or logged.
pub mod Prelude
pub mod Json
pub mod Manifest
pub mod Storage
pub mod Tlv
pub mod Command
pub mod KeySpace
pub mod Handover
pub mod Daemon
pub mod Transfer
pub mod InfoHandle
pub mod DeleteHandle
pub mod WriteHandle
pub mod ManifestHandle
pub mod ReadHandle
pub mod BulkInsert
pub mod Client
pub mod Examples
pub mod Tests
