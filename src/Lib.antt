-- ===== src/Lib.antt =====
-- kad: a Kademlia node in C++ (src/, with the programs kad_node, kad_sim and signtool beside it).
--
-- Parts of the program and the files that model them:
--   * src/KadConfig.h.in, the constants: Config.antt.
--   * src/KadNodeId.h, `TKadId`, ids of SIZE bytes, most significant first: NodeId.antt. An id is the
--     list of its bytes; `IsId n` of NodeId/Value.antt says that there are n and that they are bytes,
--     `value` is the number that they stand for. Each operator and method is a function of the same
--     name in snake case; 8 and 16-bit casts are written out (`% 2 ^ 8`, `% 2 ^ 16`), a signed shift
--     as the operation on the 16-bit pattern. The theorems stand in the modules of NodeId/: the order
--     (Value), the distance (Metric, Distance), arithmetic (Add, Sub, Shift), bits (Byte, Bit, Bits)
--     and ids made of numbers (Number). NodeId/Mul.antt has `Mul`, NodeId/Text.antt the reading and
--     printing of hexadecimal text (proofs in Text/RoundTrip), and NodeId/Hash.antt src/KadNodeId.cpp,
--     `FromHash`.
--   * src/KadContact.h: Contact.antt. A `KadContactPtr` is shared between the table, the lookups and
--     the requests. The fields that are never written after the constructor are in the model's value,
--     with the number of the object; `mFailQty`, the field that is written, is in a store.
--   * src/KadRtNode.h, the routing table: Routing.antt (the tree, `Split`, `AddNode`) and
--     Routing/Query.antt (`RemoveNode`, `FindNode`, `FindClosest`, `GetStats`, `CountContacts`,
--     `GetContacts`). A node is a bucket or has two children, as `IsBucket` tells apart; a call on a
--     child gives the new child back to its parent. The other modules of Routing/ prove: lists of
--     contacts (Items), the ids that belong under a node (Place, Side), the invariant (Invariant),
--     `Split` (Split), what `FindNode` reads (Lookup), `AddNode` (Fill, Cached, Insert), `RemoveNode`
--     (Cut, Remove), both as their users see them (Table), `FindClosest` (Select, Collect, Nearest)
--     and the counts (Counts).
--   * src/KadOpMgr.h, `KadIterativeFindOp`, a lookup of a key: Lookup.antt (the list, `Insert`, `Send`)
--     and Lookup/Respond.antt (`OnResponce`). A call gives back the lookup, the table and the store, the
--     destinations of the requests that it sent, and whether it called the handler; an assertion that
--     fails, and a count below 0, are `none`. The proofs: `Insert` (Ordered), `Send` (Sent, Reach,
--     Asked), the requests in flight (Once, Pending), `OnResponce` (Answer), the order of the list
--     through all of them (Listed, Merged), and when it is complete (Completes).
--   * src/KadOpMgr.h, `KadOpMgr`: Manager.antt. It keeps the table, the requests that wait for an answer
--     and the lookups, and hands responses and timeouts to the lookup that sent the request; a received
--     message also adds its sender to the table. The proofs: the requests of one lookup (Flying), the
--     invariant (Invariant), each operation (Run, Receive), how many requests a message causes (Posted), what
--     leaves the id (Named), the states that a node can reach (Steps), what
--     they keep if each call of a handler keeps it (Kept): the order of the lists (Listed, Sorted), and
--     that a handler is called once (Finished, OnceOnly).
--     Manager/Cache.antt has `CheckInCache`, which nothing reaches, Manager/Join.antt the delays of
--     `Join`, and Manager/Network.antt `Ping`, `Join`, `Leave` and `RefreshAllBuckets`, with what a
--     node does while these sleep as an argument (proofs in Joined and Refresh).
--   * src/KadMsg.h: Message.antt, the address of a contact in a message and the contacts of a response;
--     Message/Format.antt, the checks of a received message, on the objects that msgpack unpacks.
--     Message/Receiving.antt has `RecieveCbk` from that object on, with msgpack's conversions as the
--     record `Wire`, and Message/Safety.antt what holds for all objects.
--   * src/KadRSA.h and the keys of kad_node.cpp: Rsa.antt. A file is the list of its bytes in a map by
--     name; what CryptoPP does is the record `KeyTools`. Rsa/Startup.antt proves what is stored.
--   * kad_node.cpp, the program of a node: Program.antt, with the command line, the file of addresses
--     and `main`, which starts with keys, joins by KadOpMgr, and leaves. The proofs: the file of
--     addresses (Bootstrap), and what one run leaves for the next (Identity).
--   * kad_sim.cpp: Simulator.antt, the commands that start nodes, join, leave and draw them; the invariant
--     of the pointers to nodes is in Simulator/Nodes.antt, the commands' theorems in Commands.
--   * signtool.cpp: Signing.antt. An error ends the program and is a value of `Stop`. What CryptoPP and
--     msgpack do is the record `Tools`, and what the tool relies on `Laws` and `KeyPair`, in
--     Signing/Laws.antt. The proofs: what a verified file is (Accepted), and files that the tool
--     signed (Check, RoundTrip).
--   * src/KadOverIP.h: Transport.antt, the loop of `Listener`, and `ConnectionMgr`, by what the calls of
--     UDT return; Transport/Delivery.antt has the states that a manager reaches and the calls that its rounds make.
--   * Common.antt and its modules: lists and tests on native numbers, a predicate on all or some
--     items of a list, exclusive or, texts and files. Tests.antt: the theorems at concrete arguments.
--
-- An `XList` is read as the sequence of its items and an iterator as a place in it; `XList`, the
-- address type `XSockAddr` and msgpack are not in the repository, and the address is a parameter.
--
-- Fuel: `AddNode` calls itself on a child, and on itself after a split, at most twice for each of
-- the 160 levels; `add_fuel` is 320. The fuel of `Join` is the number of rounds that it may take: the
-- code waits for a contact without end, and the theorem names the round that brings one. `decimal 4`
-- prints a port, of at most five digits.
--
-- Not modelled: the assertion of `GetBit`, `SetBit` and `SwapBit` that the bit is inside the id (here a bit
-- outside is read as 0, and writing it does nothing); `TKadId::Div` and `Shr`, which abort, random ids, the MD5 that is compiled for ids of 128
-- bits; `RandomId` and `PrintDot` of the table; of src/KadOpMgr.h the counter of bytes of requests
-- sent, and timers; that `RecieveCbk` lets its lock go and takes it again; of
-- kad_node.cpp `Stats`, which prints; the commands `rt` and `test_rt` of kad_sim.cpp; log lines. CryptoPP,
-- msgpack, sockets, threads and UDT are not this program's own code, and neither are the copies of udt4
-- and cxxtest.
pub mod Common
pub mod Config
pub mod NodeId
pub mod Contact
pub mod Routing
pub mod Message
pub mod Lookup
pub mod Manager
pub mod Signing
pub mod Rsa
pub mod Program
pub mod Transport
pub mod Simulator
pub mod Tests
