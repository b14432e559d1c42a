-- ===== src/Lib.antt =====
-- sftt, a file transfer program: its packets, their encoding, and what these stand on.
--
-- A message leaves through `send_sftt_packet` (src/net_trans.c): a serializer turns the object into
-- bytes, `sftt_buffer_encode` (src/encode.c) compresses them (src/compress.c) and encrypts the result
-- (src/encrypt.c), and a header of type and length goes before it on the socket.
-- `recv_sftt_packet` undoes the steps in the other order. All memory comes from the pool of
-- src/mem_pool.c. A file goes over as an exchange of such packets (src/file_send.c,
-- src/file_recv.c), on a worker of src/thread_pool.c. The containers are the lists of src/dlist.c,
-- and the stacks, queues and maps that stand on them. Numbers, addresses and
-- versions are read by src/strtox.c, src/validate.c and src/version.c, the settings of a program by
-- src/config.c. Files are compared by the digests of src/md5.c. src/server.c keeps a table of
-- sessions, one for each client.
--
-- The files:
--   Base       what all modules share: tests on numbers, lists by native index, C integers, decimal
--              numerals, and the `Result` of a run: a value, or a fault (a failed assertion, NULL or an access outside
--              an array), or no fuel.
--   Bytes      buffers, pointers as offsets, little-endian stores and loads.
--   Bits       src/bits.c.
--   Huffman    src/compress.c. Freq is the frequency table, Tree the tree with the nodes of
--              src/btree.c, Codes the walk that reads the codes off, Stream the bits of a buffer;
--              Compress and RoundTrip put the parts together.
--   Crypt      src/encrypt.c.
--   Encode     src/encode.c.
--   Packet     src/net_trans.c: Frame is one packet on the wire, Order a sequence of them.
--   MemPool    src/mem_pool.c: Invariant, Alloc, Free and Resize are about one
--              call, Reach about all.
--   Strtox     src/strtox.c.
--   Validate   src/validate.c.
--   Version    src/version.c.
--   Utils      src/utils.c: Trim is strip, Path is simplify_path.
--   Dlist      src/dlist.c: Cells is what a list stands for, Link the assignments; Insert, Remove,
--              Walk, Destroy, Sort and Merge are the operations, Values what a caller sees of them.
--   Stack      src/stack.c.
--   Queue      src/queue.c.
--   FileTransfer src/file_send.c and src/file_recv.c, put requests: Reachable is the exchange of one
--              path, Config its states, Safety what the receiver has at its end, Delivery how far it
--              comes.
--   Map        src/map.c: Search is its loops, Calls, Changes and Removal what its functions do to the
--              entries, Laws what they share.
--   ThreadPool src/thread_pool.c: Config and Turns are the states of a launch, Safety and Settling what
--              holds of them, Pool the pool.
--   Md5        src/md5.c: Transform is the step for a block, Machine the digest as it is defined,
--              Stream and Digest what the calls make of it, Text the hex digits.
--   Config     src/config.c: Files is the search and the loop over the lines; Lines and Accepted are
--              about the lines that hold a setting, Applied about whole files, Paths about the two
--              arrays of the server's struct.
--   Server     src/server.c: Requests and Loop are the requests that change the table of sessions, Table
--              what holds of it, Verdict who is let in, Safety and Runs that every run keeps it,
--              Lookup and Refused what follows for a session id.
--   Tests      runs, and the theorems at concrete inputs.
--
-- Functions keep their names; a part of a function is a helper that stands before it and is named
-- for what it does. A struct is a record, a pointer to a struct that is only read is its value, and
-- what a function stores through a pointer is a part of its result. An `int` that can be negative
-- is a ℤ or a 32-bit pattern, with the wrap-around written out; the offsets in src/compress.c
-- and the counts of the pool are plain numbers. Nodes of the Huffman tree carry a
-- number for their address, since the walk compares addresses. The lists, the stacks and the map
-- that src/compress.c uses stand as lists. In src/dlist.c the nodes stand in a store, a function
-- from addresses to nodes, where NULL is 0 and an access to no node is a fault.
--
-- Fuel: `merge_nodes` has a round for each tree in its list, since each round takes one off, and
-- `walk` has two rounds for each node of the tree, for its push and its pop. A loop over a linked
-- list has the list's size and one. The results below that say that a value is returned show that
-- these are enough. `whole_blocks` and `update_blocks` have a round for each byte that is left and one,
-- and `config_lines` for each char of the file and one, since a round takes at least one off; the
-- results on digests and on configuration files show that this is enough. All other loops are
-- structural.
--
-- Bounds: the number of bits of all codes is an `int` in src/compress.c. A code is shorter than the
-- number of nodes of the tree, which is at most 512 (Huffman/Tree/Depth), so inputs shorter than
-- 2 ^ 22 stay far below the wrap-around. `recv_file_from_put_req` counts in `int`s, so its results
-- are about files below 2 ^ 31 or, for what is there at the end, 2 ^ 32 bytes.
--
-- Parameters: the system's `send` and `recv`, with the laws of a stream (`IsStream`): a call
-- of `send` with room for its bytes takes them all, and a call of `recv` gives all it asks for where
-- that has arrived (`Arrives` lets it arrive); what they do otherwise is left open. The table of
-- serializers, with what it does for one object (`Writes`, `Carries`), and the address that the system's
-- `malloc` gives, which is new (`IsFresh`). The addresses that `mp_malloc` gives to the containers,
-- the comparison that a list is sorted by (`IsOrder`), the function that a worker is given, and the
-- digest of a file, the disk and the constants of a build (`Setting`). The users, the disk and the
-- version of the server (`Env`), the ids that `gen_session_id` makes of the time and of `rand`, and
-- for src/config.c which files exist and what they hold.
--
-- Not modelled: failure of an allocation outside the pool and the containers, locks, threads but
-- those of src/thread_pool.c, packets that are lost between the two programs of a transfer, the
-- messages that are printed, and the memory that is never freed. The sizes of containers
-- are plain numbers, those of files what the `int`s of the receiver make of them. The requests that only answer, the client, get responses, the loops over several
-- files and the generated serializers are not part of the development yet.
pub mod Base
pub mod Bits
pub mod Bytes
pub mod Config
pub mod Crypt
pub mod Dlist
pub mod Encode
pub mod FileTransfer
pub mod Huffman
pub mod Map
pub mod Md5
pub mod MemPool
pub mod Packet
pub mod Queue
pub mod Server
pub mod Stack
pub mod Strtox
pub mod Tests
pub mod ThreadPool
pub mod Utils
pub mod Validate
pub mod Version
