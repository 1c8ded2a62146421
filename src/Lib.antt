-- ===== src/Lib.antt =====
-- Iceberg: a proxy between a Redis master and its slave (proxy/) that asks the slave for each hash
-- that the master is about to delete and posts it to a file server, the handler of the file
-- server's nginx (nginx/lua/) with its C library (nginx/c/) that turns a key into a path, and a
-- client that makes the URL of a key (client/).
--
-- The parts, and how they work together. `Event` and `Startup` open the connections; `ReadHandler`
-- is called by the event loop when one has something to read. Commands from the master go through
-- `LruedQuery`, which writes an HGETALL for the key of each DEL to the slave and puts the key into
-- `CirQueue`; they are then passed on to the slave. The answers to the queries go through `Parser`,
-- which builds a JSON object, takes the oldest key from `CirQueue` and gives both to `Store`; that
-- posts them to the file server of the key's hash and to its backup, which it looks up in
-- `HashTable`. `Io` reads and writes, and resets the proxy when a connection breaks. `FilePath` is
-- the path under which the file server keeps a key, `WriteData` is to put a posted value there, and
-- `Client` asks for it.
--
--   CirQueue     proxy/cir_queue.c, cir_queue.h: one function per operation, under its C name; the
--                semaphore is its number of permits, and a result `none` is a call that blocks
--   HashTable    proxy/hash_table.c, hash_table.h: bins as lists; the uninitialised local of
--                `ht_hash` and the outcome of each allocation are arguments
--   State        the globals of proxy/main.c, io.c and event.c as the record `Globals`; what is
--                called outside the repository's own code as the record `Os`; the monad `M` of
--                functions that change the globals, with the outcomes of `Run`
--   Store        proxy/store.c (saveValue, sendToHost), proxy/myhash.c (hash)
--   Md5          proxy/md5.c, md5.h, the same in nginx/c/myhash: 32-bit words as numbers below 2 ^ 32.
--                The buffer of an MD5_CTX, which is not initialised, is an argument
--   Connect      proxy/event.c: connectToMaster, listenToPort
--   Io           proxy/io.c: readData, writeData, closeFd
--   Parser       proxy/parser.c: saveToBuf, parseArray, parseBulkString, parseSimple, popHandle,
--                parseReadData; the loop over the items of an array is `parse_items`
--   LruedQuery   proxy/lrued_query.c: queryKey, delParser, processInputBuffer
--   ReadHandler  proxy/read_handler.c: readDelValue, readFromSlave, readFromMaster
--   Event        proxy/event.c: timeEvent, readDataFromSlave, acceptTcpHandler
--   Startup      proxy/read_conf.c (load_conf), proxy/main.c (initHost, main); the allocations of
--                initHost are taken to succeed
--   FilePath     nginx/c/hash.c (writeGetPath, readGetPath, init_route, init, getHost),
--                nginx/c/myhash/myhash.c (hash), nginx/c/main.c (`query`). A path that runs past the
--                end of `url` is undefined; `write_path_in` is the writer with the size of that array
--                as an argument
--   WriteData    nginx/lua/writeData.lua, which calls writeGetPath at the slot 1000, where it is
--                undefined
--   Client       client/src/main/java/com/ifeng/iceberg: PropertiesUtils.java, IcebergClient.java
--   Invariant    what the functions of proxy/ keep true, up to the states in which the event loop
--                waits: `Reached` is a step relation over the calls of the event loop, for any
--                predicate that `IsInvariant` allows. Phases and Turns: the state machine of the
--                synchronisation. Sound and Stored: what stays as it was at the start
--   Queries      the way of a key through LruedQuery, CirQueue, Parser and Store: a stream of DEL
--                commands, the answers to the queries in any reads, and (Forwarded) the order of
--                queries and commands
--   Tests        concrete runs
--
-- Child modules are named for what they are about: Parser/Stream and Parser/Kept for answers that
-- come in pieces, LruedQuery/Cut for commands that do, Io/Delivery for a connection (`IsLink`: it
-- gives and takes parts of what stands before it, and asks to try again only so often in a row),
-- ReadHandler/Sync for a synchronisation over two such connections, ReadHandler/Upstream for what
-- the slave sends, Client/Position for the way of a key from proxy to client, Store/Replicated for
-- the servers that a key goes to, Event/Timer for the runs of the timer, Md5/Padded for the digest
-- of a text that is padded as a whole, LruedQuery/Ends and LruedQuery/Rounds for the rounds of
-- processInputBuffer, FilePath/Agree for the writer's path beside the reader's, FilePath/Written for
-- where the writer's fits in `url`.
--
-- Numbers. Indices and lengths are natural numbers; where `int` arithmetic can overflow, or make an
-- index negative that is then used, the model's outcome is `undefined`. The hash of `HashTable`
-- wraps at 2 ^ 64, the words of `Md5` at 2 ^ 32. Bytes are numbers, read as a signed `char` where
-- the code computes with them.
--
-- Loops. `clear_queue` runs at most as often as the queue has places, a loop over received bytes at
-- most as often as there are bytes (for `parse_read_data`, for each key that can wait); these
-- bounds are written at the loops. Loops that wait for the world (`writeData`, and the two of the
-- synchronisation) run at most `Os.rounds` times, and end in `hangs` beyond; over a connection
-- `IsLink` as many rounds are enough as `budget` counts for the text.
--
-- What is not modelled: logging and other output, the freeing of memory, the copies of libconhash,
-- of parts of Redis (ae, anet, sds, zmalloc) and of the MD5 that libconhash calls, whose calls are
-- parameters, a consistent hash in Lua that no script loads, and a negative dir_num of the client.
-- Allocations of the proxy are taken to succeed where nothing else is said, json_object() among
-- them. A read behind the bytes that an array is known to hold gives 0.
pub mod Prelude
pub mod CirQueue
pub mod Client
pub mod HashTable
pub mod State
pub mod Store
pub mod Connect
pub mod Io
pub mod Md5
pub mod Parser
pub mod LruedQuery
pub mod ReadHandler
pub mod Event
pub mod Startup
pub mod Queries
pub mod Invariant
pub mod FilePath
pub mod Tests
pub mod WriteData
