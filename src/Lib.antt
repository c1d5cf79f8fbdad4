-- ===== src/Lib.antt =====
-- BoxUtils, a C++ toolbox: an executable model of its parts, and theorems about them.
--
-- Common: shared names, lists over the native numbers, C strings, and `Run`, which is what a piece
-- of C++ comes to: a result, an exception, an abort, or undefined behaviour (a read outside an
-- object, a null or dangling pointer).
--
-- Base64 (src/base64.cpp): the encoder and the decoder. A pointer is the list of the bytes that it
-- can read. The loops recur on the length, so no fuel is needed.
-- Buffer (src/buffer.cpp, include/Box/buffer.hpp): the growing byte buffer, over blocks of memory
-- that `malloc` and `realloc` hand out or refuse.
-- RefPtr (include/Box/refptr.hpp): the counted pointer over an explicit heap of counters and
-- objects, and the variables of a program that shares them.
-- Sync (src/sync/sem.cpp, include/Box/sync/sem.hpp and pipe.hpp): the event, the semaphore and the
-- pipe. The first two are steps of threads. A body under a guard of the object's own mutex is one
-- step; looking at the flag, falling asleep and waking up are others, and so are the locking, the
-- unlocking and each access to the value in the waits of the semaphore, whose state has the thread
-- that holds the mutex. Any interleaving is a list of steps. The pipe keeps its queue, its mutex
-- and the flag of its event.
-- Json (src/json.cpp, include/Box/json.hpp): `Json` and `JsonIterator`. cJSON is the parameter
-- `CJson`, a record of its functions and of what it documents of the fields of a node; a `Json` is
-- the address of the holder that its copies share. The loops of `end` and `has` recur on fuel, and
-- one unit for each child, with one more for `has`, is enough. The text of a `Json` is what the
-- parameter `print` gives, and a file what an `ifstream` reads of it (Texts).
-- Headers (src/net/headers.cpp): the header lines and the searches in them, over `strncasecmp`.
-- Net (src/net/easy.cpp, src/net/share.cpp, src/net/multi.cpp): the easy handles, each with the
-- pointer that leads back to its object, over libcurl as the parameter `CurlEasy` (Easy, with its
-- members that set options in Easy.Options), and the callbacks that collect a response
-- (Easy.Callbacks) into what Headers reads; what the handles share, with the lock callbacks over
-- their mutexes (Share); and the multi handle with the loop over its messages, over libcurl as the
-- parameter `CurlMulti` (Multi). That loop recurs on fuel, one unit for each message and one more.
-- On top of Easy and Headers: packages and their factory (src/net/factory.cpp, Factory), and what
-- src/net.cpp does with them (Startup), whose SListDup recurs on fuel, of which no amount is enough.
-- Iconv (src/iconv.cpp): the conversion loop with its growing vector, over `iconv` as the parameter
-- `Converter`. Its fuel is one unit for each call and one more for the end.
-- Xml (src/xml.cpp, src/xpath.cpp): documents, nodes, and the node set of an XPath object with its
-- iterator, over libxml2 as the parameters `LibXml` and `LibXpath`. A `Node` is the address of the
-- holder that its copies share. A loop over a node set recurs on fuel, one unit for each node and
-- one more.
-- The callbacks of src/sax.cpp are in Xml.Sax, over the events of a push parser, `Parser`.
-- Dylib (src/dylib.cpp): the handle of a dynamic library.
-- Format (src/fmt.cpp): the filling of a text, with fuel for each place and one more.
-- Random (src/random.cpp): the generator and the range of its numbers.
-- Subprocess (src/subprocess.cpp): the descriptors that a start of a process opens and closes, in
-- its POSIX branch and with assertions on.
-- Socket (src/socket.cpp, include/Box/socket.hpp): addresses, sockets and the sets of `Select`, in
-- their POSIX branches. The sockets API and the conversions of names and addresses are parameters:
-- each call is given what the system answers.
-- File (src/filesystem.cpp): files over the streams of C, which keep what is unread and what was
-- written; the loop of `readline` recurs on fuel.
-- Logger (src/logger.cpp): the outputs and what is written to each, as a list of effects.
-- Libc (src/libc/mem.c, src/libc/atexit.c): blocks of memory, comparisons of text, and the
-- handlers that run at exit. The loop of `Box_memmem` recurs on fuel, and one unit for each byte of
-- the block and one more are enough.
-- RefData (include/Box/dataguard.hpp): shared data of C libraries and the guard of a scope, over an
-- explicit heap; the calls of the freeing functions are recorded.
-- ThreadPool (src/threadpool.cpp): the queue and the threads of the workers, as steps of threads.
-- String (src/string.cpp, include/Box/string.hpp): trimming, replacing and splitting. The loops of
-- the last two recur on fuel; to replace, one unit for each character and one more are enough.
-- Timer (src/timer.cpp): the list of timers and a round of the loop of their thread. The clock and
-- the answers of the callbacks are arguments.
--
-- A `size_t` is a number, and Buffer writes its wrap-around at 2 ^ 64 out. In the other parts, such
-- as Iconv and String, sizes are those of texts and blocks in memory: they and their sums are taken
-- to stay below 2 ^ 64. An `unsigned int` has its
-- wrap-around at 2 ^ 32 written out, and a sum of `int`s that overflows is undefined.
--
-- Not modelled: what only calls libcurl, libxml2 or the operating system (such as src/dns.cpp), the
-- branches for Windows, formatted input and output, and diagnostics. cJSON is another project's code.
pub mod Common
pub mod Base64
pub mod Buffer
pub mod RefPtr
pub mod Sync
pub mod Json
pub mod File
pub mod Headers
pub mod Iconv
pub mod Libc
pub mod Net
pub mod Socket
pub mod Logger
pub mod RefData
pub mod String
pub mod ThreadPool
pub mod Timer
pub mod Xml
pub mod Format
pub mod Random
pub mod Subprocess
pub mod Dylib
