-- ===== src/Lib.antt =====
-- ashe, a C++ library of utilities. Modelled are these parts of it:
--
-- * Buffer, the byte queue of src/buffer_queue.cpp (include/ashe/buffer_queue.h). `BufferQueue` is
--   the class's state, `QueueElem` an element; a push, pop, copy, removal or read across elements is
--   one function from the state to the state and the result. The doubly linked list is the list of
--   its elements; the pointers themselves, and freeing, are not modelled. Buffer/Invariant has the
--   well-formed states, Buffer/Messages and Buffer/Stream the two views that a caller has of the
--   queue (a sequence of messages, a stream of bytes), Buffer/History any sequence of calls.
-- * Text, the string functions of src/string_util.cpp: Text/Chars (`StrToLower`, `StrToUpper`,
--   `StrIsDigit`, `StrIsEqual`), Text/Trim (`StrTrim`, `StrTrimLeft`, `StrTrimRight`), Text/Find
--   (`StrFind`, `StrContainTimes`, `StrIsStartsWith`, `StrIsEndsWith`, `StrIsContains`),
--   Text/Replace (`StrReplace`, `StrReplaceFirst`, `StrReplaceLast`) and Text/Split (`StrSplit`,
--   `StrJoin`). The `std::string` calls they make are written out as functions on lists.
-- * Codec, src/hex_encode.cpp (Codec/Hex), src/url_encode.cpp (Codec/Url, which decodes digits with
--   Codec/Hex as the source does) and src/base64.cpp (Codec/Base64).
-- * Ip, the class `IPAddress` of src/ipaddress.cpp: data, conversions and comparisons in Ip,
--   prefixes and classes of addresses in Ip/Kinds, `TruncateIP` and `CountIPMaskBits` in Ip/Mask.
-- * Version, src/version.cpp, which reads its numbers with Text/Trim, Text/Split and Text/Chars.
-- * Timer, src/timer_manager.cpp: `Timers` is the class's private state. The mutex makes each call
--   (`add`, `remove`, `destory`) a step; the worker's round in `run` is two, before and behind the
--   part without the lock, in which `run_call` says what handler it calls. Timer/Invariant has the valid states, Timer/Calls and
--   Timer/Steps the calls and the steps in any order, Timer/Ids and Timer/Silence what `add` and
--   `remove` promise.
-- * Loop, src/message_loop: `MessageLoop` with its four queues (message_loop.cpp), the order of
--   delayed tasks (pending_task.cpp), and, in Loop/Pump, `MessagePumpDefault::run`
--   (message_pump_default.cpp) as steps between which other threads post tasks and tell the pump.
--   A world also has every posted and every run task, to state theorems by. Loop/Pump/Rule says
--   once what any invariant of the queues needs; Loop/Pump/Places, Fifo and Delays use it, and
--   Loop/Pump/Calm and Loop/Pump/Wakeup have the pump's sleep. Loop/Destroy is the destructor.
-- * Config, the configuration tree of src/configor.cpp: Config/Lexer from the file's text to tokens
--   (`preprocess`, `testString`, `tokenize`), Config/Parser from tokens to elements (`parseVar`,
--   `parseArray`, `parseObject`, `parse`), Config/Writer back to text (`writeElement`), Config/Values
--   and Config/Children the calls on an element. Config/RoundTrip has the elements that are read
--   back and their tokens; its children follow the text through the three passes.
-- * CmdLine, the parser of src/cmd_line_parser.cpp and its queries; a pointer into the text is what
--   follows it. CmdLine/Returns has the end of its loop, CmdLine/Parsed what it finds.
-- * Pool, include/ashe/memory_pool.h: a block is `Element_` and the bytes behind it, a heap a function
--   from addresses to blocks, and a pool its two pointers. Pool/Links has the doubly linked segments
--   of a heap, Pool/Lists what moves a block between the pool's two lists, Pool/Calls `allocate` and
--   `deallocate`, Pool/Destroy the destructor and Pool/History a client's calls in any order.
-- * ThreadPool, include/ashe/thread_pool.h with src/thread_pool.cpp: the queue of tasks and a row of
--   workers, each in its wait, at the lock, with a task that it took, in the task, or gone. ThreadPool/Served has what any steps
--   keep, ThreadPool/Ends the destructor's joins.
-- * AsyncWorker, src/async_worker.cpp with include/ashe/async_worker.h: the queue, the flags and
--   where the one thread is. AsyncWorker/Kept has what any steps keep, AsyncWorker/Stopped what
--   `stop` does.
-- * Hash, src/crc32.cpp in Hash/Crc32: the table, `CRC32::update` and the chunks of `GetDataCRC32`.
--   Hash/Crc32/Serial has the division bit by bit that the table stands for, Hash/Crc32/Detects what
--   the checksum tells apart, and Hash/Xor the laws of exclusive or. Hash/Md5 is src/md5.cpp, with
--   the context's `in` as bytes; Hash/Md5/Stream has the input that comes byte by byte,
--   Hash/Md5/Padding what `MD5Final` adds to it, and Hash/Md5/Whole `GetDataMD5`. Hash/Sha1 is
--   src/sha1.cpp, with `m_buffer` as bytes; Hash/Sha1/Stream has `SHA1::update` and
--   Hash/Sha1/Padded `SHA1::final` and `GetDataSHA1`. Hash/Blocks has the bytes that come one by
--   one and the loop over blocks, Hash/Chunks the chunks that the three files read.
-- * Base, the operators, lemmas and library names they share.
--
-- A file `Examples` of each part has concrete inputs. Texts and buffers are lists of numbers, a
-- byte being one below 256. `size_t` is 64 bits wide and its arithmetic is written out modulo
-- 2 ^ 64. A failing `malloc` is a Boolean argument; `none` is a read through a null pointer, or a
-- loop that has used up its fuel. Parameters are `inet_pton`, the largest `long` and the word that
-- the host reads from four bytes.
--
-- Fuel: the loops of the buffer queue run one round more than there are elements, since each round
-- but the last takes an element away; those of the string functions and `insertLineBreaks` one
-- round more than the text has units, since each round moves on by a unit at least, and so does the
-- loop of the command line parser. `StrSplit` and the loading of a configuration, which do not
-- return on every input, take their fuel as an argument; for a tree that was saved, `rounds_all` is
-- enough. The loops of the hashes run one round more than the text has bytes, and that of the
-- padding of SHA-1 65 rounds, since at most 63 zeros are added.
--
-- Handlers and callbacks are numbers; what they call stands between the halves of a step. Times are
-- ticks of a clock, 0 being `TimePoint()`. In the loop a callback does not run the loop again.
-- Sequence numbers roll over in 32 bits. What the deletion of a task posts is a parameter.
--
-- The loop of `Base64::Encode` counts in 32 bits, and its fuel, three rounds more than there are
-- bytes, is enough below 4 GiB.
--
-- Not modelled: the parts of the library that are calls of the operating system (processes,
-- registry, windows, HTTP, files, clocks), the Windows pump, SHA-256, SHA-512, ciphers,
-- paths, the files of a configuration, and of the files above `StrFormat`, the wide
-- overloads that go through UTF-8, the textual form of an address and `InterfaceAddress`, and
-- of the hashes the calls that read a file.
pub mod Base
pub mod Buffer
pub mod Text
pub mod Codec
pub mod Ip
pub mod Version
pub mod Timer
pub mod Loop
pub mod Config
pub mod CmdLine
pub mod Pool
pub mod ThreadPool
pub mod AsyncWorker
pub mod Hash
