-- ===== src/Lib.antt =====
-- A model of zhttp, a C++ web framework, and of the core of its coroutine runtime, with the theorems that make them
-- correct.
--
-- The parts and how they meet. Bytes arrive in a `Buffer` (znet/src/buff.cc). `HttpParser` (zhttp/src/http_parser.cc)
-- takes lines and the body out of the buffer and fills an `HttpRequest` (zhttp/src/http_request.cc). `Router::route`
-- (zhttp/src/router.cc) looks the request up in a hash map of static routes and in a `RadixTree`
-- (zhttp/src/radix_tree.cc), builds a `MiddlewareChain` (zhttp/src/middleware.cc) and runs it around the handler, which
-- fills an `HttpResponse` (zhttp/src/http_response.cc).
--
-- Below that, a fiber that waits for a descriptor registers with the `IoScheduler` (zcoroutine/src/io/io_scheduler.cc):
-- its waiter is kept in an `FdContext` (zcoroutine/src/io/fd_context.cc), the event is watched by `epoll_ctl`, and the
-- I/O thread gives the waiter to the scheduler when the event is ready. The same thread waits no longer than the first
-- timer of the `TimerManager` (zcoroutine/src/timer) and collects the callbacks of expired timers. Worker threads have
-- a `WorkStealingQueue` each and find each other by a `StealableQueueBitmap` (zcoroutine/src/scheduling). Fibers may share
-- a stack (zcoroutine/src/runtime), whose bytes are saved when another fiber takes it.
--
-- Which file models which part:
--   Prelude: tests, lists, byte strings and dictionaries that the parts share.
--   Net/Memory: memory blocks, and `Allocator::allocate` (znet/src/allocator.cc) over `malloc`, a parameter that may
--     refuse and whose block is as long as was asked for.
--   Net/Endian: znet/include/znet_endian.h on a little-endian host. An integer of w bytes is a number below 256 ^ w.
--   Net/Buffer: `Buffer`, an operation for each method; `Validity` has its invariant, `Queue` what reading and writing do
--     to the readable bytes, `Search` the searches, `Fd` `read_fd` and `write_fd` with the system calls as an input.
--   Http/Common: methods, versions, status texts and MIME types (zhttp/src/http_common.cc).
--   Http/Text: `url_decode`, and the decimal numbers of the C library, `strtoul` with its saturation and negation.
--   Http/Request: `HttpRequest`. `Query` is about the query string, `Headers` about the header map.
--   Http/Parser: `HttpParser`; `round_in` is one round of the loop of `parse`. `Stream` is the same parser over a plain
--     text, `Refinement` relates the two, `RoundTrip` writes requests and parses them.
--   Http/Middleware: `MiddlewareChain`; `Onion` is its meaning by nesting.
--   Http/Radix: `RadixNode` and `RadixTree`; `Children`, `Changes`, `Insertion` and `Registry` say what insertion does to
--     the search, `Find` has regular routes and `find`, `Priority` their place behind the dynamic ones.
--   Http/Response: `HttpResponse` and `serialize`.
--   Http/Router: `Router`; `Dispatch` says what registering and routing do.
--   Coroutine/WorkStealing: `WorkStealingQueue` (zcoroutine/src/scheduling/work_stealing_queue.cc), apart from the
--     HTTP parts. A push is two steps; `Counting` runs the steps of several threads in any order, `Marks` is about the bit
--     that the queue publishes. Its sizes wrap at 2 ^ 64.
--   Coroutine/Bitmap: `StealableQueueBitmap` (zcoroutine/src/scheduling/stealable_queue_bitmap.cc); `Search` relates the
--     loop over words to a search over workers, `Victims` says what the searches find, `Bits` what marking changes.
--   Coroutine/Timer: `Timer` and the ordered set, `Order` its laws. Timer/Manager: `TimerManager`; `Validity` has the
--     order that all operations keep, `Due` and `Expiry` the loop over expired timers, `Rollback` that loop after the clock
--     went back, `Waiting` the time that the I/O thread waits.
--   Coroutine/Io: `FdContext` and, in `Delivery`, how its operations relate; `Table` the contexts by descriptor
--     (zcoroutine/src/io/fd_context_table.cc); `Epoll` the poller (zcoroutine/src/io/epoll_poller.cc) over the
--     kernel, a parameter. Io/Scheduler: `IoScheduler`; `Validity`, `Registration` and `Removal` say that the kernel
--     watches what is registered, `Waiters`, `Owners`, `Wakeups` and `Runs` follow the waiters through sequences of calls.
--     Io/Thread is one round of the I/O thread, over the scheduler and the timers.
--   Coroutine/SharedStack: `SharedContext` and the switch between fibers (zcoroutine/src/runtime/shared_stack.cc) for the
--     fibers of one stack; `Switching` says what a context keeps, `Resuming` follows a fiber until it is switched back to.
--   Coroutine/FiberPool: `FiberPool` (zcoroutine/src/runtime/fiber_pool.cc) and the free fibers of a thread
--     (zcoroutine/src/util/thread_context.cc); `Reuse` says what the pool holds and gives.
--   Coroutine/TaskQueue: `TaskQueue` (zcoroutine/src/scheduling/task_queue.cc); `Order` runs the steps of several threads.
--   Examples: the theorems at concrete inputs.
--
-- State and errors. Code that changes an object is a function from its record to its record; the tree, which shares
-- nodes by pointers along one path only, is a value. A thrown `std::bad_alloc` is the result `none`. A map is an
-- association list; the order in which the unordered maps of headers iterate is a parameter, a function on that list.
-- `std::regex` is a parameter: a compilation that may fail and a full match that gives its capture groups. Handlers
-- and middlewares are functions on the request, the response and whatever else they reach. Timers are shared objects,
-- so the manager's state has the objects by address. The kernel's `epoll_ctl` is an operation on its state that may
-- fail, with the laws of its manual page: a failure, which any call may meet, changes nothing, and a success does
-- what was asked. The memory for a fiber's stack may be refused. A call of the I/O scheduler is one step.
--
-- Bounds and fuel. The loop of `parse` has fuel `readable_bytes + 3`: a round that goes on takes at least two bytes or
-- leaves the reading of lines for good. The loop of `parse_query_params` has a round for each byte at most. The
-- loop over expired timers has one round for each timer that is due, when none is due again at once, and one more. The loop
-- over the words of a bitmap has a round for each worker of its range at most. `size_t` sums of
-- the buffer are numbers without wrap-around, since an index never exceeds the length of a block in memory; the sum in
-- `shrink`, which has the caller's reserve in it, wraps.
--
-- Not modelled: sockets, TLS, the server loops, daemon and configuration of zhttp, the connections of znet, the other
-- parts of the coroutine runtime zcoroutine (resuming and yielding fibers, context switches in assembly, the threads of
-- the scheduler, the hooked system calls), the logging library zlog; log calls are left out wherever they stand.
pub mod Prelude
pub mod Net
pub mod Http
pub mod Coroutine
pub mod Examples
