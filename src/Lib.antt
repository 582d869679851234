-- ===== src/Lib.antt =====
-- Verification of jega, a networking library on greenlets: the scheduler of its C core under src/.
--
-- The program. A loop (src/loop.c) holds two containers of objects to call: a queue of calls that
-- are due now (src/queue.c) and a binary heap of timers (src/heapq.c). An object (src/timer.c) is a
-- handle, which is called once, or a timer, which waits in the heap until its time and moves to the
-- queue then. Locks (src/locks.c) keep the greenlets that wait for them, and schedule calls on the
-- loop that wake them; channels (src/channel.c) keep messages in a queue of their own and schedule
-- a call that hands them out; buffers (src/buffer.c) collect bytes up to a limit. Callbacks on
-- sockets, and greenlets that wait for one, are counted beside the calls. A future (src/futures.c)
-- schedules its callbacks when it is settled, and an executor (src/executor.c) runs submitted
-- functions in greenlets of the loop and settles their futures. Names are looked up by c-ares
-- (src/lookup.c, src/socket.c), and the module's send and recv (src/jega.c) wait for their descriptor as
-- long as a call would block.
--
-- The files. A component stands in one file and its theorems, and runs of it, in the folder of the
-- same name.
--   Base     what the others share: tests and lists over the native numbers, how a call ends (Run),
--            arrays with loads and stores, 32-bit numbers
--   Ring     src/queue.c: init_queue, reindex_queue, realloc_queue, queue_push, queue_push_noext,
--            queue_shift
--   Heapq    src/heapq.c: init_heapqueue, siftdown (_siftdown), siftup (_siftup), heappop, heappush,
--            destroy_heapqueue
--   Timer    src/timer.c: the objects, their making (handle_new, timer_new, make_handle), cancel
--   Loop     src/loop.c and the rest of src/timer.c: schedule_timer, fire_timers, fire_pendings,
--            fire_handle, fire_timer, sigint_cb, check_stop_signal
--   Locks    src/locks.c: Semaphore, BoundedSemaphore, Lock and RLock; semaphore_acquire is acquire
--            before the switch to the loop, and resume after it
--   Channel  src/channel.c: create_channel, send, notify_to_loop, notify (ChannelObject_notify), recv
--   Buffer   src/buffer.c: new_buffer, extend_buffer, write2buf, getPyString, getPyStringAndDecode,
--            getString, copy_buffer_t (in Reading)
--   Events   src/loop.c: add_reader, add_writer, remove_reader, remove_writer, add_event, del_event,
--            internal_io_trampoline, fd_callback (in Dispatch); the event library (lib/picoev) is the
--            parameter Picoev
--   Calls    src/loop.c: loop_schedule_call, call_soon, call_later, call_repeatedly, set_timeout,
--            loop_sleep
--   Futures  src/futures.c: the settling of a future, its callbacks and its waiters
--   Executor src/executor.c: internal_submit, adjust_thread_count, run_worker, worker (_worker)
--   RunLoop  src/loop.c: internal_run_once, LoopObject_run (loop_run), LoopObject_run_once
--   Condition src/locks.c: wait, notify and notify_all of Condition, _release_save and
--            _acquire_restore of RLock
--   Event    src/event.c: set, clear and wait of Event, and the methods of Condition (src/locks.c) that
--            its Lock gets
--   Decode   src/util.c: urldecode, hex2int
--   Sockets  src/socket.c: getaddrinfo, and all that it is made of; the resolver, the service table and
--            the original getaddrinfo are the parameter Resolver
--   Lookup   src/lookup.c: the contexts of lookups, the callbacks of c-ares, wait_lookup (in Start), the
--            conversion of hosts and flags, and async_gethostbyname and the others that start a lookup;
--            init_lookup, init_channel, reset_channel, state_cb and process_callback (in Watch)
--   Transfer src/jega.c: internal_recv, internal_send
--   Switch   src/loop.c: loop_switch, run_on_main_task, run_loop, ready_trampoline, start_loop,
--            internal_loop_handle_error, trampoline_switch_callback; greenlet_dead and
--            greenlet_getparent of src/greensupport.c; the greenlet library is the parameter Greenlets
--   Task     src/task.c: spawn_task, start, cancel
--   Local    src/local.c: get_thread_local, get_local_dict, getattribute, setattribute
--
-- State and memory. A struct is a record, and each function takes and returns it. An array is a
-- list of slots, a slot that was never written is `none`, and an access outside the array or a read
-- of such a slot is `fault`: a theorem that a call ends with a value says that there is none. An
-- allocation asks a parameter that says for each size whether it is granted. The objects that the
-- loop runs live in a store, from their numbers. What a callback or another greenlet does is a
-- parameter too: in Loop it may change the loop in any way, and in Locks any sequence of calls,
-- timeouts and notifications may come. In Futures and Executor a switch to a greenlet may change
-- everything; the theorems say what they need of it. In RunLoop, the poll and the reset after a
-- fork may change the loop in any way, and in Lookup and Transfer a switch may change the whole world.
--
-- Numbers. uint32_t fields are native numbers below 2 ^ 32, and wrap where the source's do; size_t
-- fields wrap at 2 ^ 64. Times are seconds, and a sum that overflows time_t counts as 0, before all.
--
-- Fuel. The copying loop of Ring runs at most the old size; siftdown halves the position and siftup
-- more than doubles it, so the fuel of a position plus one, and of the size plus one, is enough;
-- the loop of destroy_heapqueue and the one of fire_timers take one timer out each time, so the
-- size plus one is enough. That these loops end within it is part of the theorems. fire_pendings
-- can be kept running by its callbacks for ever, and its fuel is an argument; so can the loop over
-- the waiters of a future, the one over the waiters of a channel, the loop of a worker, and the
-- rounds of the loop. Removing a callback takes the number of callbacks plus one, decoding a
-- text its length plus one, and a lookup, or a call that is retried, one round more than it waits.
--
-- Not modelled: reference counts, but for the results of an executor's functions and the values in Local,
-- and the cycle collector, parsing of Python arguments, type tables,
-- debug output; the poll of the sockets, the setting of socket addresses, and the vendored c-ares, picoev and greenlet; the Python
-- modules under jega/.
pub mod Base
pub mod Ring
pub mod Heapq
pub mod Timer
pub mod Loop
pub mod Locks
pub mod Buffer
pub mod Channel
pub mod Events
pub mod Calls
pub mod Futures
pub mod Executor
pub mod RunLoop
pub mod Condition
pub mod Decode
pub mod Sockets
pub mod Transfer
pub mod Lookup
pub mod Event
pub mod Switch
pub mod Task
pub mod Local
