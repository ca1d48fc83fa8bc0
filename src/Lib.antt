-- ===== src/Lib.antt =====
-- Verification of libiapp: an event loop per thread on kqueue, and asynchronous sockets on top of it.
--
-- The program's parts. lib/libiapp/fde.c is the event loop. A program creates events (fde_create),
-- puts them on the queues of the loop (fde_add, fde_add_timeout) and runs the loop (fde_runloop),
-- which calls back for queued callbacks, for timers that are due and for what the kernel reports.
-- lib/libiapp/comm.c is a socket object: each object owns ten events of one loop, starts reads,
-- writes, accepts, connects and datagrams for its owner, and tells the owner by a callback how each
-- ended; comm_close answers what is in progress and then schedules the object's end.
-- lib/libiapp/shm_alloc.c hands out pieces of slabs of shared memory under a mutex; lib/libiapp/netbuf.c
-- takes buffers from there or from malloc(3); lib/libiapp/conn.c is a connection that writes such a buffer
-- over and over through a comm object. lib/libidebug/debug.c writes debug output by
-- sections and masks, and lib/libiapp/thr.c makes groups of threads with an event loop each.
-- lib/libiapp/disk.c makes handles and operations on files, and lib/libiapp/fd_util.c opens descriptors that
-- listen. src/srv/srv.c is a server on top: its threads accept connections and hand them to each other;
-- src/clt/clt.c is a client, which opens connections at a rate; src/udp_clt/udp_clt.c sends datagrams at a
-- rate, and src/udp_srv/udp_srv.c receives them.
--
-- Which file models what:
--   Base            names, Boolean tests and list lemmas that all files share
--   Fde/Event       the structs of fde.h: Fde, FdeHead, Kevent, Timeval
--   Fde/Kq          fde_ev_flags, fde_kq_flush, fde_kq_push, fde_ue_push and the flags of a change
--   Fde/Register    fde_ctx_new, fde_create, fde_free, fde_add, fde_delete and their parts
--   Fde/Timeout     timeval_cmp, fde_add_timeout, fde_t_get_timeout
--   Fde/Loop        fde_cb_runloop, fde_t_runloop, fde_rw_runloop, fde_runloop; the calls of the
--                   API as a step relation, and a program as the parameter Program
--   Fde/Invariant, Soundness, Effects, CallbackPass, TimerPass, TimerQueue, TimerOrder, Time, Poll, Changes
--                   the lemmas and theorems on the loop, by what they are about
--   Comm/State      the structs of comm.h, comm_is_close_ready, comm_start_cleanup
--   Comm/Api        the calls of comm.h: comm_close, comm_read, comm_write, comm_listen,
--                   comm_connect, comm_udp_read, comm_udp_write_setup, comm_udp_write
--   Comm/Handlers   comm_cb_read, comm_cb_read_cb, comm_cb_write, comm_cb_write_cb
--   Comm/Sockets    comm_cb_accept, comm_cb_connect, comm_cb_connect_start, comm_cb_cleanup
--   Comm/Udp        comm_cb_udp_read, comm_cb_udp_write, fde_comm_udp_alloc
--   Comm/Create     comm_create
--   Comm/Reach      what can happen to an object, as a step relation
--   Comm/Ledger, Books, Datagrams, WriteEnd, Completed, Histories, Closing, Created, Undone, Birth,
--   Shutdown, Wiring, Wired, Handled, Moved
--                   the lemmas and theorems on comm objects
--   Shm/State       the structs of shm_alloc.h and its mutex
--   Shm/Alloc       shm_alloc_init, shm_alloc_new_slab, shm_alloc_alloc, shm_alloc_free
--   Shm/Sane, Steps, Slabs, Reach, Reuse, Limits
--                   the lemmas and theorems on the slab allocator
--   Netbuf/State    struct iapp_netbuf and the blocks of malloc(3)
--   Netbuf/Alloc    iapp_netbuf_alloc, iapp_netbuf_free and the accessors of netbuf.h
--   Netbuf/Lifetime the lemmas and theorems on buffers
--   Conn/State      the structs of conn.h and conn_cfg.h
--   Conn/Handlers   conn_close, conn_set_stats_cb and the callbacks of conn.c
--   Conn/New        conn_new
--   Conn/Fine, Life, Composed, Held, Release, Buffer
--                   the lemmas and theorems on connections; Composed has a connection's callbacks run
--                   by the model of comm.c
--   Debug/State, Log the state and the functions of lib/libidebug/debug.c
--   Debug/Sections, Output
--                   the lemmas and theorems on debug output
--   Thr/State, Group the structs of thr.h and the functions of lib/libiapp/thr.c
--   Thr/Created     the lemmas and the theorem on groups of threads
--   Srv/Server      the accept path of src/srv/srv.c, and its timers
--   Srv/Setup       thrsrv_new of src/srv/srv.c, and lib/libiapp/iapp_cpu.c
--   Srv/Options     srv_parse_option and the argument loop of src/srv/srv.c
--   Srv/RoundTrip   settings written out as arguments, and the theorem on parsing them
--   Srv/Books       the lemmas and the theorem on where accepted descriptors go
--   Clt/State, Handlers, New, App
--                   src/clt/clt.c: the structs, the callbacks of a connection, conn_new, and the thread
--   Clt/Shape, Held, Kept, Opened, Round, Books, Alive, Unharmed, Orderly
--                   the lemmas and theorems on a client: what a callback leaves as it is, the blocks that
--                   connections hold, one round of openings, the pointers of connections, and runs of a thread
--   Udp/State, Client, Start, Server
--                   src/udp_clt/udp_clt.c and src/udp_srv/udp_srv.c: the structs, and the functions of each
--   Udp/Flow, Books, Rate
--                   the lemmas and theorems on the datagram client: where frames go while comm.c writes them,
--                   what is allocated, and one round of sending
--   FdUtil/Setup, Open
--                   lib/libiapp/fd_util.c and thrsrv_listenfd of src/udp_srv/udp_srv.c, and what they leave open
--   Disk/State, Handle, Opening
--                   the structs of disk.h, the functions of lib/libiapp/disk.c, and what disk_open does
--
-- How state is modelled. The memory of events is a function from addresses, which fde_create never
-- gives out twice; `allocated` says that the memory is still there, and fde_rw_runloop has no result where a
-- report of the kernel names an event that was freed. TAILQs are lists. The changes that the kernel has taken are kept in `submitted`. Flags of a kevent are one
-- Boolean per bit that the code names. Times are numbers of seconds and microseconds. The loop's
-- generation is a 32-bit number that wraps. A callback with its argument is a number, and number 0 is
-- NULL. A comm object is seen as its owner sees it: `World` holds the object, its event loop, the
-- callbacks made so far, and how many reads and writes were accepted. The owner is an argument of
-- each handler, which may make any sequence of calls of comm.h. Slabs and their allocations are two
-- memories of their own; a mutex is a Boolean, and a call that would wait for it for ever has the
-- result `blocks`, and a failed assert `aborts`, as do the comm_write on NULL and the read of a freed struct in the
-- two functions conn_new. The blocks that netbuf.c, conn.c and clt.c take by malloc(3) are a list of addresses that
-- are held; the nodes of shm_alloc.c are its allocations, and comm objects and events are counted apart. A
-- connection lists what it asks of its comm object and tells its owner; the owner of a connection says
-- at which of its callbacks it calls conn_close.
--
-- Parameters. What kevent(2), read(2), write(2), accept(2), connect(2), recvfrom(2) and sendto(2)
-- return, what shm_open(2), ftruncate(2), mmap(2), mlock(2), strdup(3), fopen(3) and pthread_create(3)
-- answer, and whether allocations succeed, are arguments; theorems that need it assume that
-- write(2) writes no more than asked, that kevent(2) reports only events registered with it, and that the
-- callbacks of such events free no event. atoi(3) is (int)strtol(3) with a long of 64 bits. In
-- the server, whether conn_new returns a connection is an argument, too. In the client, what
-- getaddrinfo(3) and socket(2) answer is one, and so is what the calls of
-- lib/libiapp/fd_util.c answer.
--
-- Fuel. The loops of fde_cb_runloop, fde_t_runloop and comm_cb_udp_write run on fuel. For the first
-- two, and for the datagrams of a closing object, the theorems give a bound that is enough: one more
-- than the callbacks queued, the timers due, or the datagrams queued. The body of a thread,
-- libiapp_thr_start, runs on fuel, too, since it ends only when its flag is cleared. The loop of
-- thrclt_ev_newconn_cb in src/clt/clt.c runs on fuel, for which one more than the rate is enough.
--
-- Not modelled: the stub fde_ctx_free of lib/libiapp/fde.c; the addresses of datagrams and sockets, and the
-- bytes of what is received; the endless loops of the threads of the programs, each a call of fde_runloop; and the
-- main functions of the programs, which allocate and start the threads, apart from the options of src/srv/srv.c;
-- src/thr/main.c, a demonstration that only starts threads.
pub mod Base
pub mod Fde
pub mod Comm
pub mod Shm
pub mod Netbuf
pub mod Conn
pub mod Debug
pub mod Thr
pub mod Disk
pub mod Srv
pub mod Clt
pub mod Udp
pub mod FdUtil
