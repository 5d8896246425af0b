-- ===== src/Lib.antt =====
-- PersonalProject: small C programs around the POSIX interfaces.
--
-- Common: shared names, Boolean tests, lists over the native numbers.
-- Decimal: the numbers that `sprintf` prints and `atol` reads. Posix: a file's content and place,
-- record locks byte by byte, and a list of outcomes that says which calls fail.
--
-- ApueDb models apue_db.c and apue_db.h. State has the handle (`DB`); Entry the functions that read and
-- write pointers, index records and data records (`_db_readptr`, `_db_writeptr`, `_db_readidx`,
-- `_db_writeidx`, `_db_readdat`, `_db_writedat`); Chain the hash chains and the free list (`_db_hash`,
-- `_db_find_and_lock`, `_db_findfree`, `_db_dodelete`); Ops the operations (`db_fetch`, `db_store`,
-- `db_delete`, `db_rewind`, `db_nextrec`); Open `db_open`, `_db_alloc` and `db_close`; Database takes a
-- handle for the list of its records, as a client reads them one after the other. An operation is an
-- action on the handle with the two files in it. A walk along a chain takes fuel, and `none` means that
-- the fuel ran out: the walk of the source need not end. Where a result is stated, one round of fuel is
-- enough, since the record stands at the head of its chain or of the free list.
--
-- A write is whole or fails. Other processes are not modelled: the locks are recorded, and nothing
-- contends for them. Numbers are read and printed without a bound; off_t and the counters do not
-- overflow. The text of a key that is too long for `idxbuf` makes that buffer longer here.
--
-- OpenServer models client1.c and opend1.c, the server that it starts and sends its requests to. Args has
-- `buf_args` and `cli_args`; Fd the message of a descriptor (`send_fd`, `recv_fd`); Server `request` and
-- `main` of opend1.c; Client `csopen` and `main` of client1.c. What `open`, `malloc`, `sendmsg` and
-- `userfunc` do, and which calls fail, are arguments; `recv_fd` and both loops run over the list of what
-- their reads give, and `none` says that the program still waits. The client's copying loop takes fuel,
-- of which one round is enough, because the loop closes what it reads. A flag whose text is too long for
-- `buf` gives no result of `csopen`. The pipes between the two
-- processes of the client, its failing writes, and the size of the receive buffer are not modelled.
--
-- In both protocols the kernel opens the file of a passed descriptor again in the receiver, under a number that
-- is an argument here.
--
-- ExchangeFd models exchange_fd.c, which has `send_fd` and `recv_fd` in one program with one static buffer.
-- ExchangeFd.Scans compares its loop over the buffer, modelled place by place, with the text and the status that
-- OpenServer.Fd reads out of the buffer.
--
-- Fraction models Fraction.cpp: the constructor, `set`, `toString`, `simplify` and `gcd`, on numbers with
-- the division of C, and in Arithmetic the four operations, whose argument may be the object itself. `gcd`
-- has the magnitude of its second number as fuel, and `reduce`, the loop of `simplify`, two tests, which are
-- enough. A number that does not fit an int gives no result; INT_MIN divided by -1 and `toDouble` are left out.
--
-- Maze models the mazes of Prototype.cpp, AbstractFactory.cpp, FactoryMethod.cpp and MazeImplGeneric.cpp, whose
-- classes are the same: objects on a heap that point to each other by their places, copies, and `Enter`. Maze.Made
-- has the factories and games as what their functions make, and both functions `CreateMaze`. The counting of
-- references is left out.
--
-- IteratorPattern models IteratorPattern.cpp: the list that grows, both iterators as one interface, and the
-- traverser. A traversal takes one round of fuel more than there are items.
--
-- Pty models my_pty.c and the same functions of pseudo_terminal.c: `ptym_open`, `ptys_open` and `pty_fork` over a
-- list of what the calls return, with the open descriptors; Pty.Main has the options, `main` and
-- `loop_one_process` over a list of what `select` and the reads give. A write is whole or fails. What the settings
-- of the terminal are, and `loop`, which nothing calls, are left out.
--
-- Sockets has the calls that unique_connections.c makes, on files with their modes and times and on the
-- open descriptors of a process; a list of outcomes says which calls fail. Connections models its
-- `serv_listen`, `serv_accept` and `cli_conn`. Two processes meet in the files: the server's process
-- stands over the files that the client leaves. A name that `strcpy` would copy past
-- `sun_path` gives no result. The bytes that they exchange and `errno` are left out.
--
-- TtyMode models noncanonical_mode.c: the terminal's settings, the three static variables, `tty_cbreak`,
-- `tty_raw`, `tty_reset`, `tty_atexit`, and in TtyMode.Main the signal handler and `main` over a list of what
-- its reads meet, a signal among them. What the terminal makes of the settings that it is asked for is an
-- argument. A signal between two calls is left out.
--
-- Integers has the sums of numbers that may be negative. Calendar models Date.h and Date.cpp: days from 1
-- January 1000, the loops between days and dates (`dmy2dsbd`, `getDMY`), and the day of the week. The
-- first loop of `getDMY` has one round of fuel more than the days, since a year has a day at least, and
-- the second twelve, since the months of a year make up the year. Years and sums have 32
-- bits and wrap around.
--
-- Trim models `trim_string` of trim_string.cpp with its buffer. Interpreter models the Boolean expressions
-- of Interpreter_Pattern.cpp, VariableExp.cpp and Context.cpp as trees; `none` is the exception of
-- `std::map::at`. Tcp models the connection and the states of TCPConnection, TCPState, TCPClosed,
-- TCPEstablished and TCPListen, with their static instances and their output;
-- Tcp.Sessions has programs with any connections. Nodes models the composite
-- of Program_Nodes.h and Program_Nodes.cpp as a tree; the visitor is an argument.
--
-- Player models the two threads of player.c as steps on the shared queue, in any order. A step of the
-- reader is the whole of what it does under the mutex; the worker's steps are its statements, so that
-- the reader's two assignments behind its loop, which take no mutex, can stand between them. Failing
-- calls and the freeing of nodes are left out.
--
-- Archive models `main` of archive_data.c: its options, the loops of writes, and its exits. What a call of
-- `write` writes is an argument. The inner loop has as much fuel as there are bytes to write.
--
-- Observer models observer_pattern.cpp: the timer, and the clocks that were made in the order of their making;
-- a list of commands is what a client does with them. Proxy models virtual_proxy_pattern.cpp: the image and its
-- proxy as two implementations of one interface, and the document. Chain models
-- chain_of_responsability_pattern.cpp: handlers on a heap; a request takes one round of fuel for each object
-- that was made up to the one that is asked, which is enough where each hands on to an older one. Flyweight
-- models Flyweight_pattern.cpp: the factory of characters and the context with its fonts. Mediator models
-- mediator.cpp: the widgets on a heap and the director of the dialog.
--
-- Not modelled: tests, among them those that only make system calls in a row (streams_pipe.c, the message
-- queues, signals, timers, semaphores, shared memory, scheduling); ex_get_pass.c, whose buffer is given to
-- `setbuf` and too small for it; kernel modules; smart_ptr.cpp, which tests Boost; Hondurota.h, which is floating
-- point; the records of Person, Employer and Position; and three demonstrations of class structures, of which
-- memento.cpp and Facade_Pattern.cpp read objects that were never set or no longer exist.
pub mod ApueDb
pub mod Archive
pub mod Calendar
pub mod Chain
pub mod Common
pub mod Connections
pub mod Decimal
pub mod ExchangeFd
pub mod Flyweight
pub mod Fraction
pub mod Integers
pub mod Interpreter
pub mod IteratorPattern
pub mod Maze
pub mod Mediator
pub mod Nodes
pub mod Observer
pub mod OpenServer
pub mod Player
pub mod Posix
pub mod Proxy
pub mod Pty
pub mod Sockets
pub mod Tcp
pub mod Trim
pub mod TtyMode
