-- ===== src/Lib.antt =====
-- The laboratory works of an operating-systems course, in C: lab_01 a daemon, lab_02 a directory
-- walk, lab_03 to lab_04 kernel modules and readers of /proc, lab_05 files shared by streams and
-- threads, lab_07 a file system module, lab_08 sockets, lab_09 keyboard interrupts.
--
-- Common: native numbers, lists, signed integers, C strings as lists of bytes, options.
--
-- Tasks models lab_03/part1/md.c: the tasks are a function of their addresses, which does not
-- change during the walk; a round for each task is enough. Symbols models the three modules of
-- lab_03/part2: their inits and exits, what they export and use, and how insmod and rmmod, which
-- are the kernel's, load and unload them.
--
-- Dirwalk models lab_02. Dirwalk.Memory has the nodes of lab_02/lib/stack.h in a memory that is
-- the history of its writes. Dirwalk.Stack has create_node, push and pop of lab_02/lib/stack.c;
-- malloc is a parameter, which gives the next address or NULL. The two loops that look for the end
-- of the list run on fuel; a list of n nodes needs fuel n. Dirwalk.Stats has incStat, findPercent
-- and printStat of lab_02/lib/statistics.c. Dirwalk.Files is the file system as lstat, opendir,
-- readdir, closedir and chdir show it: a tree that does not change during a walk, in which any
-- call on any directory may fail; errno is kept as whether it is 0: a call that fails sets it, one
-- that succeeds leaves it alone, and it is 0 at the start. Dirwalk.Interface states what a walk
-- asks of a stack; Dirwalk.Walk has doPath, ftw, function and main of lab_02/main.c over it, and
-- Dirwalk.Linked shows that the list fills it. The walk runs on fuel; 2 + 2 * room rounds are
-- enough, where room counts the entries and directories of the tree. Dirwalk.Order compares two
-- runs on trees whose entries come in different orders, with the printed lines as a multiset,
-- without the messages on readdir, which depend on errno. Dirwalk.Program is the program over the
-- list. Integers of C that count files or depths do not wrap here, except where printStat narrows
-- them to int. Colours and captions are not modelled.
--
-- Kernel has what a kernel module holds, as the list of the calls that took and gave resources;
-- which calls the kernel answers is a parameter of each load.
--
-- Fortune models lab_04/part2. Fortune.Buffer has the kernel buffers as lists of bytes, with
-- writes out of range as failures. Fortune.Cookie has writeFortune and readFortune of
-- lab_04/part2/fortune.c; copy_from_user and copy_to_user are parameters, which say how much could
-- not be copied. Fortune.Seqfile has writeFortune and showFortune of lab_04/part2/seqfile.c;
-- seq_printf is a parameter. Fortune.Queue runs both on the same users, next to a queue.
-- Fortune.Lifecycle has the load and unload of both. The page has 4096 bytes, and the guard of
-- writeFortune is computed modulo 2 ^ 64; the indices do not reach the range of int.
--
-- Keyboard models lab_09. Keyboard.Keys has the table of names, my_tasklet_function and f of
-- lab_09/part1/main.c; the code that inb gives is a parameter. Keyboard.Tasklet has the handler,
-- the tasklet, the reader and the unload of that file as events on the state of the module, in
-- which the kernel runs a scheduled tasklet once and tasklet_kill waits for it. Keyboard.Workqueue
-- has the same for lab_09/part2/main.c: the queue keeps the works in their order, and queue_work
-- does nothing to a work that waits. Keyboard.Lifecycle has the loads and unloads of both files as
-- calls of Kernel. Any list of events is allowed; sleeping and logging are not modelled.
--
-- Select models the loop of lab_08/part2/server.c. Select has one round: the set for select, a new
-- client, the loop over the clients; what select, accept, recv and send answer is a parameter, and
-- a return of main is a missing result. Select.Slots is about the places of the clients,
-- Select.Served about the loop over them, Select.Round about a whole round; Select.Run is main,
-- from socket over any rounds. Select.Client is lab_08/part2/client.c, over what is typed and
-- received; Select.Session runs one client against the server. Descriptors stay below FD_SETSIZE,
-- and the square of a number outside of int is an answer of its own.
--
-- Local models lab_08/part1. Local is the server: what happens while it waits is a list of events,
-- each a client or a SIGINT, and what accept, recv and send answer comes with the event.
-- Local.Client is the client with createMessage, which fails where it writes behind its 128 bytes.
--
-- Filesystem models lab_07/main.c: the load and unload as calls of Kernel, and the super block and
-- the root inode of a mount, where the kernel gives the inode and the dentry. Filesystem.Mount has
-- myfs_mount and myfs_kill_anon_super, over what mount_nodev and kill_anon_super are documented to
-- do, and the life of the module as steps: loads, mounts, unmounts and unloads in any order.
--
-- Pagemap models pagemap_get_entry and virt_to_phys_user of lab_04/part1/lib/output_funcs.c on a
-- little-endian machine with pages of 4096 bytes; pread is a parameter. Its loop runs on fuel;
-- nine rounds are enough, since each round that goes on reads at least one of eight bytes.
--
-- Procinfo models the rest of lab_04/part1. Procinfo and its children Files, Stat and Links have
-- the sections of lab_04/part1/main.c: the paths, the title, and the loops that copy a file, pair
-- words with names, list a directory and list links. What fopen, readdir and readlink give is a
-- parameter; a NULL pointer that is used, a string without an end and an index behind a table are
-- crashes. Procinfo.Maps has fprintPagemap of lab_04/part1/lib/output_funcs.c with its indices
-- into the buffer: the parsing of a line (Maps), the loops over pages, bytes and reads
-- (Maps.Pages), where they stop (Maps.Scan), and lines as the kernel writes them (Maps.Line and
-- Maps.Lines). No loop over the buffer goes further than it is long, which is its fuel; the loop
-- over pages has a round for each address of the range, and the loops over files a round for each
-- byte and two more. Procinfo.Program is main. The memory of arrays that are not initialised is a
-- parameter.
--
-- Daemon models lab_01/main.c. Daemon.Process has daemonize: what a process is, its table of
-- descriptors, and the calls, each of which the kernel answers; the loop of close runs once for
-- each descriptor below the limit. Daemon.Messages has what err_quit and err_exit of
-- lab_01/lib/apue.c print, on formatted texts. Daemon.Service has the lock file, the thread that
-- waits for signals, and main. Daemon.Lock has several processes that start the daemon, as steps
-- on the name of the lock file, its inodes, their bytes and their locks; each step is one call of
-- one process, in any order.
--
-- Alphabet models lab_05/src/app2_threads.c: the calls of outputFile, and the loops around it, as
-- steps of two threads on filePos, the output, the mutex and the offsets of their descriptors. A
-- run is any sequence of steps; colours and sleeping are not modelled.
--
-- Turns models lab_05/src/app2_threads_right.c: the calls of main and thr_fn as steps of two
-- threads, each with a descriptor of its own, on the mutex and the output. The file is there;
-- pthread_create may fail.
--
-- Streams models lab_05/src/app1.c: two streams, each with a buffer of 18 bytes that is filled
-- from the offset they share. The loop runs on fuel; a round for each byte of the file and one
-- more are enough.
--
-- Streams.Threads models lab_05/src/app1_threads.c: what fscanf and fprintf do in each of the two
-- threads as steps, the white space of the format included; the thread has been created.
--
-- Descriptors models lab_05/src/app2.c: each descriptor is what is left of the file behind its
-- offset, and a round for each byte and one more are enough for its loop. Writers models
-- lab_05/src/app3.c on any letters: two streams, each with an offset and what stdio keeps in its
-- buffer until fclose. Writers.Appended models lab_05/src/app3_threads.c as steps of its two
-- threads.
--
-- Not modelled: the opening and closing of the fortunes, which only log or only call the kernel,
-- and the texts of prompts, error messages and logs.
pub mod Common
pub mod Kernel
pub mod Tasks
pub mod Symbols
pub mod Dirwalk
pub mod Fortune
pub mod Keyboard
pub mod Select
pub mod Local
pub mod Filesystem
pub mod Pagemap
pub mod Procinfo
pub mod Daemon
pub mod Alphabet
pub mod Turns
pub mod Streams
pub mod Descriptors
pub mod Writers
