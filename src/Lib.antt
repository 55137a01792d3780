-- ===== src/Lib.antt =====
-- Verification library for the C and C++ programs of the repository.
--
-- The programs, and where each is modelled:
-- * lab3-TheCarton-main/kvstore.c, the table of 200 keys behind the database server: Kv.antt has
--   the table as two lists, keys and values, and one function per operation (kv_read, kv_write,
--   kv_delete and the three searches). Every operation runs under one mutex and is one step. A
--   value pointer keeps what `free` leaves behind, so a second `free` is a fault. calloc is taken
--   to succeed. kv_dump, which prints, is left out.
-- * lab5-TheCarton-main, the inode file system under FUSE. Fs/Layout.antt has the structures of
--   fs5600.h as bytes of a block, Fs/Bitmap.antt the block bitmap, and Fs/State.antt the image and
--   the block access of misc.c, with the monad in which all calls run: a value, an error code, or
--   a fault for an abort and for behaviour that C leaves undefined. Fs/Path.antt and Fs/Walk.antt
--   have the splitting of paths, directories and path_to_inum. The calls of fs5600.c are in
--   Fs/Attr.antt (fs_init, fs_statfs, fs_getattr, fs_readdir, fs_chmod, fs_utime), Fs/File.antt
--   (fs_read, fs_write, fs_truncate) and Fs/Tree.antt (fs_create, fs_mkdir, fs_unlink, fs_rmdir,
--   fs_rename), each under its name. The clock, the caller's ids and uninitialised memory are
--   arguments.
-- * lab2-TheCarton-main, the shell: Shell/Token.antt has the tokenizer of cmdparse.c,
--   Shell/Parse.antt its parser (cmd_parse and cmd_line_parse, which call one another, on fuel)
--   and Shell/Parse/Print.antt the text that cmd_print writes. Shell/Exec.antt has the loop
--   cmd_line_exec of cmdrun.c, in which the start of a process and the wait for it are a
--   parameter, and Shell/Launch.antt the start, cmd_exec and subshell_exec, as what the table of
--   descriptors is in the child and in the shell; what the system calls answer is an argument.
--   Commands are values, so that cmd_free has no counterpart.
-- * lab3-TheCarton-main/worker.c and stats.c, the server behind the sockets: Server.antt has the
--   handlers, dispatch and the loop of a worker over the store of Kv.antt, with what the socket
--   delivers as an argument, and the four counters. One worker at a time uses the store. What C
--   leaves undefined there is a fault: a field of a request that has no NUL, a number printed
--   behind its field, an array that the stack has no room for; Server/Bounds.antt has what rules
--   it out.
-- * lab4-TheCarton-main, the kernel: Kernel/Pages.antt has kalloc (kernel.cc) and the pages that
--   may be allocated (k-hardware.cc), Kernel/Table.antt the page tables (k-vmiter.cc, k-vmiter.hh)
--   as trees of pages with their addresses, Kernel/Start.antt the loop of kernel_start over the
--   kernel's table, Kernel/Library.antt the functions of lib.cc on memory, with ranges that do not
--   wrap around, Kernel/Numbers.antt its from_chars for unsigned long, and Kernel/Process.antt
--   exceptions, system calls and the scheduler of kernel.cc. The numbers of kernel.hh, which is
--   not in the repository, are a record of parameters. The loop of schedule has as many rounds as
--   there are processes; after them it only repeats itself.
-- * lab1-TheCarton-main/part2/caesar.c, the Caesar cipher: Cipher.antt. A key is an `int`, and its
--   negation in decode wraps around at INT_MIN.
-- * lab3-TheCarton-main/queue.c, the queue of jobs: Jobs.antt has the tasks in a memory of
--   addresses, and enqueue, dequeue and queue_count as steps under their mutex. The wait of
--   dequeue is a result. queue_count runs on fuel; as many rounds as there are tasks are enough.
-- * lab1-TheCarton-main/part2/queue.c, queue_main.c and ciphered_queue_main.c, the queue of
--   strings and its two programs: Queue.antt has the heap of nodes and strings and the functions
--   of queue.c, and Queue/Program.antt what a line asks for (process_line, process_line2), what is
--   done then, and the loop over the lines of a file. malloc is a parameter. The loops over the
--   queue have as much fuel as the file has lines, since a line puts in one word at most.
-- Base.antt passes on what these share: lists with an index, C strings as lists of character
-- codes, the search for the first hit, and integers.
--
-- Numbers are plain naturals, with the cuts to 16, 32 and 64 bits written out where a value is
-- stored. The loops of fs_read and fs_write run on fuel, one round more than there are bytes to
-- move: a round moves at least one byte. The parser has fuel for each call: twice the characters
-- of the line and two, for a line of at most 1023 characters without quotes, since every two calls
-- take a token from it. No fuel is enough for some other lines. All other loops are over a list or
-- a bounded index.
--
-- Not modelled: sockets, threads and processes, the FUSE start-up, the caesar program of lab 1,
-- the client of lab 3, and of lab 4 the devices, the boot loader, process_setup (it reads program
-- images, whose type is in kernel.hh), the iterator steps next and ptiter, the checks of
-- check_pagetable and of down, the content of the pages but for the entries of the page tables,
-- what processes do between two entries into the kernel, the screen, the log, and of lib.cc all
-- but the functions on memory and from_chars.
pub mod Base
pub mod Kv
pub mod Fs
pub mod Jobs
pub mod Queue
pub mod Kernel
pub mod Server
pub mod Cipher
pub mod Shell
