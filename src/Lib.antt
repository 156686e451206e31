-- ===== src/Lib.antt =====
-- Linux-Project: parts of the programs of this repository as definitions, and what they guarantee.
--
-- The repository holds twelve independent programs. Modelled here:
--
-- Alloc.antt: the allocator of Project4/alloc/test_alloc.c. `Heap` is the globals `map`, `mmr` and `num`;
-- `init_alloc`, `alloc`, `dealloc` and `cleanup` are the functions of the same names, and `find_run`,
-- `mark`, `find_section` and `free_slot` are the loops in them. An address is a number, and an `int` takes 4
-- bytes. `dealloc` of an address that no slot has reads an uninitialised variable in C: the model returns
-- `none` there. `num`, which counts calls, is taken not to wrap. Alloc/Search.antt is about the search loop,
-- Alloc/Table.antt about the marks, Alloc/Invariant.antt about the table after any history of calls, and
-- Alloc/Blocks.antt about the blocks that callers get.
--
-- Ealloc.antt: the allocator of Project4/ealloc/test_ealloc.c, over four tables of slots. The page that
-- `mmap` returns and the value that the uninitialised variable of `dealloc` holds are arguments.
-- Ealloc/Pages.antt is about what its callers get.
--
-- Proc.antt: the process table of the xv6 kernel as changed in Project2 (Project2/proc.c, proc.h and
-- trap.c). `Kernel` is `ptable.proc`, `nextpid` and `initproc`, and `Proc` is `struct proc` without page
-- tables, trap frames, files and names. Proc/Query.antt has the calls that the project adds (`get_prio`,
-- `set_prio`, `get_max_pid`, `get_proc_info`, `get_num_proc`, `check`); Proc/Sched.antt has `scheduler` (as
-- `dispatch`, one slot of its loop, up to the switch), `yield`, the clock tick of `trap`, `sleep` (split at
-- the switch into `sleep` and `woken`), `wakeup1`, `wakeup` and `kill`; Proc/Life.antt has `allocproc`,
-- `userinit`, `fork`, `exit` and `wait` (one round of its loop). A process pointer is an index of the table,
-- and NPROC, which param.h would give, is the length of the list. Whether memory was to be had (`kalloc`,
-- `copyuvm`, `setupkvm`, which are not in the repository) is an argument. What runs under `ptable.lock` is
-- one step of `Proc.Reach.Step`; the parts of `fork` and of the clock tick between which other calls come in
-- are steps of their own (`alloc_slot`, `alloc_stack`, `copy_memory` and `make_runnable` of Proc/Life.antt,
-- `count_tick` of Proc/Sched.antt), besides `fork` as one caller sees it. A process that leaves the CPU by `sched` comes to the line behind
-- `swtch` of the scheduler, which clears `cpucount`: `back` does that in the same step. Counters and pids
-- are taken not to wrap. Proc/Valid.antt and Proc/Family.antt state the invariants, Proc/Steps.antt,
-- Proc/Create.antt, Proc/Reparent.antt, Proc/Exit.antt, Proc/Kept.antt, Proc/Marked.antt, Proc/Tame.antt,
-- Proc/Embryo.antt and Proc/Wakeups.antt keep them, and Proc/Reach.antt puts them together over all runs from boot.
-- Proc/Priority.antt, Proc/Slice.antt, Proc/Info.antt, Proc/Waiting.antt, Proc/Orphans.antt and
-- Proc/Killed.antt are about single calls.
--
-- MasterWorker.antt: the threads of Project3/thread1/master-worker.c. What a thread does under the mutex is
-- a function of the globals (`master_round`, `master_behind_wait`, `worker_behind_wait`), a write behind the
-- end of the buffer is the outcome `overflow`, and `Step` lets the threads take turns: both
-- kinds of thread may leave `pthread_cond_wait` without a signal, as POSIX allows, and `spurious` counts how
-- often a master does.
-- MasterWorker/Buffer.antt, Rounds.antt and Runs.antt keep the invariant, and Order.antt says what follows.
--
-- RwLock.antt: the reader/writer locks of Project3/thread2. RwLock/WriterFirst.antt is rw_lock-w-test.c and
-- RwLock/ReaderFirst.antt is rw_lock-r-test.c: the threads are states of a program counter with what each
-- has read. No statement is atomic: a `++` or `--` is a load, which `loaded` keeps, and a store, and steps of
-- the threads come in any order. Compiler and processor are taken to keep the order of the statements, and
-- an `int` to be loaded and stored whole. RwLock/WriterFirst/Invariant.antt, Moves.antt, Leaving.antt and
-- Runs.antt are about the tickets, Stuck.antt about a deadlock.
--
-- Sem.antt: the semaphore of Project3/thread3/SSU_Sem.c, with `int` as an unbounded integer: `down` is the
-- two statements of `SSU_Sem_down` and `may_pass` the test of its loop; Sem/Passing.antt says when it holds.
--
-- Ftl.antt: the commands of Project10/ftlmgr.c on a file of pages. The driver functions `dd_write`,
-- `dd_read` and `dd_erase` and the sizes of flash.h are the fields of `Device`, and `Works` is what the
-- commands rely on. Ftl/Copying.antt and Ftl/Moves.antt are about the copying through another block,
-- Ftl/Empty.antt about the search for it, Ftl/Writes.antt and Ftl/Reads.antt about the commands.
--
-- Scoring.antt: the comparison of answers of Project8/ssu_string.c. A string is the list of its bytes
-- without the terminator; `none` of `stringcmp` is a read behind the end. Scoring/Tokens.antt has the lists
-- of tokens: `tokencmp` runs on as much fuel as the answer has tokens, of which each round takes one, and
-- `makepostfix` goes once through its tokens. Scoring/Lexer.antt is `str2token`, on fuel for the characters,
-- and Scoring/Marking.antt is the first loop of `postfix`, whose inner loops are modes of one pass; a
-- token's 100 bytes are taken to be enough. Scoring/Shapes.antt, Operators.antt and Lexing.antt are about
-- the tokens of a text, Scoring/Marked.antt and Groups.antt about brackets, Scoring/Compare.antt is about
-- the comparisons, and Scoring/Stack.antt, Scoring/Postfix.antt and Scoring/Tally.antt are about what the
-- conversion to postfix order keeps.
--
-- HeapSort.antt: the sorting of a record file of Project12/heapsort.c. The array of record pointers is the
-- list of the records by slot, from slot 1; `heapify` is the function of that name, and `build_heap` and
-- `make_sorted` are `buildHeap` and the loop of `makeSortedFile`. The array is an argument: `main` makes it
-- one slot shorter than `buildHeap` needs, which is outside the model. The sizes of a page and of a record, from person.h, are arguments. `heapify` goes down one level a round and
-- gets one round more than `max`, enough since the node at least doubles each time; `none` is an access
-- outside the array, a token without an end in `buf`, behind which `strtok` and `strcpy` read on, or no token. How the sorted records are laid out in the pages of the second file is left out.
-- HeapSort/Keys.antt is the order of keys, Swaps.antt and Rest.antt are about the exchanges, Order.antt and
-- Sift.antt about one `heapify`, Phases.antt about the loops, Files.antt and Program.antt about
-- `buildHeap`.
--
-- FileSystem.antt: the file calls of Project5/ssufs-ops.c, with `ssufs_write` in FileSystem/Write.antt. The
-- disk and its header file are not in the repository: `Disk` is a record of the calls and sizes that this
-- file uses, over any type of disk states, and `World` is a disk state with the table of handles. An
-- uninitialised buffer is an argument (`junk`), and `none` is a crash, a read of what is not there, a
-- `strcat` of a block without a NUL or one that `buf3` has no room for, or a `strncat` from behind a block.
-- FileSystem/Handles.antt and Offsets.antt are about the table of handles, Reading.antt and Lost.antt about
-- what is read and written.
--
-- Cron.antt: Project7/ssu_crontab.c, which checks a line before it goes into the table (Cron/Crontab.antt),
-- and ssu_crond.c, which finds the lines that are due at a time (Cron/Daemon.antt): `token_check`, `timer`
-- and `comparetime` are the functions of those names, `check` and `check_time` the two programs' entries.
-- The one place that `strtok` keeps is a value handed on from call to call; behind `comparetime` it points
-- into a local array of a call that has returned (`dangling`), and a section that does not fit the arrays of
-- `timer` is `none`. The byte by which the text of `ctime` is longer than `timebuf` is taken to hurt nothing. The loop over a range goes round
-- with fuel, two more than its upper end, enough for a step of at least 1; Cron/Ranges.antt is about it.
-- Cron/Accepted.antt and Lines.antt connect the two programs, Due.antt and Ranges.antt are about a single
-- section. The threads, the log, the lock file and the running of a command are left out.
--
-- Persons.antt: the record file of Project11/person.c: `pack`, `unpack`, `insert` and `delete` on a file of
-- pages of bytes, with the sizes of person.h as arguments. The header in the first page and the numbers in
-- deleted records, which link them in a list, are bytes of the file as in C; the contents of uninitialised
-- memory are an argument. Persons/Bytes.antt and Slots.antt are about the list of the deleted records,
-- Packing.antt about the fields.
--
-- Base.antt: library names passed on, tests on numbers, integers, C arrays as lists (Base/Lists.antt),
-- results that may be missing (Base/Options.antt), and C strings with `strtok` and `strncpy`
-- (Base/Strings.antt).
--
-- All other loops are structural recursion on the table that they run over, or on the rounds that are left.
--
-- Not modelled: `growproc`, `forkret`, `procdump` and the processor bookkeeping of Project2/proc.c, and its
-- system call wrappers; of Project8/ssu_string.c the sorting of terms, and the files that run the scoring;
-- the output pages of Project12/heapsort.c; and the shell, the monitors, the copying program and the timing
-- of reads (Project1, Project6, Project7/ssu_rsync.c, Project9), which mostly call the operating system.
pub mod Base
pub mod Alloc
pub mod Cron
pub mod Ealloc
pub mod FileSystem
pub mod Ftl
pub mod HeapSort
pub mod MasterWorker
pub mod Persons
pub mod Proc
pub mod RwLock
pub mod Scoring
pub mod Sem
