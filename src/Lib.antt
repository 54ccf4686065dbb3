-- ===== src/Lib.antt =====
-- Verification of the system call throttling module, a Linux kernel module in C.
--
-- The module sends registered system calls through a wrapper. A call by a registered user id or
-- program name then needs a token, of which there are so many per second; a thread that gets none
-- sleeps until the epoch timer, which goes off every second, gives new ones. A device takes the
-- commands of the administrator and of users.
--
-- The files, and the code that they model:
--   Registry/Syscall, Registry/Uid, Registry/Prog: the three registries in src/throttling_api.c
--     (register_*, deregister_*, check_*, get_all_*). The system call registry also patches the
--     system call table. Registry/Lengths is get_lenght. Registry/Validity is their invariant, and
--     Registry/Start is about the state in which the module is loaded. Registry/Histories is
--     the specification of a registry as a set, and the History of each registry compares it with
--     that. The Listing of each registry is about get_all_*.
--   State: the globals of src/throttling_mod.c and the structs of include/throttling_rcu.h.
--   Monitor: switch_on_monitor, switch_off_monitor, set_max_syscall and get_thread_stats in
--     src/throttling_api.c; core_setup, core_cleanup and epoch_handler in src/throttling_hidden.c.
--     In Monitor/Switching any number of administrators switch at once, one access at a time, beside
--     epoch_handler and the threads of the wrapper.
--   Stats: check_and_set_statistic and get_syscall_stats in src/throttling_api.c. Stats/Updates takes
--     check_and_set_statistic one access at a time, and Stats/Longest many delayed calls.
--   Wrapper: throttling_wrapper in src/throttling_api.c. `advance` is one access of a thread to
--     shared state, and `Pc` says between which two accesses it stands. Wrapper/Alone runs one
--     thread; Wrapper/Threads interleaves any number of threads with the timer, with signals and
--     with the administrator. Wrapper/Threads/Throttle and Wrapper/Threads/Rate count the tokens
--     that a run takes, Wrapper/Threads/Release is about a sleeper after an expiry, and
--     Wrapper/Threads/Progress has the runs that end a thread's call.
--   Device: throttling_ioctl in src/throttling_dev.c, with the commands of include/throttling.h.
--     Device/Queries is its first switch, for everybody, and Device/Controls the second, for root.
--     Device/Steps puts the commands among the steps of Wrapper/Threads, and Device/Times is about
--     GET_THREAD_STATS.
--   Cleanup: cleanup_rcu in src/throttling_api.c.
--   Rcu: how src/throttling_api.c walks and changes one bucket of its hash tables under RCU, in a
--     finer model than the registries': readers go from entry to entry, and a deregistration waits
--     in synchronize_rcu before it gives an entry back. Rcu/Invariant is its invariant.
--   Loading: init_module and cleanup_module in src/throttling_mod.c. Loading/Devices is dev_init and
--     dev_cleanup in src/throttling_dev.c.
--   Interface: user/interface.c, on top of Device. Interface/Main is `main`, Interface/Options its
--     switch, Interface/Shows what it prints by the answer of a command, Interface/Calls its
--     variables and calls of ioctl, Interface/Stdio its loops over getchar.
--   Discovery: src/my_usctm.c and src/my_vtpmo.c. Discovery/Scan is the search for the system call
--     table, Discovery/Patch the jump over x64_sys_call, Discovery/Protection the same on a processor
--     with write protection, Discovery/Route the way of a system call through the jump and `call`,
--     Discovery/Walk the walk of the page table, with the processor's translation beside it in
--     Discovery/Walk/Translation.
--   Spam: user/user.c, its `main` and `spam_open` one call of the system at a time.
--   Kernel: what the module takes from Linux. Base: words, lists and tests. Tests: concrete runs.
--
-- Parameters. The record `Kernel` holds what the module takes from Linux: the hash tables
-- (`HashApi`: an entry that was added is found under its key, `hash_del_rcu` takes one away),
-- jhash, jiffies_to_msecs, array_index_nospec (the identity on an index in range), HZ, NR_syscalls
-- and the address of the wrapper. Kernel/Chains has an instance, with linked chains. The results
-- of kmalloc and of the copies from and to user space are arguments; that kmalloc gives out no
-- block that is out already is a hypothesis where it is needed. For the interface, the record
-- `Stdio` holds scanf with one conversion (a number or a word that matches takes at least one
-- character), and the record `World` what each call of ioctl meets and what malloc returns. What
-- register_chrdev, class_create and device_create answer is an argument of dev_init.
--
-- Numbers. An atomic_t, an atomic64_t or an unsigned long is its bit pattern, a number below 2^32
-- or 2^64, and additions wrap around; an `int` that is returned is a signed number. A name is the
-- list of its bytes. Memory is the list of the blocks that are out, and statistics are looked up by
-- the address of their block.
--
-- Interleaving. A section under write_lock, an RCU read section, a call of the administrator, a run
-- of the timer function and a function of the registries are one step each, in which `jiffies`
-- does not move on. A wait may end by a signal while the thread is asleep. A system call is
-- dispatched to the wrapper through the patched table. Three parts have a finer model of their
-- own: Rcu, where a walk is many steps and a block waits for its readers (elsewhere an entry is given
-- back at once), Monitor/Switching, where switches overlap with each other and with the timer, as the
-- code lets them, and
-- Stats/Updates, where several threads update the same statistics.
--
-- Loops over a table go over its list of entries. The wrapper's loop is a sequence of steps, so it
-- needs no fuel; `alone` takes a number of accesses, and its theorems give one that is enough.
--
-- The loop of the interface takes fuel, one unit for each turn; each turn takes a character of the
-- input or is the last, so one more unit than the input has characters is enough.
--
-- The search for the system call table makes one round per word of a page and one per page from
-- START to MAX_ADDR, as the C loops do. Words and bytes of memory are functions of the address.
--
-- The threads of user/user.c run to the end of the process: SYS_open answers with a descriptor that
-- is not open or with an error, and where pthread_create fails `main` ends the process at once.
--
-- Not modelled: messages to the log and to the terminal that carry no answer, the interface's free of
-- its arrays, and the file that user/user.c opens.
pub mod Base
pub mod Kernel
pub mod State
pub mod Registry
pub mod Monitor
pub mod Stats
pub mod Wrapper
pub mod Rcu
pub mod Spam
pub mod Interface
pub mod Cleanup
pub mod Discovery
pub mod Loading
pub mod Device
mod Tests
