-- ===== src/Lib.antt =====
-- A verification library for the sample drivers. It models twenty-five of them in full or in large part:
--
--   * the character device of char/lab6_char_fasync.c (CharDev): its variables are the record Dev, a
--     call works on a Call (device, the caller's memory, *ppos), and each chardrv_ function is the
--     function of its name. Lifecycle has init and exit as lists of acquired and released resources,
--     Session runs sequences of all its calls, and Wait interleaves one reader with one
--     writer step by step.
--   * the block drivers block/sbd.c (Block/Sbd) and block/lab2_block.c (Block/Mybdrv): one transfer,
--     the request loop, the geometry, init and exit. The block layer is a parameter, BlockOps, with
--     the laws IsBlockLayer (Kernel/Blk). The loops run on fuel; one round more than there are
--     segments is enough where the loop ends at all.
--   * the scullc device of io/lab6_aio.c and io/scullc.h (Scullc): Store has the chain of items with
--     their arrays of quanta, Io scullc_do_read and scullc_do_write with their asynchronous case,
--     Control scullc_trim, scullc_open and scullc_llseek, Ioctl scullc_ioctl.
--     Defer has the asynchronous entry points, Lifecycle init and cleanup.
--   * the serial mouse of hardware/lab4_full_mouse_driver.c (Mouse), with the decoding of
--     hardware/HINT_decode_bytes.c: the interrupt handler takes a list of bytes from the UART, and
--     read hands on what it put together.
--   * the tiny tty driver of serial/tiny_tty.c (Tty): Port runs opens, closes and expiries of the
--     timer with the kernel's tty_port_open and tty_port_close as parameters, Lines has the modem
--     lines and the termios, Ioctl the ioctls, with the wait for a change as a list of wake-ups.
--   * the tiny serial driver of serial/tiny_serial.c (Serial): Transmit compares the transmitter with
--     the queue that its circular buffer stands for, Agreement its termios with those of the tty
--     driver.
--   * the USB skeleton of usb/usb-skeleton.c (Usb): Dev has struct usb_skel and the completions, Read and
--     Write the transfers, Control and Probe the rest. A read runs on a list of turns, one for each
--     time round its loop; Session and Flow are sequences of calls and completions, Blocking a read
--     that sleeps, Reports the errors.
--   * the ISA memory driver of hardware/lab5_silly.c (Isa): Access has the widths and the loops, which run
--     on the count as fuel, File the calls; Moves says what the loops move, Reading, Writing and Ranges
--     what the calls do.
--   * the completion of misc/completion_static.c (Completion): Machine has the steps of the thread and of
--     the calls beside it, Counting what they come to, Lifecycle the init and the exit.
--   * the generic entry points of io/lab_char.h (LabChar): Calls has them with their machine words, Plain
--     a description without but for the sum of a seek, Refines compares them.
--   * the deferred printing of timers/lab8_jiq.c (Jiq): Client has jiq_print and what runs it, on fuel,
--     of which 3970 runs are enough, Filling how it fills the page, Sleep a reader against the runs that it
--     starts, Waking who is woken up.
--   * the interrupt labs interrupts/lab4_one_tasklet.c, lab5_one_tasklet_improved.c and
--     lab5_one_thread_improved.c (Halves): Simple, Improved and Threaded have the steps of the handler and of
--     its bottom half, Accounts the invariant of the second.
--   * the serial mouse of hardware/lab4_serial.c (SerialMouse): an interrupt for each byte moves two positions;
--     Tracking follows them, Agreement reads them and compares the handler with that of Mouse.
--   * the character devices of char/lab4_char_seek.c and char/lab5_char_poll.c (EarlyChar): Growth compares
--     what they and CharDev leave behind reads, writes and seeks.
--   * the waiting readers of ioctl/ (Gates): Flag has the labs with a flag as one step relation with what they
--     differ in, Tokens those with a semaphore or a completion, Awake says who is woken up.
--   * the delays and the timer of timers/lab9_jit.c (Jit): Delay has jit_fn on fuel, as much as the clock has
--     readings until the delay is over, Passing how long it takes, Timer the steps of jit_timer and its timer,
--     Lines what they come to.
--   * the timers of timers/lab2_multitimer.c (Timers): Machine has the steps, Unload the end.
--   * the network drivers network/lab3_transmit.c and lab4_receive.c (Net): Driver has them, Printing the loop
--     that prints a packet, on fuel, one more than it has bytes, Traffic sequences of packets.
--   * the hash table of data/lab4_data_hashtable.c (Hashtable): Table has it, Bag what it stands for.
--   * the threads of sync/sync_lab3_spinlock.c (Sync): Spinlock has their steps, Exclusion the invariant,
--     Lifecycle init and exit.
--   * the mapped device of io/lab3_mmap.c (Mmap): Mapping has mmap and ioctl, Sharing what a mapping reaches.
--   * the slab cache device of memory/memory_lab2_cache.c (Slab): Device has the calls, Opens sequences of
--     opens and releases, Lifecycle init and exit.
--   * the ioctls of ioctl/lab2_ioctl_vardata.c and ioctl/lab3_ioctl_signal.c (Commands): Vardata and Signal have
--     them, Sending says whom the signals reach.
--   * the proc file of debug/debug_lab2_procfs.c (Procfs): File has the calls, Text what the buffer says.
--
-- Kernel has what they share: error numbers and results, 64-bit words with their wrap-around
-- (Word), memory as bytes from a buffer's start on and the user copies as parameters with their
-- documented behaviour (Memory), the ledger of resources (Ledger), the layout of ioctl commands
-- (Ioctl). Prelude passes library names on and has the lemmas on lists and tests.
--
-- Memory is a function of the address, so that an access behind a buffer is visible as such; no byte
-- is bounded, since no operation computes with more than the bits it names; Isa asks for bytes
-- below 256 where it puts words together. Kernel/Slice reads a range as a list. A long and a pointer have
-- 64 bits, an int has 32, and PAGE_SIZE is 4096. copy_to_user and copy_from_user, the allocator and
-- the kernel's answers are parameters. Not modelled: messages to the log but the
-- packets of the network drivers, module reference counts,
-- locks that the source takes and gives back around a whole operation, and the other samples of the
-- repository, which are variations on these or calls of kernel interfaces.
pub mod Prelude
pub mod Kernel
pub mod CharDev
pub mod EarlyChar
pub mod Mmap
pub mod Slab
pub mod Procfs
pub mod Block
pub mod Scullc
pub mod Mouse
pub mod SerialMouse
pub mod Tty
pub mod Serial
pub mod Usb
pub mod Isa
pub mod Completion
pub mod LabChar
pub mod Gates
pub mod Commands
pub mod Jiq
pub mod Jit
pub mod Timers
pub mod Net
pub mod Hashtable
pub mod Sync
pub mod Halves
