-- ===== src/Lib.antt =====
-- EMOS is a hobby operating system for 32-bit PCs: a boot loader (boot/) that reads a kernel image
-- from a file system and hands over a memory map, a kernel (kernel/), and host tools (tools/).
-- This library models parts of the kernel and of the boot loader as functions on explicit states and
-- proves what they do.
--
-- The parts and how they meet. kernel/init/main.c starts the two memory allocators: the physical one
-- (kernel/mm/pma.c) counts and hands out page frames, the virtual one (kernel/mm/vma.c) hands out
-- ranges of page numbers, and kernel/mm/mm.c joins the two in the page tables. Drivers read and
-- write sectors through a block device; the FAT driver (kernel/drivers/filesystem/fat/) keeps its
-- allocation table in such sectors. Threads are switched by a timer interrupt, which asks
-- kernel/thread/scheduler.c for the next one, and kernel/mutex/ holds the locks that they use.
-- The boot loader reads its configuration (boot/json/) from a file of a FAT volume
-- (boot/filesystem/fat/) and writes text through a terminal (boot/device/char/ansiterm.c) into the
-- cells of a console (boot/device/video/vconsole.c); its shell (boot/shell/) splits lines.
--
-- The files.
--   Base, Status, Run   shared names and lemmas; the status codes of kernel/include/emos/status.h;
--                       how a call ends: a result, a call of panic, or an access outside an object
--   Pma                 kernel/mm/pma.c. `mark_reserved` is mm_pma_mark_reserved, and so on: the
--                       prefix mm_pma_ is left out. Pma/Packed is the bitmap with two bits for a
--                       frame (PBM_GET, PBM_SET), Pma/Valid the invariant of the two counters
--   Fat                 the table entries of kernel/drivers/filesystem/fat/util.c: Fat/Volume has
--                       the functions on 12-bit entries, Fat/Entry16 those on 16-bit entries, and
--                       Fat/Block the block device, a record of operations and laws that the code
--                       relies on (a released sector reads as what was released, another sector
--                       as before); a device in memory in Fat/Tests fills it
--   Vma                 kernel/mm/vma.c, with the prefix mm_vma_ left out
--   Paging              kernel/mm/mm.c: page tables in words of frames, and pages with frames behind
--                       them, from the allocators of Pma and Vma; the prefix mm_ is left out where
--                       it is not needed
--   Locks               kernel/mutex/mutex.c and spinlock.c; Locks/World runs the threads on the
--                       mutex one test, assignment or change of the preemption flag at a
--                       time, with the switches of pit_isr and scheduler_yield,
--                       and Locks/Chain has the chain of waiting threads with its pointers
--   Scheduler           kernel/thread/scheduler.c: the list of threads, the choice of the next one;
--                       Scheduler/Wake has the first loop of scheduler_maintain
--   Strings             kernel/stdc/string: memmove, memcpy, mempcpy, memset, strnlen and strncpy, on
--                       a memory that maps addresses to bytes
--   Strto, Ctype        kernel/stdc/stdlib/strtol.c and strtoll.c, kernel/stdc/ctype/ctype.c
--   Shell               boot/shell/parse.c: the arguments of a line, and in Shell/Expand the values of
--                       variables (boot/shell/variable.c)
--   Path                boot/core/path.c: Path/Normal has path_normalize, Path/Canonical the stack of
--                       names that it is compared with
--   Json                boot/json/json.c: the reader of the configuration file, with its cursor and its
--                       allocations; Json/Grammar prints the documents that it is compared with
--                       (a byte compared behind the text is taken as NUL; a loop over digits that
--                       runs on behind the text is an access outside)
--   Words, Ends         32-bit words as `int`s; how a function of a driver ends, and its loops
--   Console, Ansiterm   boot/device/video/vconsole.c, the cells of a screen and the marks of those that
--                       are to be drawn, and boot/device/char/ansiterm.c, the terminal on it:
--                       Ansiterm has the functions on cells, Ansiterm/Escape the escape sequences, and
--                       Ansiterm/Write put_char, wwrite and write
--   BootFat             boot/filesystem/fat/fat.c: the table and its chains; BootFat/File reads and
--                       seeks in an open file, BootFat/Mount computes the places of a volume and
--                       BootFat/Names turns long names into UTF-8; BootFat/Chain and BootFat/Content
--                       have the chains and the bytes of a file as the disk alone gives them
--
-- State is passed explicitly: the file-level variables of a C file, or the object behind its first
-- argument, are the fields of a record. A status comes back as a value of `Status`. `size_t`,
-- `pfn_t` and `vpn_t` are 32 bits wide (i686) and every sum or difference that can wrap does so in
-- the model.
--
-- Loops are recursion on the number of rounds that the C loop has left, computed from its own
-- bounds; where C walks a list or waits, the rounds are an argument, `none` stands for a loop that is
-- still running, and the theorems say how many rounds are enough. Where a loop index passes the end
-- of the bitmap the access is `fault`, so the index never comes near 2 ^ 32.
--
-- Not modelled: the initialisation of the physical allocator (pma_bitmap_init, which mixes the
-- allocator with the hardware page tables) and of the page tables (mm_init sets registers), the
-- processor's cache of page table entries, FAT directories and the files of the kernel's FAT
-- driver, the formatting of text, the second loop of scheduler_maintain and the rest of the
-- thread code, the drivers that reach ports or the firmware, the drawing of cells and the change
-- of the video mode, functions that mainly allocate with liballoc (probe, open, close,
-- json_destruct), and the rest of the boot loader with its modules. Logging is left out of every
-- function. The libraries that the sources only carry (liballoc, getopt, wcwidth, the fonts) stay
-- out for good.
pub mod Base
pub mod Status
pub mod Run
pub mod Pma
pub mod Fat
pub mod Vma
pub mod Locks
pub mod Scheduler
pub mod Strings
pub mod Paging
pub mod Strto
pub mod Shell
pub mod Ctype
pub mod Path
pub mod Json
pub mod Words
pub mod Ends
pub mod Console
pub mod Ansiterm
pub mod BootFat
