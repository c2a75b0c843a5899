-- ===== src/Lib.antt =====
-- The Olive kernel of Athix: a model of its memory managers, locks, interrupt handling, segments
-- and console, with what makes them correct.
--
-- The parts, and the files of the repository that they model:
--   Macros      olive/include/olive.h (ALIGN_UP, ALIGN_DOWN), PAGE_SIZE and the address macros of
--               include/mm/pmm.h; the entries of the bootloader's memory map
--   Log         olive/include/olive.h: the log macros and ASSERT, on the console; Log.Series has
--               several calls, Log.Locked those on a console whose lock is taken, Log.Quiet
--               operations with and without their log
--   Cpu         olive/src/sys/cpu.c: get_cpuid; Cpu.Halt has hcf and hlt with their log
--   Ports       olive/src/dev/serial.c: the I/O ports, as a history of accesses; Ports.Interface
--               is include/dev/serial.h
--   Lock        olive/include/lib/stdlock.h: `spinlock_acquire` on one CPU, which hangs on a lock
--               that is taken; Lock.Mutex has any number of CPUs in any order
--   Pmm         olive/src/mm/pmm.c: `request_pages` is pmm_request_pages, `free_pages` is
--               pmm_free_pages, Pmm.Init is pmm_init. Pmm.Spec says on a list of free pages what
--               the stack of pages promises, Pmm.Interface what include/mm/pmm.h promises to
--               those who ask for single pages, and Pmm.Owners that pmm.c keeps it; Pmm.Start
--               has pmm_init with it, Pmm.Logged the allocator with its log, Pmm.Printing
--               this as an implementation of the interface; Pmm.Series has requests of
--               single pages in a row and giving them back
--   Vmm         olive/src/mm/vmm.c: the functions have the source's names. Vmm.Tree is the shape
--               of page tables that the operations keep, Vmm.Walk what the processor finds;
--               Vmm.Init is vmm_init. Vmm.Interface is include/mm/vmm.h: an address space that
--               changes by requests; Vmm.Mapper has vmm.c as its implementation, Vmm.Init.Plan
--               the requests of vmm_init's loops, Vmm.Init.Total those of vmm_init. Vmm.Changes
--               has series of vmm_map and vmm_unmap, Vmm.Stored what virt2phys finds after a
--               vmm_map, Vmm.Use both together, and Vmm.Init.Unlisted what vmm_init leaves
--               unmapped;
--               Vmm.Init.Interface is vmm_init as include/mm/vmm.h offers it;
--               Vmm.Exhausted and Vmm.Init.Starved are about tables for which no page is free;
--               Vmm.Logged and Vmm.Init.Logged have the functions with their log, Vmm.Init.Quiet
--               what the log changes, Vmm.Printing these as an implementation of the interface
--   HeapPages   olive/src/mm/liballoc/liballoc_wrappers.c: the hooks of liballoc;
--               HeapPages.Session is how liballoc calls them
--   Bytes       olive/src/lib/string.c: the memory functions; Bytes.Interface is
--               include/lib/string.h, with what it promises
--   Idt         olive/src/sys/idt.c: Idt.Gate and Idt.Init build the table, Idt.Frames has the
--               backtrace, Idt.Handle idt_handler, Idt.Exceptions the table of exceptions;
--               Idt.Registry is the registry of handlers that include/sys/idt.h offers,
--               Idt.Interface all that it declares; Idt.Print has the log calls of idt_handler
--               as formats with arguments, Idt.Numbers the numbers they have, and Idt.Printed what they
--               do on the console;
--               Idt.Logged has the other functions with their log, and Idt.Tables these as
--               the implementation of idt.h
--   Gdt         olive/src/sys/gdt.c: the descriptors, and include/sys/gdt.h; Gdt.Logged has the
--               functions with their log
--   Console     olive/src/lib/printf.c; Console.Interface is include/lib/printf.h,
--               Console.Locked has calls while the lock is taken
--   Boot        olive/src/olive.c: `olive_entry`, the order in which the parts start, with
--               Boot.Banner its prints and Boot.Logs the log of the parts; Boot.Complete is the
--               whole start up to the use of liballoc, and Boot.Hidden has the page stack
--               after it
--   Prelude     lists, Boolean tests, words and bits, shared by all; Outcome is how a call ends
--   Tests       the theorems at concrete states
--
-- How they interact. Vmm and HeapPages call Pmm and Lock and keep the allocator's state in their
-- own. A call ends as an `Outcome`: it returns, it halts in hcf (a failed ASSERT, a fatal
-- exception), it hangs on a lock, or it does what C leaves undefined. Numbers are native naturals,
-- and the 64-bit wrap-around is written out where the source computes on uint64_t.
--
-- Fuel. `push_entry`, the inner loop of pmm_init, has a round for each free slot of the stack and
-- one to notice the end; each round takes a slot, so the source's own test ends it in time.
-- `map_range`, the mapping loops of vmm_init, has a round for each page and one to notice the end;
-- a loop that takes more has wrapped around the address space, and is a hang. `trace_frames` has
-- the fuel its caller gives: on a chain of frames that ends, one for each frame is enough; a
-- cyclic chain makes the source loop for ever, and is a hang here. All other loops are recursions
-- on the number of rounds left.
--
-- Parameters. The formatter npf_vsnprintf, liballoc's kmalloc and kfree, the addresses of the
-- interrupt stubs, what a registered handler does, what a port answers and what CPUID stores are
-- arguments. Memory is a function of addresses; the page tables are reached through the direct map
-- at `_hhdm_offset`, and the memory of page tables is one of 64-bit words. Every function that logs
-- is there without its log, and in a module named Logged with it, on the console, where the log can
-- hang; in idt_handler the log calls are a list of events, which Idt.Print puts on the
-- console, and olive_entry, hcf and hlt print on the console. Log.Quiet says what it is for the log
-- to change nothing else, and has a lemma for each way to put calls together. What liballoc's calls
-- of the page allocator log is left out. Outside Cpu.Halt, hcf is the outcome `halt`; with TRACE,
-- its own log can hang first. The page tables and the page stack are reached whatever CR3 names:
-- what is said of the operations holds where the running address space has them in its direct map,
-- as the bootloader's does; after vmm_set_pm in vmm_init that of vmm.c need not, as Boot.Hidden is
-- about. Nothing is assumed of kmalloc and kfree.
--
-- Not modelled: olive/src/mm/liballoc/liballoc.c and olive/include/lib/internal/nanoprintf.h,
-- copies of other projects' libraries; olive/src/sys/idt.asm, instructions of the processor, of
-- which idt_load is what `lidt` does. The implementation's other lines are licence headers,
-- include lines and guards.
mod Prelude
pub mod Outcome
pub mod Macros
pub mod Cpu
pub mod Lock
pub mod Pmm
pub mod Vmm
pub mod HeapPages
pub mod Bytes
pub mod Idt
pub mod Ports
pub mod Console
pub mod Log
pub mod Gdt
pub mod Boot
pub mod Tests
