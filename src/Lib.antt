-- ===== src/Lib.antt =====
-- A verification library for the kernel of AHK.
--
-- The program is a small 32-bit kernel. The library models its memory management, its text screen, its
-- IDE driver, its descriptor tables and interrupts, its file system calls and its start, and tools
-- for FAT12 and initrd images, as functions on explicit state.
--
--   Memory                the bytes behind the kernel's pointers; 32-bit words are little endian, at
--                         any address
--   OrderedArray          ordered_array.c and ordered_array.h: an array that insertion keeps sorted.
--                         Its slots are a list, and an access out of range is a fault;
--                         create_ordered_array is in Kheap.Alloc, as it calls kmalloc
--   Kernel                the state that paging.c and kheap.c share: the global variables of both,
--                         the page tables, the heap_t behind the pointer kheap
--   Paging                paging.c and paging.h: the bitset of frames (set_frame, clear_frame,
--                         test_frame, first_frame), alloc_frame, free_frame, and get_page on the
--                         kernel's directory
--   Kheap                 kheap.c and kheap.h: expand and contract (Kheap.Resize), the search for a
--                         hole and the cutting of a block (Kheap.Holes), alloc, the kmalloc family and
--                         create_heap (Kheap.Alloc), free and kfree (Kheap.Free)
--   Monitor               monitor.c: the screen, the cursor, monitor_put and the printing of numbers
--   Common                common.c: strcmp, memcpy and memset (Common.Bytes), strcpy (Common.Copies),
--                         and what panic and panic_assert print (Common.Panic)
--   Ide                   ide.c and ide.h: the constants of ide.h (Ide.Constants), the registers and
--                         polling (Ide.Registers), ide_ata_access (Ide.Address, Ide.Transfer), the
--                         sector operations, ide_print_error and ata_get_drive_by_model (Ide.Sectors),
--                         its messages (Ide.Messages), the transfer of buffers and the wait for an
--                         interrupt (Ide.Buffers), and ide_init and ata_init (Ide.Identify, Ide.Init)
--   Descriptors           descriptor_tables.c and descriptor_tables.h: the gates of the GDT and the IDT
--   Interrupts            isr.c and isr.h, timer.c, and the handler page_fault of paging.c; also
--                         init_descriptor_tables, which clears the table of handlers
--   Fat12                 tools/fat/fat.c: reading a file of a FAT12 image
--   Files                 fs.c and fs.h, vfs.c and vfs.h (Files.Disk), and readSectors of fat.c
--                         (Files.Fat)
--   Boot                  initialise_paging of paging.c, and main.c (Boot.Entry)
--   Initrd                tools/initrd/initrdcreator.c, which makes the image of a list of files, and
--                         tools/initrd/viewinitrd.c, which shows one (Initrd.View)
--   Base                  results, lists, words, bits and Boolean tests that the others share
--   Tests                 concrete inputs
--
-- kheap.c keeps its index of holes as an ordered array of headers, compared by the sizes that the
-- headers hold in memory, and maps the pages of a growing heap with get_page and alloc_frame; get_page
-- calls kmalloc_ap for a new table, and so the heap again. The theorems on the heap describe it as a
-- list of blocks, used ones and holes, that tile the space from its start to its end
-- (Kheap.Blocks, Kheap.Invariant). initialise_paging maps the kernel and the heap's first pages and
-- calls create_heap (Boot.Booted); each later alloc works on the heap that it leaves (Kheap.Sequences).
--
-- A function of the source that can fail returns a Result: `panic` is a failed ASSERT, `fault` an
-- access or a result that C leaves undefined, `out_of_fuel` a bound of the model. Addresses and sizes
-- are natural numbers, and u32 arithmetic keeps its wrap-around (add32, sub32). C's precedence is kept
-- where the source leans on it: `x & 0xFFFFF000 != 0` is `x & 1`.
--
-- alloc runs on fuel for its recursion after growth; a call that finds a hole takes one unit, which is
-- what the theorem on alloc gives. The identity mapping of initialise_paging runs on fuel, one unit for
-- each page up to the end of what is placed; 769 are enough for a kernel below 0x2F0000. The loops of
-- expand and contract have one round for each page of the address space. All other loops run on the
-- rounds that are left.
--
-- The IDE driver prints through the monitor and compares names with strcmp. The ports of the machine
-- are a parameter, the record Ide.Ports: what a read returns and how each access changes the hardware.
-- The waits of the driver run on fuel, as nothing in the code bounds them; a drive that is ready needs
-- one unit for each wait (Ide.Words, Ide.Drive and Ide.Store say what such a drive promises: the registers
-- that it takes, the commands that make it send or take words, and that it keeps what is written).
--
-- An interrupt is a call of isr_handler or irq_handler with its number; a sequence of them is a list of
-- numbers (Interrupts.Sequences). The timer prints through the monitor. A FAT12 image is a list of
-- bytes, read by fread and fseek as the C standard describes them; the chain of a file's clusters is
-- followed on fuel, one unit for each cluster.
--
-- The array of the heap's index is kept beside the byte memory, as it lies below the space of the
-- blocks; the page tables are kept by their address in the same way. Not modelled: assembly and
-- port access, switch_page_directory, strcat (C leaves its loop undefined), initialise_disk of vfs.c
-- (it has no body), and multiboot.h (nothing uses it). strlen, which the repository calls but does not
-- define, is a parameter.
pub mod Base
pub mod Memory
pub mod OrderedArray
pub mod Kernel
pub mod Paging
pub mod Kheap
pub mod Monitor
pub mod Common
pub mod Ide
pub mod Descriptors
pub mod Interrupts
pub mod Fat12
pub mod Files
pub mod Boot
pub mod Initrd
pub mod Tests
