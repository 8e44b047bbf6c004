-- ===== src/Lib.antt =====
-- HiveRK is a research kernel for 32-bit x86: a core (queen/) that finds modules ("bees") on the disk,
-- loads them and connects them by numbers, and the modules themselves (bees/), each of which keeps a
-- block of global data and answers numbered commands. This library models modules as state machines on
-- explicit states, one function per command or handler, and proves what they do.
--
-- The files, and the code that each models:
--   Prelude    names of the libraries that all files share, C's tests on native numbers, lists, memory
--              as a total map, `&` and `|` on words (Bits), tables that evaluation decides (Tables)
--   Heap       bees/memory/memory.c: `kmalloc`, `kfree`, `bee_init`, on a map from addresses to headers
--   Util       bees/util/util.c: numbers to text in bases 10, 16 and 2, `pow`, `memcpy`, `memset`
--   Keyboard   bees/keyboard/keyboard.c: scan codes to key events, the ring of 64 events
--   Display    bees/display/display.c: the VGA text driver; Display.Print is its `print` command
--   Ports      `outb` of bees/beeUtil.h as a trace of actions, and the `pic_unmask_irq` of three modules
--   Console    the text output in bees/interrupt/basicInterrupts.h that queen/main.c repeats
--   Interrupt  bees/interrupt/itr.c: the table of gates, registered handlers, dispatch
--   Pit        bees/PIT/PIT.c: the tick count, `sleep`, the rate of the timer chip
--   Queen      queen/main.c: the table of modules, the core's allocator and the handler of all calls
--   Loader     queen/main.c: what the core reads of a module's header
--   Names      queen/main.c: the pages that list the names of the loaded modules
--   Disk       queen/main.c: the sectors, the search for the magic number, the loading of a module
--   Boot       queen/main.c: the table along the name pages, and the inits by priority
--   Main       queen/main.c: `main`, from the disk to the inits
--   Shell      queen/main.c: the control console, which `main` has under `0&&`
--   System     the interrupt, timer and keyboard modules together: registration and routing
-- Below each stand the modules named for what they prove, and Tests with runs and instances at concrete
-- inputs.
--
-- How the state corresponds: a struct is a record with the source's field names; `args[i]` of a command
-- are the arguments of its function, and what it stores through a pointer is in the result, for the caller
-- to apply: the pointer is not followed into the model's own records; memory is a
-- total map from addresses, so code may write anywhere, as in C. Numbers are natural numbers, and every
-- wrap of a C type is written out (`% 2 ^ w`); a signed `int` is its bit pattern of 32 bits. The modules
-- call one another through the core: Display.Print calls the functions of Util that the core's
-- numbers lead to, Interrupt.bee_init calls its own command 1, and System joins the whole `bee_init` of
-- Keyboard and Pit, with their registrations, to the interrupt module's state. Instructions in assembly are fields
-- (the interrupt flag), entries of a trace (`hlt`, `lidt`, port writes), or parameters (what `inb` reads).
--
-- Loops with a bound in the code are structural recursion on the rounds. The others have fuel, and a
-- result without a value is `none` or `out_of_fuel` where it runs out: Heap.heap_fuel is one more than
-- the number of units, since a block has at least one; Util.rounds is 32 since a 32-bit number has at most 32 digits, and the buffers
-- have 32 bytes; Display.Print.print has one round for each character of its format and one more;
-- Pit.sleep has the interrupts that come as its fuel; Names.add_from has one round more than the index, and
-- Main.main more rounds than there are modules; the console's loops have fuel for more rounds than the line,
-- of at most 60 characters, and the pages of names are long, and than the controller of the keyboard is busy.
--
-- Not modelled: the assembly (queen/*.asm, bees/*/*_meta.asm, bees/interrupt/isr.asm), whose addresses
-- are parameters; bees/debug.h and bees/start/start.c, which only call other modules; build files,
-- binaries and the disk format. Of queen/main.c
-- `load_bee`, which nothing calls, and `checkForControlKeys`, which `main` has under `0&&`, are not modelled;
-- nor is the loop that waits for the drive. The core's table is Queen.Nodes, a map from slots to nodes.
-- Name pages, data pages and nodes are typed parts of memory, each at its own address; what the init of a
-- module does is a parameter of Boot, as is what the drive answers of Disk. Where C leaves such a part, the
-- models say so: what the store to CORE_GLOBAL_MEMORY makes of pages that lie there is a parameter of
-- Boot.boot, and what is read of a buffer of 32 bytes that was overrun is one of Display.Print.print. A null
-- slot of the table that the word at address 0 makes a match is an unknown module here, where C follows the
-- pointer, and a command number within 7 of 2 ^ 30, modulo 2 ^ 30, has a cell of its own, where C has the
-- node's fields; the theorems exclude both. A name of 32 bytes without a 0 is printed as 32 bytes.
pub mod Prelude
pub mod Heap
pub mod Util
pub mod Keyboard
pub mod Display
pub mod Ports
pub mod Console
pub mod Interrupt
pub mod Pit
pub mod Queen
pub mod Loader
pub mod Names
pub mod Boot
pub mod Disk
pub mod Main
pub mod Shell
pub mod System
