-- ===== src/Lib.antt =====
-- The register access and the table of boards of the upciedev driver and the search of its
-- documentation.
--
-- upciedev is the Linux kernel driver that the drivers of MicroTCA boards share. A user reads and
-- writes the registers of a board through a device file; pciedev_rw_exp.c and pciedev_ioctl_exp.c
-- decode the request, take the mutex dev_mut and call the two inline functions of
-- read_write_inline.h, which go through the registers one by one. When the kernel finds a board,
-- pciedev_probe_exp binds it to an entry of the table of boards and reads what the board says of
-- itself; pciedev_remove_exp takes it away and hands its open files to the null device. The
-- repository also holds the documentation that doxygen made of the driver, with the script that
-- searches it, Doc/html/search/search.js.
--
-- Kernel        the kernel's ioread*, iowrite*, copy_to_user and copy_from_user: parameters
-- Device        struct pciedev_dev of pciedev_ufn.h, the fields that register access uses
-- Registers     the codes, sizes and byte order of pciedev_io.h
-- Access        read_write_inline.h: Read_Write_Private, pciedev_check_scratch,
--               pciedev_read_inline, pciedev_write_inline, one definition each, with the loops'
--               rounds and local variables; its children hold the proofs
-- DocSearch     search.js. Text: convertToId and the string functions; Rows: Search of a results
--               page; Keys: NavNext, NavPrev, ProcessKeys, Nav, NavChild; Box: the SearchBox,
--               its handlers and timers; Results: createResults and
--               FindChildElement; Index: the files of searchData beside it, one list
--               each, and the pages that load them
-- DeviceFile    pciedev_rw_exp.c: read, write and seek of the device file, with the mutex
--               dev_mut; Ioctl, Vector and Settings: commands of
--               pciedev_ioctl_exp.c
-- BoardInfo     pciedev_ufn.c: what a board says of itself; Board: pciedev_get_brdinfo; Prj and
--               Modules: the headers of projects and modules, which their links lead through
-- Boards        the table of boards: Init, Files (open and release), Probe, Remove, as
--               pciedev_ufn.c, pciedev_probe_exp.c and pciedev_remove_exp.c have them; Steps: the
--               calls that the kernel makes and the states they lead to; Ioctl: the reports of a
--               board and the switch of pciedev_ioctl_exp.c; Mmap, Interrupts and Queries: mappings,
--               interrupt lines and the access functions of pciedev_ufn.c; Cleanup: the end; the others hold proofs
-- CritRegion    criticalregionlock.c: the lock that replaces the mutex with USE_SEMAPHORE; System: the
--               steps of the processes; Phase: who has the lock; Exclusion, LongLock and Rounds:
--               what follows from it
-- Prelude       shared names, tests, lists and the bits of a number
-- Examples      concrete devices, pages and search boxes
--
-- State. A device is a record; arrays are lists, an index outside of them ends a function as
-- `undefined`, as C does, and an address of 0 is the null pointer. The world, that is the device's
-- registers and the user's memory, is a type that Kernel leaves open; its functions pass it on. The
-- table of boards is a record (Driver) that each operation returns anew; a pointer to a board is
-- its index in the table, the null device being the last, and what the kernel keeps of files and
-- devices is a map. A returned number below 0 is one of the error codes. A u32 is a number whose
-- arithmetic is written out modulo 2 ^ 32. What an uninitialised variable holds is an argument,
-- `junk`. The order of memory accesses that smp_wmb and smp_rmb enforce is that of the calls. A
-- page of results is a list of rows, the search box a record with what it reads and writes of the
-- document; a handler that throws keeps what it has done so far. Strings are lists of char codes.
--
-- Loops. The loops over registers count down the served number of registers. NavNext runs on one
-- unit of fuel more than there are rows (`nav_next-IsNext`), and its loop tells the end of the fuel
-- from its own end; NavPrev goes down by the index; the search for the last child has one unit more
-- than there are children. A char code has at most four hexadecimal digits. The walk of
-- FindChildElement runs on as many rounds as the tree has nodes. The chains of project and module
-- headers run on fuel, which a cyclic chain uses up whatever it is; a chain that ends needs one
-- unit more than it has headers (`get_prjinfo-Projects`). The loops over boards, BARs and files go
-- through their lists.
--
-- Not modelled. toLowerCase is that of ASCII, and what `escape`, `unescape` and the kernel do is a
-- parameter. Positions on the screen (getXPos, getYPos) and the target frames of links are left
-- out, as are messages to the kernel's log. The int that ioctl returns is not cut to 32 bits. Of
-- the driver, the entries under /proc and the numbers of device files are not modelled. The device
-- file and the boards have the mutex that the driver has without USE_SEMAPHORE; CritRegion is the
-- lock that it has with it. Reads and writes between two calls see one processor: a call that waits
-- for a mutex is the value `blocked`. The lists of project and module headers always get the memory
-- that they ask for. Doc/html/jquery.js is a copy of another project's library, and the pages that
-- doxygen made hold no code.
pub mod Prelude
pub mod Registers
pub mod Kernel
pub mod Device
pub mod Access
pub mod CritRegion
pub mod DeviceFile
pub mod BoardInfo
pub mod Boards
pub mod DocSearch
mod Examples
