-- ===== src/Lib.antt =====
-- libmeminfo, libdmabufinfo, libmemevents, libsmapinfo and libelf64: the libraries of this repository
-- that read the memory usage of processes and of the whole system from the kernel's text files, listen
-- to its memory events, print tables of processes, libraries and mappings, and parse ELF files. The C++
-- is modelled as functions on values: a file is its bytes (`none` where it cannot be opened), a line is
-- a list of bytes, a uint64_t is a number with the reduction modulo 2 ^ 64 written out. An object is a
-- record that its methods return changed. Logging is left out.
--
-- Parameters stand for what is not in the repository: libprocinfo's parser of a line of
-- /proc/<pid>/maps (`MapParser`), libbase (`AndroidBase`, `Affixes`), libbpf (`Bpf`), the kernel's tables
-- of page frames (`Kernel`), the layout of the structs of elf.h (`Layout`), pread64 on the page map (`PagemapFile`), the BPF map of GPU memory (`GpuMap`)
-- and floating point arithmetic. What libsmapinfo reads of the machine, with libbase and std::sort, is the
-- record `Machine`; the one hypothesis on it is `Permutes`, that std::sort permutes its range.
--
-- - Common, Text: lists, words and tests; strtoull, strncmp, strstr, getline and isspace.
-- - ProcMem (procmeminfo.cpp, include/meminfo/meminfo.h, include/meminfo/procmeminfo.h):
--   ProcMem.Usage is MemUsage and Vma; ProcMem.SmapsField is parse_smaps_field; ProcMem.VmaScan is
--   ForEachVmaFromFile, which the others call with their callbacks; ProcMem.Rollup is
--   SmapsOrRollupFromFile and its kin; ProcMem.Escape is the output escaping; ProcMem.Pagemap is
--   ReadVmaStats, which asks PageAcct about each page; ProcMem.Process is the class ProcMemInfo over
--   all of these.
-- - PageAcct (pageacct.cpp, include/meminfo/pageacct.h): the descriptors of the kernel's tables.
-- - Heaps (androidprocheaps.cpp): Heaps.Names is the classification of a mapping by its name, Heaps the
--   array of statistics, filled by a callback of ForEachVmaFromFile.
-- - Dmabuf (libdmabufinfo/): Dmabuf is the class DmaBuffer, Dmabuf.Procfs dmabufinfo.cpp, Dmabuf.Sysfs
--   dmabuf_sysfs_stats.cpp, which dmabufinfo.cpp asks for exporters and sizes.
-- - MemEvents (libmemevents/memevents.cpp and its headers): the class MemEventListener.
-- - SysMem (sysmeminfo.cpp, include/meminfo/sysmeminfo.h): SysMem.MemInfo is the parser of /proc/meminfo,
--   SysMem.Zram the zram devices, SysMem.Gpu the GPU memory, SysMem the other sizes.
-- - SmapInfo (libsmapinfo/processrecord.cpp, libsmapinfo/smapinfo.cpp and their headers): SmapInfo.Record is
--   the class ProcessRecord, built over ProcMem.Process; SmapInfo.Procrank, SmapInfo.Librank and
--   SmapInfo.Showmap are the namespaces of these names with run_procrank, run_librank and run_showmap, and
--   their children Print the text that these print; SmapInfo.Bugreport is run_bugreport_procdump, which
--   runs the three over one map of records. The static variables of showmap are options and state that is passed on. CalculateSwap
--   returns no record where the C++ would divide by zero or read out of bounds, and run_bugreport_procdump no
--   result where it would go on with an iterator that it has invalidated.
-- - Elf64 (libelf64/parse.cpp, libelf64/iter.cpp): Elf64.Headers has the structs of elf.h, Elf64 the stream,
--   the parser, which changes an object of its caller, and the scan of a directory; a function returns a value, returns false, throws, or ends in
--   what C++ leaves undefined.
-- - Examples: runs on concrete inputs.
--
-- Loops over lines, entries and pages are structural recursion. Two loops have a bound of rounds: that
-- over the zram devices has the 256 of the source, and that of ReadMemInfo has the length of the buffer
-- (at most 4095 bytes), of which each round passes over a byte (SysMem.Termination). A number is printed
-- with at most 20 decimal or 16 hexadecimal digits, which a uint64_t does not need more of.
--
-- Not modelled: the tools, which parse options and print; the BPF programs, which run in the kernel; tests
-- and benchmarks; MemBpfRingbuf, a wrapper of libbpf; ResetWorkingSet, which writes one file; the messages
-- that libsmapinfo writes to its error stream; the times that a bug report prints; what a failed parse of an
-- ELF file leaves in the caller's object.
pub mod Common
pub mod Text
pub mod ProcMem
pub mod PageAcct
pub mod MemEvents
pub mod Dmabuf
pub mod Heaps
pub mod SmapInfo
pub mod Elf64
pub mod SysMem
pub mod Examples
