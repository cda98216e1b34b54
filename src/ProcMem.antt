-- ===== src/ProcMem.antt =====
-- procmeminfo.cpp: memory accounting of one process.
pub mod Usage
pub mod SmapsField
pub mod VmaScan
pub mod Rollup
pub mod Escape
pub mod Pagemap
pub mod Process
