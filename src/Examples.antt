-- ===== src/Examples.antt =====
-- Runs of the models on concrete inputs, and uses of their theorems there.
pub mod Smaps
pub mod Pages
pub mod System
pub mod Tables
pub mod Libraries
pub mod Elf
pub mod Events
