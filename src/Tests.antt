-- ===== src/Tests.antt =====
-- The theorems at concrete states: what their hypotheses ask for can hold.
pub mod Pages
pub mod Tables
pub mod Interrupts
pub mod Basics
pub mod Start
pub mod Space
