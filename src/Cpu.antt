-- ===== src/Cpu.antt =====
-- olive/src/sys/cpu.c: `get_cpuid`. What the CPUID instruction stores for a leaf is a parameter.
-- `hcf` and `hlt` of that file are `halt` of Outcome.antt.
pub mod Halt
use fwp_athix.Prelude.{ℕ}

pub record Registers : Type 0 where
  pub eax : ℕ
  pub ebx : ℕ
  pub ecx : ℕ
  pub edx : ℕ

abbrev pub get_cpuid : (ℕ → Registers) → ℕ → ℕ × Registers
get_cpuid cpuid leaf = (0, cpuid leaf)
