-- ===== src/Ports.antt =====
-- olive/src/dev/serial.c and olive/include/dev/serial.h: the processor's I/O ports. A bus is the
-- history of the accesses to it; what a port answers is a parameter, a function of that history.
pub mod Interface
use fwp_athix.Prelude.{ℕ, List, [], ◌∷◌, ◌++◌, u8, u16, u32}

-- One access: the port, and the value that was read or written.
pub data Access : Type 0 where
  inb_of : ℕ → ℕ → Access
  outb_of : ℕ → ℕ → Access
  inw_of : ℕ → ℕ → Access
  outw_of : ℕ → ℕ → Access
  inl_of : ℕ → ℕ → Access
  outl_of : ℕ → ℕ → Access

abbrev pub Bus : Type 0
Bus = List Access

-- The answer to an access of some number of bytes to a port.
abbrev pub Device : Type 0
Device = Bus → ℕ → ℕ → ℕ

unfoldable pub inb : Device → ℕ → Bus → ℕ × Bus
inb device port bus =
    let result = u8 (device bus 1 (u16 port)) in (result, bus ++ (inb_of (u16 port) result ∷ []))

unfoldable pub outb : ℕ → ℕ → Bus → Bus
outb port value bus = bus ++ (outb_of (u16 port) (u8 value) ∷ [])

unfoldable pub inw : Device → ℕ → Bus → ℕ × Bus
inw device port bus =
    let result = u16 (device bus 2 (u16 port)) in (result, bus ++ (inw_of (u16 port) result ∷ []))

unfoldable pub outw : ℕ → ℕ → Bus → Bus
outw port value bus = bus ++ (outw_of (u16 port) (u16 value) ∷ [])

unfoldable pub inl : Device → ℕ → Bus → ℕ × Bus
inl device port bus =
    let result = u32 (device bus 4 (u16 port)) in (result, bus ++ (inl_of (u16 port) result ∷ []))

unfoldable pub outl : ℕ → ℕ → Bus → Bus
outl port value bus = bus ++ (outl_of (u16 port) (u32 value) ∷ [])
