-- ===== src/Ports/Interface.antt =====
-- olive/include/dev/serial.h as drivers see it: port I/O of three widths, with the functions of
-- olive/src/dev/serial.c as its implementation.
use fwp_athix.Prelude.{ℕ, ◌^◌, ◌<◌, ◌≡◌, refl, arith, List, [], ◌∷◌, ◌++◌, u8, u16, u32}
use fwp_athix.Ports.{
  Access, inb_of, outb_of, inw_of, outw_of, inl_of, outl_of, Bus, Device, inb, outb, inw, outw, inl,
  outl,
}

-- A state that remembers its accesses, the oldest first. Each function makes one access, on the
-- port and with the value that it was given, cut to their widths, and a read returns what the
-- access read.
pub record PortIo : Type 1 where
  pub State : Type 0
  pub history : State → List Access
  pub inb : ℕ → State → ℕ × State
  pub outb : ℕ → ℕ → State → State
  pub inw : ℕ → State → ℕ × State
  pub outw : ℕ → ℕ → State → State
  pub inl : ℕ → State → ℕ × State
  pub outl : ℕ → ℕ → State → State
  pub inb_reads :
      (port : ℕ) (s : State)
      → ((inb port s).0 < 2 ^ 8)
        × (history (inb port s).1 ≡ history s ++ (inb_of (u16 port) (inb port s).0 ∷ []))
  pub inw_reads :
      (port : ℕ) (s : State)
      → ((inw port s).0 < 2 ^ 16)
        × (history (inw port s).1 ≡ history s ++ (inw_of (u16 port) (inw port s).0 ∷ []))
  pub inl_reads :
      (port : ℕ) (s : State)
      → ((inl port s).0 < 2 ^ 32)
        × (history (inl port s).1 ≡ history s ++ (inl_of (u16 port) (inl port s).0 ∷ []))
  pub outb_writes :
      (port value : ℕ) (s : State)
      → history (outb port value s) ≡ history s ++ (outb_of (u16 port) (u8 value) ∷ [])
  pub outw_writes :
      (port value : ℕ) (s : State)
      → history (outw port value s) ≡ history s ++ (outw_of (u16 port) (u16 value) ∷ [])
  pub outl_writes :
      (port value : ℕ) (s : State)
      → history (outl port value s) ≡ history s ++ (outl_of (u16 port) (u32 value) ∷ [])

-- The functions of serial.c on a bus, with what the devices answer.
unfoldable pub serial : Device → PortIo
unfolding inb outb inw outw inl outl
serial device = record {
  State = Bus;
  history = λ bus. bus;
  inb = inb device;
  outb = outb;
  inw = inw device;
  outw = outw;
  inl = inl device;
  outl = outl;
  inb_reads = λ port s. (omega arith, refl);
  inw_reads = λ port s. (omega arith, refl);
  inl_reads = λ port s. (omega arith, refl);
  outb_writes = λ port value s. refl;
  outw_writes = λ port value s. refl;
  outl_writes = λ port value s. refl;
}
