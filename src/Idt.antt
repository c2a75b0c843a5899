-- ===== src/Idt.antt =====
-- olive/src/sys/idt.c and olive/include/sys/idt.h: the interrupt descriptor table, the IRQ
-- handlers, and `idt_handler`, to which every interrupt goes. The address of each stub,
-- `isr_table` of olive/src/sys/idt.asm, is a parameter; so is what a registered handler does to
-- the saved registers.
pub mod Dispatch
pub mod Registry
pub mod Exceptions
pub mod Frames
pub mod Gate
pub mod Handle
pub mod Init
pub mod Logged
pub mod Interface
pub mod Tables
pub mod Print
pub mod Numbers
pub mod Printed
