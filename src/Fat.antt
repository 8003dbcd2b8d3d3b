-- ===== src/Fat.antt =====
-- kernel/drivers/filesystem/fat: entries of the file allocation table (util.c and the inline
-- functions of fat.h), over a block device that is a parameter.
pub mod Block
pub mod Volume
pub mod Nibbles
pub mod Bytes
pub mod Read12
pub mod Write12
pub mod Held12
pub mod Entry12
pub mod Entry16
mod Tests
