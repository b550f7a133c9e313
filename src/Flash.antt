-- ===== src/Flash.antt =====
-- flash_ubi_jffs2.c and flash_ext4.c: the functions that write the images.
pub mod Written
pub mod Tools
pub mod Mtd
pub mod Vid
pub mod Nfi
pub mod Loop
pub mod Ext4
pub mod Dispatch
