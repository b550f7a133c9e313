-- ===== src/Lib.antt =====
-- A model of ofgwrite, which flashes an image of Enigma2 (a kernel and a root file system) to the
-- flash or the disk of a set-top box, mostly to the one that it runs from.
--
-- The program's run and the files that model its parts:
--   * `read_args` of ofgwrite.c reads the options and calls `find_image_files`, which looks for the
--     files of the image in a directory: Args.antt and ImageFiles.antt.
--   * `read_mtd_file` of ofgwrite.c looks for the kernel's and the rootfs's device in /proc/mtd:
--     ProcMtd.antt.
--   * `find_kernel_rootfs_device` of ofgwrite.c reads /proc/cmdline by `readProcCmdline`, which hands
--     the partition table to cmdline_parser.c; then it asks fdisk, and applies what the user says. It
--     decides whether Enigma2 has to be stopped: Cmdline.antt, Partitions.antt and Select.antt.
--   * `check_e2_stopped` of ofgwrite.c waits until Enigma2 has ended: EnigmaStop.antt.
--   * `readProcMounts` of ofgwrite.c finds the type of the rootfs, where the image lies, and what is
--     to be unmounted: Mounts.antt. `check_device_size` compares the files with the block devices:
--     Sizes.antt.
--   * `kernel_flash` and `rootfs_flash` of ofgwrite.c choose the way to flash: Flash/Dispatch.antt.
--     The ways are those of flash_ext4.c (Flash/Ext4.antt) and of flash_ubi_jffs2.c: the tools for
--     MTD devices (Flash/Mtd.antt, Flash/Tools.antt), and a UBI image that is mounted by a loop
--     device and copied to a directory (Flash/Loop.antt, with the search for the VID header in
--     Flash/Vid.antt and the extraction of an NFI image in Flash/Nfi.antt).
--   * `main` of ofgwrite.c puts these together. Up to the checks in front of the flashing it only reads:
--     Prepare.antt. Behind them (Main.antt) it kills processes, and where the running image is to be
--     overwritten it leaves the terminal by `daemonize` and moves the running system to /newroot by
--     `umount_rootfs`: Takeover.antt. Then it flashes the rootfs and the kernel, and on Android boxes
--     (Main/Android.antt) it writes boot images by `generate_boot_image`: BootImage.antt.
--   * fb.c shows the progress. What is painted is a list of places in the framebuffer's memory:
--     Screen.antt (pages and boxes), Screen/Window.antt (the window and its two bars), Screen/Text.antt
--     (the characters, with the table of font.h in Screen/Font.antt). The functions work on a display,
--     which is the globals of fb.c, and ask a driver: Screen/Device.antt (opening, mode, mapping and
--     closing), Screen/Shown.antt (texts and progress) and Screen/Session.antt (`init_framebuffer`,
--     `show_main_window`, and runs of the functions that the other files call). A write outside of the
--     mapping and a division by zero are faults: the function then has no result. Protocol.antt has
--     the order in which the functions of fb.c may be called and the texts that fit; the files below
--     it follow the calls of `main`, and Protocol/Replay.antt carries them out on a display.
--   * `ReadProcEntry` of ofgwrite.c reads the name of the box: ProcEntry.antt. `readProcCmdline` takes
--     the name as an argument.
-- A definition has the name of the C function that it models, in this language's spelling
-- (`readProcCmdline` is `read_proc_cmdline`); helpers are pieces of the function that the comment
-- above them names. The child modules of a file hold its theorems; pieces of long functions are in
-- Takeover/Files.antt (what is copied to the new root), in Main/Shown.antt (the lists of calls
-- between the steps of `main`) and in Main/Android.antt. Tests holds runs at concrete inputs.
--
-- State: the globals of ofgwrite.c are the records `Options`, `Images`, `Devices` and `Boot` of
-- State.antt, by the function that writes them, and are passed on and returned; `Setup` of
-- Prepare.antt holds them when the flashing starts. Strings are lists of bytes without the final zero
-- (Base/Text.antt models the string functions of C). What the functions ask of the system, of
-- busybox's and mtd-utils' `*_main` functions and of the framebuffer is recorded in a trace of calls,
-- and an environment answers each call from the trace before it (Base/Calls.antt); statements hold for every
-- environment. What a tool itself shows, as flashcp does with its progress, is not in the trace.
-- `umount_rootfs` and `main` are lists of steps, each of which goes on or ends the function with a
-- result (`run_steps`); Base/Steps.antt has the rule for them.
--
-- Bounds: `unsigned long` has 32 bits in Flash/Nfi.antt, and `int` and `unsigned int` have 32 bits in
-- Screen.antt and its child modules; there the wrap-around is written out. Other numbers are not
-- bounded. Fuel: `copy_pages` has one round more than there are bytes left, and each round that goes
-- on reads at least one byte; `find_rootfs` has one round for each byte of the file, and each reads
-- four; `wait_for_e2` has 36 rounds, and 35 are the most that 70 seconds at 2 seconds each allow;
-- `decimal n` has n + 1 rounds, and n has at most that many digits.
--
-- Not modelled: the sizes of the C buffers, but for the one of `ReadProcEntry`; `my_printf` and
-- `printUsage`, which only print; busybox and mtd-utils, of which the repository has copies.
-- Busybox's tar ends a failing run by calling `handle_busybox_fatal_error`, which is modelled in
-- Main.antt, but not as an end of `main`: statements on `main` are about its other runs.
-- getopt_long, realpath, readdir, stat, fdisk, libmtd and the digest of OpenSSL are arguments of the
-- definitions that use them.
pub mod Base
pub mod State
pub mod Partitions
pub mod Cmdline
pub mod ProcEntry
pub mod Select
pub mod ProcMtd
pub mod ImageFiles
pub mod Args
pub mod Mounts
pub mod Sizes
pub mod Takeover
pub mod BootImage
pub mod Main
pub mod Prepare
pub mod Screen
pub mod Flash
pub mod EnigmaStop
pub mod Protocol
mod Tests
