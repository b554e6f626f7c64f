-- ===== src/Lib.antt =====
-- nileswan: the firmware of the MCU on the cartridge, and programs that run on the console.
--
-- The cartridge's MCU answers the console over SPI. It plays three devices there, one at a time:
-- a native command interface, the serial EEPROM of a game cartridge and the S-3511A clock. An
-- interrupt register tells the console of the alarm and of the memory card, and a memory that
-- outlives a reset keeps the EEPROM's words and the save ID. The MCU also has a USB port, which the
-- console's software uses through native commands, and an accelerometer; its own clock follows
-- what the SPI bus and USB need.
--
-- On the console's side, the boot loader (IPL1) tests the memories, or loads the menu file from the
-- memory card to the end of the PSRAM. The updater reads a manifest of commands from its own image
-- and runs it twice: once to check that everything can be unpacked, and once to write the flash
-- memory and the MCU. The recovery program is a tree of menus over tests and repairs; it shares the
-- reading of the keys with the updater.
--
-- The files, by the part of the program (paths from the repository's root):
--   Base      shared names; tests into Bool, C words, arrays as lists, and the laws of masks
--             (Base.Bits, Base.Bits.Words)
--   Nvram     firmware/src/nvram.h and `nvram_retention_required` of nvram.c
--   Eeprom    firmware/src/eeprom.c, a function for each of its functions, over a record of its
--             static variables, the NVRAM and the BUSY line; `nvram_init` of nvram.c.
--             Eeprom.Device is an independent description of the M93LCx6 chip, whose lock covers an
--             erase-all too, as in fpga/rtl/eeprom.sv; the firmware's erase-all ignores it.
--   Irq       the interrupt register of firmware/src/spi.c
--   Rtc       firmware/src/rtc.c: State (registers and access modes), Hour (conversions of the
--             hour), Alarm (interrupt handler and alarm modes), Status, Calendar (dates and times)
--             and Command (the S-3511A's commands)
--   Usb       the USB power state machine and `mcu_shutdown` of firmware/src/mcu.c
--   Clock     `mcu_update_clock_speed` of mcu.c: the choice of a speed and the steps to it
--   Accel     firmware/src/accel.c: the interrupt handlers, the double buffer, the polling timer
--   Hid       `hid_send_update` of firmware/src/hid.c
--   Native    firmware/src/spi_cmd.c: State (what the commands reach, with the operations of mcu.c
--             and spi.c that they call), Command (`spi_native_start_command_rx`,
--             `spi_native_finish_command_rx` and the frame of an answer, of `mcu_spi_dma_finish`)
--   Spi       firmware/src/spi.c in the native mode: bytes on the bus, the interrupt handlers, the
--             main loop's `mcu_spi_task`, over an interface (Handler) that Spi.Native fills with
--             the native commands; Spi.Clock is the mode of the clock, with the BUSY line, and
--             Spi.Console the output to the USB console
--   Power     `EXTI2_3_IRQHandler`, `EXTI4_15_IRQHandler` and `__mcu_bat_on_power_change` of mcu.c
--   Strings   the string descriptors of firmware/src/usb_descriptors.c and the digits of cdc.c
--   Boot      `load_menu` and `update_progress` of software/ipl1/src/boot/main.c
--   Safe      software/ipl1/src/safe/main.c: `load_spi_flash`; Menu has `run_menu`, the choices of
--             `main`, `try_boot_rom` and `run_manufacturing_test`, Menu.Reach what choices lead to
--   MemTest   the lines of software/ipl1/src/safe/mem_test.c, over the wiring of a memory; Quick is
--             `mem_test_run_quick_v2`
--   Crc       software/userland/src/updater/crc16.s
--   Updater   software/userland/src/updater: Command (manifest.h, and how a command is read), Flash
--             and Mcu (the commands that write), Run (`run_update_manifest`), Start (`main`). The
--             laws are apart: Verify (the first pass), Second and Devices, Contents (what is in the
--             flash memory), Ends, Encode, and Start.Laws; Bytes has lemmas on buffers
--   Input     software/userland/src/shared/input.c; Wait has the loops that wait for keys
--   Menu      `menu_run` of software/userland/src/recovery/menu.c; Tree has the menus of
--             recovery/main.c with what an option calls, Mfg the manufacturing test; Laws, Nested and
--             Bounds are about them
--   Recovery  the operations and tests that the menus call, software/userland/src/recovery, over an
--             interface to libnile and FatFs (Platform): McuSetup and Dump are ops/mcu_setup.c,
--             TfCard ops/tf_card.c, Memory tests/memory.c with `test_mcu_save_id` of tests/mcu.c,
--             run on the commands of Native by Memory.Firmware, and Button tests/button.c
--   Console   software/userland/src/shared/console.c, as the list of what it does to the tiles and to
--             the ports; Print is `console_print`, Loop a rule for its loop, Text and Order what it
--             draws and sends, Lines what the display shows, Columns where it draws
--   Vwf8      software/userland/src/shared/vwf8.c: the widths of texts, and the bits of a character
--
-- State is passed explicitly: an operation takes the record of its component and returns the new
-- one. The records nest as the parts do: Native.State.Mcu holds the EEPROM with the NVRAM, the
-- clock with the interrupt register, the accelerometer, the USB port and the MCU's own clock. A C
-- integer is a natural number, with the wrap-around of a store written out as a remainder; `a & b`,
-- `a | b`, `a ^ b` are the library's bitwise functions where an operand is variable, and fields of a
-- word by division where the mask is a constant. A read or write that leaves an array has no
-- result (`none`). What the hardware decides is an argument: whether an oscillator starts, what a
-- reset leaves in the backup domain, what later reads of a ticking register see (a list), the pins
-- of the battery, the scans of the keys. In the firmware no loop needs fuel: the loops over the
-- EEPROM's mask count down a number, and the loop that rereads the clock's registers runs along the
-- list of what it sees. The loops that wait for a key run along the scans to come.
--
-- An error that ends the updater is a value (Updater.Outcome), as are a read past the manifest
-- (`overrun`) and a loop that has used up its fuel (`stuck`). The fuel is what the code's bounds
-- allow: 17 sectors and 256 pages for a part of less than 64 KiB, 512 blocks for the MCU's, one
-- round for each byte of the manifest, and 256 banks for the menu file. The loops of load_spi_flash
-- have a turn for each bank that is asked for, and no success where they are not at their end then;
-- where more are asked for than there are, they make no turn. In the recovery program a
-- step that fails has no result, and the state comes back (Recovery.Action); its loops have 512
-- blocks of 128 bytes for a firmware, whose size has 16 bits, 2048 and 16384 for the two dumps, and
-- 512 blocks for a bank of RAM. console_print has one round for each character and one more for the
-- break of a line in front of it, which Console.Loop shows to be enough.
--
-- Parameters stand for code that is not in the repository: the command numbers and two layouts of
-- libnile's header (Native.State.Protocol), TinyUSB's functions over a state of their own
-- (Native.State.Stack), the numbers of its hat directions, libnile's flash and boot loader calls and
-- the decompressor of libws (Updater.Hardware), FatFs (Boot.Disk), and the flash memory and the cells
-- of the PSRAM that load_spi_flash copies between (Safe.Memories), libnile, FatFs and the
-- decompressor as the recovery program calls them (Recovery.Platform, Recovery.Memory.McuClient), and
-- the generated font.
--
-- The build option CONFIG_FULL_EEPROM_EMULATION is an argument (`full`), so its two builds are
-- both covered, and CONFIG_ENABLE_CLOCK_MSI_USB is one of the choice of a speed.
-- CONFIG_ENABLE_CLOCK_LSE and CONFIG_ENABLE_ADC are taken as set, the debug options as not set.
--
-- Not modelled: the set-up of clocks, pins, DMA channels and interrupt priorities, which calls the
-- vendor's headers and returns nothing; the USB descriptors other than strings; what the programs
-- print by formats, their palettes and their sounds; of the recovery program the operations that only
-- print what a library answers, and the tests of the FPGA, of USB and of the clock; the deep memory
-- test, the IPC buffer test and the screen of the safe mode; the start-up of the boot loader; the
-- assembly of IPL0 and IPL1; the FPGA.
pub mod Base
pub mod Accel
pub mod Boot
pub mod Clock
pub mod Console
pub mod Crc
pub mod Eeprom
pub mod Hid
pub mod Input
pub mod Irq
pub mod MemTest
pub mod Menu
pub mod Native
pub mod Nvram
pub mod Power
pub mod Recovery
pub mod Rtc
pub mod Safe
pub mod Spi
pub mod Strings
pub mod Updater
pub mod Usb
pub mod Vwf8
