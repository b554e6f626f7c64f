-- ===== src/Native.antt =====
-- firmware/src/spi_cmd.c: the commands of the native mode, by which the console's own software uses
-- the MCU, with what they call of spi.c and mcu.c. A command is 16 bits: seven of a number, nine
-- of an argument. The numbers and the layouts of two answers stand in a header of libnile,
-- which is not in the repository: they are the parameter `Protocol`.
pub mod State
pub mod Command
pub mod Laws
pub mod Tests
