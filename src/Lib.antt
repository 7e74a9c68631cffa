-- ===== src/Lib.antt =====
-- The radios of KNoT: the communication stack over the nRF24L01 chip, as src/hal/comm/comm_nrf24l01.c
-- implements hal/comm.h in the build for Linux with five peers, the driver of the chip below it, and the
-- daemon src/nrfd/manager.c above it; the driver src/lora/sx127x.c of the LoRa chip, with its pins; and
-- the serial daemon src/seriald/manager.c. A gateway and its things share a radio. On the management
-- channel a thing announces itself and a gateway connects it; on the data channel up to five peers
-- exchange messages in packets of 32 bytes. Every call of the sockets makes one step of `running`,
-- which takes turns between the two channels. The daemon keeps the devices that may connect, answers
-- their presence, and passes their messages on to knotd; the serial daemon does so for a thing on a line.
--
-- Prelude: lists, bytes, tests and signed results that the parts share.
-- Clock: `get_time` and `hal_timeout` of src/hal/time/time_linux.c.
-- Link: the packets of src/hal/comm/nrf24l01_ll.h and the events of hal/nrf24.h as bytes in memory.
-- Comm.State: the file's static variables as one record `Hal`, with the peers as a list of five.
-- Comm.Run: what the stack calls (phy_open, phy_read and the like of src/drivers/phy_driver.c, the clock,
--   the bytes of an uninitialised payload) as a record `Platform` over a world of its own, and the
--   functions as state passing. An access outside of an object is a fault and ends the run.
-- Comm.Pipes: `alloc_pipe`, `new_raw_time` and the bitmask. Comm.Control: `write_disconnect`,
--   `write_keepalive`, `check_keepalive`. Comm.Mgmt: `read_mgmt`, `write_mgmt`. Comm.Raw: `read_raw`,
--   `write_raw`. Comm.Beacon: `presence_connect`. Comm.Scheduler: `running`. Comm.Socket: the functions
--   of hal/comm.h. A part of a C function with a name of its own, such as `receive_data`, is one
--   definition.
-- Comm.Invariant: what holds between the calls, what is asked of an open driver, the packets that overrun
--   a buffer, and the proofs. A driver that is closed has no entry in the table of phy_driver.c, so
--   nothing is asked of calls with its index, and the theorems keep to open ones.
-- Phy: the table of drivers and its reference counts, src/drivers/phy_driver.c.
-- Chip: the chip. Chip.Board has what src/nrf24l01/nrf24l01.c calls as a record `Board`, and its static
--   variables with the world as the state `Radio`. Chip.Access, Setup, Pipes, Transmit and Receive are
--   that file; Chip.Driver is src/drivers/phy_driver_nrf24.c; Chip.Spi and Chip.Linux are
--   src/spi/spi_linux.c and src/nrf24l01/nrf24l01_io_linux.c, which make a `Board`. The other modules are
--   proofs, most of them on a chip whose configuration registers hold what is written
--   (Chip.Registers), some with its CE pin and its address of pipe 0 (Chip.Hearing).
-- Nrfd: the daemon. Nrfd.State has its static variables and, as a record `Services`, what it calls:
--   json-c, GLib, the sockets, hal/comm.h. Nrfd.Devices, Properties, Clients, Config, Radio, Start and
--   Bus are src/nrfd/manager.c. Nrfd.Run has its main loop as steps between states; the others are
--   proofs.
-- Gpio: src/hal/gpio/gpio_sysfs.c. Gpio.Files has its static functions over the system's files as a record
--   `Sysfs`, and Gpio.Pins the functions of hal/gpio_sysfs.h with `gpio_map`. The others are proofs.
-- Lora: the LoRa chip. Lora.State has what src/lora/sx127x.c calls as a record `Wires`, with `LMIC` and
--   `randbuf`; Lora.Access, Modem, Transmit, Receive and Driver are that file, in the build for the
--   SX1272 that sx127x.h selects. Lora.Linux is src/lora/sx127x_hal_linux.c, which makes a `Wires` of the
--   pins, the SPI bus and the clock. Lora.Chip says what the data sheet promises of the registers in LoRa
--   mode (`IsSx1272`), Lora.Accesses what the accesses then do; the others are proofs.
-- Serial: the daemon src/seriald/manager.c, which passes messages between a serial line and knotd, in
--   Serial.Manager, and the line, src/hal/comm/comm_serial_linux.c, in Serial.Line. Serial.State has what
--   they call as a record `Host`. A `char` is unsigned. The others are proofs.
-- Tests, ChipTests, NrfdTests, GpioTests, LoraTests, SerialTests: a small radio, a chip of registers, a
--   system for the daemon, a board of pins, a LoRa chip, a serial line, some states, and the theorems at
--   them.
--
-- The loop of `read_raw` runs on fuel: each round takes a packet from the driver, so more fuel than
-- packets is enough. The loop of `write_raw` sends a byte at least in a round, so its fuel is the
-- length. The wait of `nrf24l01_ptx_wait_datasent` has one unit of fuel for each reading of the status;
-- it is enough once the chip tells the end within so many readings. `hal_gpio_digital_write` has one unit
-- for each call of itself, and two are enough if the pin can be made an output; the loop that clears the
-- file of a pin has one for each round, and so have the waits of the LoRa driver for its receiver and
-- for its noise, and the serial daemon's reading of the rest of a message. `uint8_t` members are written
-- with `% 256` where the code counts, and the length of a data packet wraps at 2 ^ 32, the `size_t` of
-- the Raspberry Pi. Members that the code only assigns keep the value assigned.
--
-- Not modelled: the formats of `sscanf` and `sprintf` behind the addresses, the debug prints, the build
-- for Arduino with one peer, the main functions with their options, the build of the LoRa driver for the
-- SX1276, the storage, which passes bytes to a key file, the sniffer and the Arduino parts. The state
-- stands for one thread, as the code does.
pub mod Prelude
pub mod Clock
pub mod Link
pub mod Chip
pub mod Comm
pub mod Nrfd
pub mod Gpio
pub mod Lora
pub mod Serial
pub mod Phy
pub mod Tests
pub mod ChipTests
pub mod NrfdTests
pub mod GpioTests
pub mod LoraTests
pub mod SerialTests
