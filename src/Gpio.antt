-- ===== src/Gpio.antt =====
-- The pins by sysfs, src/hal/gpio/gpio_sysfs.c: the files of a pin, and the map of the pins in use.
pub mod Files
pub mod Pins
pub mod Clearing
pub mod Unmapping
pub mod Modes
pub mod Writing
