-- ===== src/Lib.antt =====
-- The weather station on the Intel Quark D2000 board: the program's own files, at the root of the
-- repository.
--
-- Parts. main.c sets up the board and then loops: at each request of the timer's interrupt (timer.c,
-- one a second) a round reads the outdoor sensor (DS18B20.c over onewire.c, every second round), the
-- indoor sensor (BMP280.c over I2C.c) and the humidity sensor (DHT11.c), updates the averages
-- (average.c), steps the state machine of the transmission (ESP.c), and draws the measurements
-- (GUI.c over HD44780.c and utoa.c).
--
-- Interfaces. Each library's header is a record of its functions and of the laws on them that its
-- clients use: Onewire.Interface.Bus (onewire.h, used by Ds18b20), I2c.Interface.RegisterBus (I2C.h,
-- by Bmp280), Hd44780.Interface.Display (HD44780.h, by Gui), and, used by Station,
-- Ds18b20.Interface.OutdoorSensor, Dht11.Interface.HumiditySensor, Bmp280.Interface.IndoorSensor,
-- Average.Interface.Averaging, Gui.Interface.Screen, Esp.Interface.Modem and
-- Timer.Interface.PeriodicTimer. The same module fills the record with the functions of the C file.
-- `Station.Parts` collects those that the loop of main.c uses, and `Station.Firmware.firmware` are
-- the program's. Board.Untouched says that a call sets no level, which is all that the display sees,
-- and sends no text, which is all that the modem sees.
--
-- Files. Board models the calls into the board support package under bsp, which is not modelled: a
-- call is an entry of a log, what it returns is a parameter (`Env`) that may depend on the log, and
-- of the shared `gpio_config` the direction word is kept. Board.Pins has the pins of main.c.
--   Onewire        onewire.c    a function for each onewire_* function; the loops over the bits are
--                               structural. Slave, Write and Read are the two sides of a device;
--                               Drive is about the pin.
--   Ds18b20        DS18B20.c    `decode` is the part behind the transfer. Decode, Transfer.
--   Dht11          DHT11.c      the static data_frame is passed along. Frame, Reading, Bounded.
--   I2c            I2C.c        the statics are a record. Access.
--   Bmp280         BMP280.c     the compensation works on 32-bit patterns. Flags, Layout, Registers;
--                               Exact has the temperature's formula on integers, Accuracy the exact
--                               quadratic one.
--   Average        average.c    the sums are a record, and the pointers are functions that read and
--                               write a memory `M`. Running, Outdoor and Humidity have the means,
--                               Order the bag of measurements, Counts how many they are, Sums
--                               the three sums together, Mild what fits a transmission.
--   Utoa           utoa.c       a buffer is a list of bytes. Decimal, Reverse, Convert.
--   Hd44780        HD44780.c    the configuration is a parameter. Flags; Bus has the controller of
--                               the display, Memory its cells; Cursor, Integer, Glyph.
--   Gui            GUI.c        the pointers read a memory. Layout has the messages of an update, Cells
--                               what then stands on the display, Stale what it leaves there; Labels
--                               is about what the start of the screen draws once.
--   Esp            ESP.c        a C string is the list before its NUL. Text, Fits.
--   Timer          timer.c      the callback is a function on the state that it changes. Count.
--   Station        main.c       `Control` has the statics and counters, `Measurements` the variables
--                               that the pointers lead to, `Devices` everything else;
--                               `timer_callback` is the interrupt, `loop_body` a round. Cycle,
--                               Period, Counts and Safety are about any parts; Firmware has the
--                               program's, Boot the start, Lines the directions of the pins; Progress
--                               and Runs follow a round part by part, Sends the one that sends, Ready
--                               the first hour, Mild and Fitting what the rounds of every hour keep,
--                               Transmissions what they send, Rounds that each returns, Table the
--                               control state of each second, and Endless that they go on; Drawn is
--                               the display. Logbook is what the station has to report, from the
--                               readings of its sensors alone; Averaged and Noted are a round
--                               against it and Reports the whole run. Interrupts
--                               has the round in steps between which the interrupt may come;
--                               Interrupts.Lost follows one that comes too late for a round of its own.
--   Base           numbers, integers, lists and bits that the parts share; Word.Signed is
--                               about the patterns of integers, Int.Near about their distances.
--   Tests          the theorems at concrete inputs.
--
-- Choices. Machine integers are the native numbers with their wrap-around written out. `none` is
-- undefined behaviour of two kinds, a write past a buffer and a division by 0; a signed sum or
-- negation that overflows, which is undefined too, wraps around as two's complement does. The loop
-- of `utoa` has fuel for ten digits, which is enough for 32 bits; the swaps of `strrev` have fuel
-- for the length of the string; the waiting loop of DHT11.c has its own timeout for fuel.
-- `loop_body` is a whole round, and the timer's interrupt comes between two of them;
-- `Interrupts.step` is one of the thirteen steps of a round, and the interrupt comes between any
-- two of these, not within one: not within a call of another module, and not within what the state
-- that waits for the connection does to its counter and the state. What an uninitialised or static
-- buffer holds is a parameter.
--
-- Not modelled: the package under bsp, the time that instructions take, the 8-bit mode that the
-- display has before its start (its controller reads half bytes throughout), its glyphs beyond the
-- messages that it is sent, the server.
pub mod Base
pub mod Board
pub mod Onewire
pub mod Ds18b20
pub mod Utoa
pub mod Hd44780
pub mod Dht11
pub mod I2c
pub mod Bmp280
pub mod Average
pub mod Gui
pub mod Esp
pub mod Timer
pub mod Station
pub mod Tests
