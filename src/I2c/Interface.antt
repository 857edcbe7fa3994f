-- ===== src/I2c/Interface.antt =====
-- I2C.h: what the library offers, as BMP280.c uses it, and that I2C.c is one.
use quark_meteo_station.Base.{ℕ, ◌≡◌, refl, arith, List, inl, inr}
use quark_meteo_station.Board.{Board, Env}
use quark_meteo_station.Board.Untouched.{Silent, outputs}
use quark_meteo_station.I2c.{
  I2c, Status, status_ok, init, write, write_byte, read, read_byte, last_error,
}
use quark_meteo_station.I2c.Access.{addressed, zero_or_not}

-- The functions of the header, on the library's state. `i2c_sent` is what the device sends if a read
-- of so many bytes from a register starts here; a read whose status is all right brings it, and any
-- other leaves the caller's buffer or brings what came before the failure. No access sets
-- a level or sends anything to the modem.
pub record RegisterBus : Type 1 where
  pub State : Type 0
  pub i2c_init : ℕ → State → Board → State × Board
  pub i2c_write : List ℕ → ℕ → State → Board → State × Board
  pub i2c_write_byte : ℕ → ℕ → State → Board → State × Board
  pub i2c_read : List ℕ → ℕ → ℕ → State → Board → List ℕ × State × Board
  pub i2c_read_byte : ℕ → ℕ → State → Board → ℕ × State × Board
  pub i2c_error : State → Status
  pub i2c_sent : ℕ → ℕ → State → Board → List ℕ
  pub read-sent :
      (buf : List ℕ) (size reg_addr : ℕ) (s : State) (b : Board)
      → i2c_error (i2c_read buf size reg_addr s b).1 ≡ status_ok
      → (i2c_read buf size reg_addr s b).0 ≡ i2c_sent size reg_addr s b
  pub init-Silent : (addr : ℕ) (s : State) (b : Board) → Silent b (i2c_init addr s b).1
  pub write-Silent :
      (bytes : List ℕ) (reg_addr : ℕ) (s : State) (b : Board)
      → Silent b (i2c_write bytes reg_addr s b).1
  pub read-Silent :
      (buf : List ℕ) (size reg_addr : ℕ) (s : State) (b : Board)
      → Silent b (i2c_read buf size reg_addr s b).2

module _ (env : Env) where
  pub read-sent :
      (buf : List ℕ) (size reg_addr : ℕ) (s : I2c) (b : Board)
      → last_error (read env buf size reg_addr s b).1 ≡ status_ok
      → (read env buf size reg_addr s b).0 ≡ env.i2c_data (addressed env reg_addr s b).log size
  unfolding last_error read
  read-sent buf size reg_addr s b ok = elim (zero_or_not (env.i2c_write_result b.log)) [
    | inl e ↦ ground arith
    | inr e ↦ ground arith
  ]

  pub init-Silent : (addr : ℕ) (s : I2c) (b : Board) → Silent b (init env addr s b).1
  unfolding init outputs
  init-Silent addr s b = refl

  pub write-Silent :
      (bytes : List ℕ) (reg_addr : ℕ) (s : I2c) (b : Board)
      → Silent b (write env bytes reg_addr s b).1
  unfolding write outputs
  write-Silent bytes reg_addr s b = ground arith

  pub read-Silent :
      (buf : List ℕ) (size reg_addr : ℕ) (s : I2c) (b : Board)
      → Silent b (read env buf size reg_addr s b).2
  unfolding read outputs
  read-Silent buf size reg_addr s b = ground arith

  -- I2C.c.
  abbrev pub registers : RegisterBus
  registers = record {
    State = I2c;
    i2c_init = init env;
    i2c_write = write env;
    i2c_write_byte = write_byte env;
    i2c_read = read env;
    i2c_read_byte = read_byte env;
    i2c_error = last_error;
    i2c_sent = λ size reg_addr s b. env.i2c_data (addressed env reg_addr s b).log size;
    read-sent = read-sent;
    init-Silent = init-Silent;
    write-Silent = write-Silent;
    read-Silent = read-Silent;
  }
