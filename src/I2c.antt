-- ===== src/I2c.antt =====
-- I2C.c: register access to the one device on the I2C bus.
pub mod Access
pub mod Interface
use quark_meteo_station.Base.{
  ℕ, ◌+◌, ◌^◌, Bool, true, false, List, [], ◌∷◌, ◌==◌, if◌then◌else◌, get_or,
}
use quark_meteo_station.Board.{
  Board, Env, call, ◌▷◌, periph_enable, pmux_select, i2c_set_config, i2c_master_write,
  i2c_master_read,
}

-- `I2C_error_t`.
pub data Status : Type 0 where
  status_ok status_uninitialized status_init_failed status_write_failed status_read_failed : Status

-- The statics `error` and `slave_addr`.
pub record I2c : Type 0 where
  pub error : Status
  pub slave_addr : ℕ

abbrev pub initial : I2c
initial = record { error = status_uninitialized; slave_addr = 0 }

-- `I2C_error`.
unfoldable pub last_error : I2c → Status
last_error s = s.error

-- `CLK_PERIPH_CLK | CLK_PERIPH_I2C_M0_REGISTER`. `QM_PIN_6_FN_I2C0_SCL` and
-- `QM_PIN_7_FN_I2C0_SDA` are the pins' function 2.
abbrev pub clk_i2c : ℕ
clk_i2c = 2 ^ 1 + 2 ^ 19

module _ (env : Env) where
  unfoldable pub init : ℕ → I2c → Board → I2c × Board
  unfolding call
  init dev_addr s b =
      let addressed = record s { slave_addr = dev_addr } in
      let b' = b ▷ call (periph_enable clk_i2c) ▷ call (pmux_select 6 2) ▷ call (pmux_select 7 2) in
      let failed =
        (if env.i2c_config_result b'.log == 0
          then addressed
          else record addressed { error = status_init_failed }) in
      (record failed { error = status_ok }, call i2c_set_config b')

  -- A write call of the package: whether it failed.
  unfoldable pub master_write : ℕ → List ℕ → Bool → Board → Bool × Board
  unfolding call
  master_write addr bytes stop b = (
    (if env.i2c_write_result b.log == 0 then false else true),
    call (i2c_master_write addr bytes stop) b,
  )

  -- A read call: whether it failed, and what it put into the buffer.
  unfoldable pub master_read : ℕ → ℕ → Bool → Board → Bool × List ℕ × Board
  unfolding call
  master_read addr size stop b = (
    (if env.i2c_read_result b.log == 0 then false else true),
    env.i2c_data b.log size,
    call (i2c_master_read addr size stop) b,
  )

  unfoldable pub write : List ℕ → ℕ → I2c → Board → I2c × Board
  unfolding master_write
  write bytes reg_addr s b =
      let (failed, b') = master_write s.slave_addr (reg_addr ∷ []) false b in
      elim failed [
        | true ↦ (record s { error = status_write_failed }, b')
        | false ↦
            let (failed', b'') = master_write s.slave_addr bytes true b' in
            (record s { error = if failed' then status_write_failed else status_ok }, b'')
      ]

  unfoldable pub write_byte : ℕ → ℕ → I2c → Board → I2c × Board
  unfolding write
  write_byte byte reg_addr s b = write (byte ∷ []) reg_addr s b

  -- `buf` is what the caller's buffer holds before; the first result is what it holds after.
  unfoldable pub read : List ℕ → ℕ → ℕ → I2c → Board → List ℕ × I2c × Board
  unfolding master_write master_read
  read buf size reg_addr s b =
      let (failed, b') = master_write s.slave_addr (reg_addr ∷ []) false b in
      elim failed [
        | true ↦ (buf, record s { error = status_write_failed }, b')
        | false ↦
            let (failed', buf', b'') = master_read s.slave_addr size true b' in
            (buf', record s { error = if failed' then status_read_failed else status_ok }, b'')
      ]

  -- `junk` is what the uninitialised local `byte` holds.
  unfoldable pub read_byte : ℕ → ℕ → I2c → Board → ℕ × I2c × Board
  unfolding read
  read_byte junk reg_addr s b =
      let (buf, s', b') = read (junk ∷ []) 1 reg_addr s b in (get_or buf 0 junk, s', b')
