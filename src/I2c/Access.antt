-- ===== src/I2c/Access.antt =====
-- What an access to a register tells its caller, for every outcome of the two transfers.
use mathlib.Core.Logic.{◌↔◌}
use quark_meteo_station.Base.{
  ℕ, ◌≡◌, ◌≢◌, ◌⊎◌, inl, inr, refl, arith, true, false, List, [], ◌∷◌, ◌==◌, if◌then◌else◌,
}
use quark_meteo_station.Board.{Board, Env, call, i2c_master_write, i2c_master_read}
use quark_meteo_station.I2c.{I2c, status_ok, status_write_failed, init, write, read}

pub zero_or_not : (n : ℕ) → (n ≡ 0) ⊎ (n ≢ 0)
zero_or_not n = ground arith

module _ (env : Env) where
  -- The board after the register's number was sent.
  abbrev pub addressed : ℕ → I2c → Board → Board
  addressed reg_addr s b = call (i2c_master_write s.slave_addr (reg_addr ∷ []) false) b

  -- A register read says that it is all right exactly if both transfers were, and that the write
  -- failed exactly if the first transfer did. The caller's buffer holds what the device sent, and
  -- the second transfer was tried, if the first was all right; else both are as before. The device's
  -- address stays.
  pub read-outcome :
      (buf : List ℕ) (size reg_addr : ℕ) (s : I2c) (b : Board)
      → let r = read env buf size reg_addr s b in
        let first = env.i2c_write_result b.log in
        let b₁ = addressed reg_addr s b in
        let second = env.i2c_read_result b₁.log in
        ((r.1.error ≡ status_ok) ↔ ((first ≡ 0) × (second ≡ 0)))
        × ((r.1.error ≡ status_write_failed) ↔ (first ≢ 0))
        × (r.0 ≡ (if first == 0 then env.i2c_data b₁.log size else buf))
        × (r.2 ≡ (if first == 0 then call (i2c_master_read s.slave_addr size true) b₁ else b₁))
        × (r.1.slave_addr ≡ s.slave_addr)
  unfolding read
  read-outcome buf size reg_addr s b = elim (zero_or_not (env.i2c_write_result b.log)) [
    | inl e ↦ (ground arith, ground arith, ground arith, ground arith, ground arith)
    | inr e ↦ (ground arith, ground arith, ground arith, ground arith, ground arith)
  ]

  -- A register write says that it is all right exactly if both transfers were; the second, with
  -- the bytes and the stop condition, is tried exactly if the first was all right.
  pub write-outcome :
      (bytes : List ℕ) (reg_addr : ℕ) (s : I2c) (b : Board)
      → let r = write env bytes reg_addr s b in
        let first = env.i2c_write_result b.log in
        let b₁ = addressed reg_addr s b in
        let second = env.i2c_write_result b₁.log in
        ((r.0.error ≡ status_ok) ↔ ((first ≡ 0) × (second ≡ 0)))
        × (r.1 ≡ (if first == 0 then call (i2c_master_write s.slave_addr bytes true) b₁ else b₁))
        × (r.0.slave_addr ≡ s.slave_addr)
  unfolding write
  write-outcome bytes reg_addr s b = elim (zero_or_not (env.i2c_write_result b.log)) [
    | inl e ↦ (ground arith, ground arith, ground arith)
    | inr e ↦ (ground arith, ground arith, ground arith)
  ]

  -- Whatever the controller's configuration returned, and whatever the status was: after `I2C_init`
  -- the status is that all is right.
  pub init-error : (addr : ℕ) (s : I2c) (b : Board) → (init env addr s b).0.error ≡ status_ok
  unfolding init
  init-error addr s b = refl
