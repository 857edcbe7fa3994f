-- ===== src/Station/Period.antt =====
-- The rhythm of main.c where every timer interrupt is followed by one round of the loop, as on the
-- station, where a round takes less than the timer's second.
use quark_meteo_station.Base.{
  ℕ, zero, suc, ◌-◌, ◌%◌, ◌<◌, ◌≡◌, ◌↔◌, refl, ap, ◌∙◌, arith, some, ltb, ◌==◌, if◌then◌else◌,
}
use quark_meteo_station.Station.{
  ReadoutState, idle, await_for_connection, send_data, up_to_date, Control, Machine, Parts,
  timer_callback, loop_body,
}
use quark_meteo_station.Station.Cycle.{toggled, round, loop_body-round}

-- The timer interrupts, and the loop makes a round.
abbrev pub second : Control → Control
second c = round (timer_callback c)

-- The control state so many seconds after one in which everything is at its start: 3590 seconds of
-- counting, the last of which connects, nine of waiting, and one that sends.
abbrev pub state_at : ReadoutState → ℕ → Control
state_at s t = record {
  update_state = up_to_date;
  esp_state = if ltb t 3590 then idle else if ltb t 3599 then await_for_connection else send_data;
  server_update_counter = if ltb t 3590 then t else 0;
  await_counter = if ltb t 3590 then 0 else if ltb t 3599 then t - 3590 else 0;
  ds18b20_state = if t % 2 == 0 then s else toggled s;
}

pub second-state_at :
    (s : ReadoutState) (t : ℕ) → t < 3599 → second (state_at s t) ≡ state_at s (suc t)
unfolding timer_callback
second-state_at s t h = ground arith

pub second-last : (s : ReadoutState) → second (state_at s 3599) ≡ state_at s 0
unfolding timer_callback
second-last s = ground arith

-- So many seconds.
unfoldable pub seconds : ℕ → Control → Control
seconds zero c = c
seconds (suc t) c = second (seconds t c)

-- The control state that is idle with its counters at 0 becomes, in less than 3600 seconds, the one
-- that the table tells: idle for 3590 seconds, waiting for the connection for nine, about to send in
-- the last.
pub seconds-state_at :
    (s : ReadoutState) (t : ℕ) → t < 3600 → seconds t (state_at s 0) ≡ state_at s t
unfolding seconds
seconds-state_at s zero h = refl
seconds-state_at s (suc t) h =
    ap second (seconds-state_at s t (omega arith)) ∙ second-state_at s t (omega arith)

-- Where each interrupt is followed by a round that moves the control state by the diagram, the period
-- is exactly the 3600 seconds of `SERVER_UPDATE_PERIOD`: that long after it was idle with its counters
-- at 0 the station is so again, with the readout of the outdoor sensor where it was; and a second
-- before that, and at no other second between, it is about to send.
pub seconds-period :
    (s : ReadoutState) (t : ℕ)
    → t < 3600
    → (seconds 3600 (state_at s 0) ≡ state_at s 0)
      × (((seconds t (state_at s 0)).esp_state ≡ send_data) ↔ (t ≡ 3599))
seconds-period s t h =
    let last : seconds 3600 (state_at s 0) ≡ state_at s 0 =
      unfold seconds in ap second (seconds-state_at s 3599 (omega arith)) ∙ second-last s in
    (last, rw (seconds-state_at s t h) (ground arith))

module _ (parts : Parts) where
  -- So many seconds of the station.
  pub data Ran : ℕ → Machine → Machine → Type 0 where
    now : {m : Machine} → Ran zero m m
    later :
        {t : ℕ} {m m₁ m₂ : Machine}
        → Ran t m m₁
        → loop_body parts (record m₁ { control = timer_callback m₁.control }) ≡ some m₂
        → Ran (suc t) m m₂

  -- A station that starts idle with its counters at 0 and runs for less than 3600 seconds, each of
  -- them an interrupt and a round that ends, is in the control state that the table tells, whatever its
  -- sensors, its display and its modem do.
  pub Ran-state_at :
      (s : ReadoutState) (t : ℕ) {m m' : Machine}
      → t < 3600
      → m.control ≡ state_at s 0
      → Ran t m m'
      → m'.control ≡ state_at s t
  Ran-state_at s zero h e now = e
  Ran-state_at s (suc t) h e (later r step) =
      let before = Ran-state_at s t (omega arith) e r in
      let after = loop_body-round parts _ step in
      let next = second-state_at s t (omega arith) in cc (before, after, next)
