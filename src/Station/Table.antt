-- ===== src/Station/Table.antt =====
-- The table of the control states of main.c for the seconds of every hour: what each second asks for.
use native.Mathlib.Decide.{dec_lt}
use quark_meteo_station.Base.{
  ℕ, suc, ◌%◌, leb, ◌<◌, ◌≡◌, ◌≢◌, ◌⊎◌, refl, ap, ◌∙◌, arith, List, inl, inr,
}
use quark_meteo_station.Station.{
  ReadoutState, TransmissionState, idle, connect_to_server, await_for_connection, send_data,
  timer_callback,
}
use quark_meteo_station.Station.Period.{state_at, second, second-state_at, second-last}
use quark_meteo_station.Station.Transmissions.{is_connected, sends}
use quark_meteo_station.Station.Runs.{timer_callback-quiet}
use quark_meteo_station.Base.{List, ◌∷◌, ◌==◌, false, true, if◌then◌else◌}
use quark_meteo_station.Esp.{Report}

pub last_cases : (u : ℕ) → u < 3600 → (u < 3599) ⊎ (u ≡ 3599)
last_cases u h = elim (dec_lt u 3599) [ yes p ↦ inl p | no p ↦ inr (omega arith) ]

-- The table goes round.
pub second-next :
    (s : ReadoutState) (u : ℕ) → u < 3600 → second (state_at s u) ≡ state_at s (suc u % 3600)
second-next s u h = elim (last_cases u h) [
  | inl before ↦ let e : suc u % 3600 ≡ suc u = omega arith in rw e (second-state_at s u before)
  | inr last ↦ rw last (second-last s)
]

pub next-lem : (t : ℕ) → suc (t % 3600) % 3600 ≡ suc t % 3600
next-lem t = omega arith

pub sends-last : (s : ReadoutState) → (timer_callback (state_at s 3599)).esp_state ≡ send_data
unfolding timer_callback
sends-last s = ground arith

sends-kept :
    (s : TransmissionState) (m : Report) (rs : List Report) → s ≢ send_data → sends s m rs ≡ rs
sends-kept idle m rs ne = refl
sends-kept connect_to_server m rs ne = refl
sends-kept await_for_connection m rs ne = refl
sends-kept send_data m rs ne = absurd (ne refl)

-- The interrupt asks for no connection itself.
pub timer_callback-is_connected :
    (s : ReadoutState) (u : ℕ)
    → u < 3600
    → is_connected (timer_callback (state_at s u)).esp_state ≡ is_connected (state_at s u).esp_state
unfolding timer_callback
timer_callback-is_connected s u h = ground arith

-- The connection has been asked for in the last ten seconds of the hour.
pub connected-at : (s : ReadoutState) (u : ℕ) → is_connected (state_at s u).esp_state ≡ leb 3590 u
connected-at s u = ground arith

-- What a second reports: the interrupt asks for a connection at most.
pub next-sends :
    (s : ReadoutState) (t : ℕ) (m : Report) (rs : List Report)
    → sends (timer_callback (state_at s (t % 3600))).esp_state m rs
      ≡ (if suc t % 3600 == 0 then m ∷ rs else rs)
next-sends s t m rs = elim (last_cases (t % 3600) (omega arith)) [
  | inl before ↦
      let more : (suc t % 3600 == 0) ≡ false = ground arith in
      rw more (sends-kept _ m rs (timer_callback-quiet s (t % 3600) before))
  | inr last ↦
      let due : (suc t % 3600 == 0) ≡ true = ground arith in
      let is = ap (λ u. (timer_callback (state_at s u)).esp_state) last ∙ sends-last s in
      rw (due, is) refl
]
