-- ===== src/Station/Drawn.antt =====
-- What stands on the display of the station.
use quark_meteo_station.Hd44780.Memory.{Memory}
