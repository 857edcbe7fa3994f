-- ===== src/Board/Untouched.antt =====
-- What a part of the program leaves alone of the board: the levels that `qm_gpio_set_pin_state` gave
-- the pins, which are all that the display sees, and the texts that `qm_uart_write_buffer` sent, which
-- are all that the modem sees.
use quark_meteo_station.Base.{ℕ, ◌≡◌, refl, sym, ap, ◌∙◌, List, [], ◌∷◌}
use quark_meteo_station.Board.{Board, Call, gpio_set_pin_state, uart_write_buffer}

-- The calls of a log that set a level.
unfoldable pub levels_set : List Call → List Call
levels_set [] = []
levels_set (gpio_set_pin_state p high ∷ older) = gpio_set_pin_state p high ∷ levels_set older
levels_set (c ∷ older) = levels_set older

-- The texts of a log that were sent to the modem, the newest first.
unfoldable pub sent : List Call → List (List ℕ)
sent [] = []
sent (uart_write_buffer text ∷ older) = text ∷ sent older
sent (c ∷ older) = sent older

-- The calls of both kinds.
unfoldable pub outputs : List Call → List Call
outputs [] = []
outputs (gpio_set_pin_state p high ∷ older) = gpio_set_pin_state p high ∷ outputs older
outputs (uart_write_buffer text ∷ older) = uart_write_buffer text ∷ outputs older
outputs (c ∷ older) = outputs older

-- From the first board to the second no level was set.
abbrev pub Untouched : Board → Board → Type 0
Untouched b b' = levels_set b'.log ≡ levels_set b.log

-- Nothing was sent to the modem.
abbrev pub Quiet : Board → Board → Type 0
Quiet b b' = sent b'.log ≡ sent b.log

-- Neither.
abbrev pub Silent : Board → Board → Type 0
Silent b b' = outputs b'.log ≡ outputs b.log

levels_set-outputs : (l : List Call) → levels_set (outputs l) ≡ levels_set l
unfolding levels_set outputs
levels_set-outputs [] = refl
levels_set-outputs (gpio_set_pin_state p high ∷ older) =
    ap (λ l. gpio_set_pin_state p high ∷ l) (levels_set-outputs older)
levels_set-outputs (c ∷ older) = levels_set-outputs older

sent-outputs : (l : List Call) → sent (outputs l) ≡ sent l
unfolding sent outputs
sent-outputs [] = refl
sent-outputs (uart_write_buffer text ∷ older) = ap (λ l. text ∷ l) (sent-outputs older)
sent-outputs (c ∷ older) = sent-outputs older

pub Silent-Untouched : (b b' : Board) → Silent b b' → Untouched b b'
Silent-Untouched b b' s =
    sym (levels_set-outputs b'.log) ∙ ap levels_set s ∙ levels_set-outputs b.log

pub Silent-Quiet : (b b' : Board) → Silent b b' → Quiet b b'
Silent-Quiet b b' s = sym (sent-outputs b'.log) ∙ ap sent s ∙ sent-outputs b.log
