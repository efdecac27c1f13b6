-- ===== src/Radio/Frame/Tests.antt =====
-- Runs of the frame constructors at concrete inputs.
use meshrustic.Base.{◌≡◌, refl, none, ◌∷◌, replicate}
use meshrustic.Radio.Frame.{TxFrame, empty_rx, new_tx, rx_header}

abbrev two_bytes : TxFrame
two_bytes = record { radio_id = 1; len = 2; bytes = 8 ∷ 9 ∷ replicate 253 0 }

too_long : new_tx 0 (replicate 256 7) ≡ none
unfolding new_tx
too_long = refl

no_header : rx_header (record (empty_rx 0) { len = 15 }) ≡ none
unfolding rx_header
no_header = refl
