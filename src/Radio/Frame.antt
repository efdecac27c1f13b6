-- ===== src/Radio/Frame.antt =====
-- crates/mesh-radio/src/frame.rs: the frames that pass between the radio and the router. A byte is
-- only moved, so it is any number; an array of fixed size is a list of that length.
mod Tests
use meshrustic.Base.{
  ℕ, ◌-◌, ◌≤◌, ◌≡◌, Option, none, some, List, ◌++◌, length, replicate, take, leb, ltb,
  if◌then◌else◌, arith, length-append, length-replicate, take-append_length,
}

abbrev pub max_lora_payload : ℕ
max_lora_payload = 255

abbrev pub packet_header_len : ℕ
packet_header_len = 16

pub record RxFrame : Type 0 where
  pub radio_id : ℕ
  pub rssi : ℕ
  pub snr : ℕ
  pub len : ℕ
  pub bytes : List ℕ

pub record TxFrame : Type 0 where
  pub radio_id : ℕ
  pub len : ℕ
  pub bytes : List ℕ

-- `RxFrame::empty`. The signed fields `rssi` and `snr` are their bit patterns.
abbrev pub empty_rx : ℕ → RxFrame
empty_rx radio_id = record {
  radio_id = radio_id;
  rssi = 0;
  snr = 0;
  len = 0;
  bytes = replicate max_lora_payload 0;
}

pub rx_payload : RxFrame → List ℕ
rx_payload f = take f.len f.bytes

pub rx_header : RxFrame → Option (List ℕ)
rx_header f = if leb packet_header_len f.len then some (take packet_header_len f.bytes) else none

pub new_tx : ℕ → List ℕ → Option TxFrame
new_tx radio_id bytes =
    if ltb max_lora_payload (length bytes)
    then none
    else some (record {
      radio_id = radio_id;
      len = length bytes;
      bytes = bytes ++ replicate (max_lora_payload - length bytes) 0;
    })

pub tx_payload : TxFrame → List ℕ
tx_payload f = take f.len f.bytes

-- A frame is built exactly for data that fits a LoRa packet; it carries its radio, the data as its
-- payload, and a full array of bytes.
pub tx_payload-new_tx :
    (radio_id : ℕ) (bytes : List ℕ) {f : TxFrame}
    → new_tx radio_id bytes ≡ some f
    → (length bytes ≤ max_lora_payload)
      × (tx_payload f ≡ bytes)
      × (f.radio_id ≡ radio_id)
      × (length f.bytes ≡ max_lora_payload)
unfolding new_tx tx_payload
tx_payload-new_tx radio_id bytes e = ground (
  arith,
  take-append_length bytes (replicate (max_lora_payload - length bytes) 0),
  length-append bytes (replicate (max_lora_payload - length bytes) 0),
  length-replicate {A = ℕ} (max_lora_payload - length bytes) 0,
)
