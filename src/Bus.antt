-- ===== src/Bus.antt =====
-- include/hardware_driver/bus/bus_interface.hpp: the packets that drivers and buses exchange.
-- `std::array<uint8_t, 64>` is a list of 64 numbers; its field `data` is `payload` here.
use hardware_driver.Base.{ℕ, String, List, [], ◌∷◌, Bool, true, false, length, ◌≡◌, ◌≤◌}

pub data BusProtocolType : Type 0 where
  unknown can can_fd ethercat : BusProtocolType

abbrev pub max_bus_data_size : ℕ
max_bus_data_size = 64

pub record GenericBusPacket : Type 0 where
  pub interface : String
  pub id : ℕ
  pub payload : List ℕ
  pub len : ℕ
  pub protocol_type : BusProtocolType

-- The default constructor leaves the bytes as the storage holds them: `raw`. The callers then
-- assign the interface and the id.
abbrev pub new_packet : List ℕ → String → ℕ → GenericBusPacket
new_packet raw interface id = record {
  interface = interface;
  id = id;
  payload = raw;
  len = 0;
  protocol_type = BusProtocolType.unknown;
}

-- What a packing function leaves in its two output arguments, and its result.
pub record Pack : Type 0 where
  pub bytes : List ℕ
  pub size : ℕ
  pub packed : Bool

-- `f(packet.data, packet.len, ...)`
abbrev pub fill : GenericBusPacket → Pack → GenericBusPacket
fill p k = record p { payload = k.bytes; len = k.size }

-- A packet as the type says: 64 bytes of storage, of which `len` are in use.
pub record IsPacket (p : GenericBusPacket) : Type 0 where
  pub storage : length p.payload ≡ max_bus_data_size
  pub within : p.len ≤ max_bus_data_size

-- What `BusInterface::send` does with a packet: it returns true or false, or throws.
pub data SendResult : Type 0 where
  sent refused thrown : SendResult

-- Packets handed to `send` in turn, up to the first exception: those handed over, and whether an
-- exception stopped the row.
unfoldable pub send_all :
    (GenericBusPacket → SendResult) → List GenericBusPacket → List GenericBusPacket × Bool
send_all send [] = ([], false)
send_all send (p ∷ ps) =
    let (rest, threw) = send_all send ps in
    elim (send p) [
      | SendResult.sent ↦ (p ∷ rest, threw)
      | SendResult.refused ↦ (p ∷ rest, threw)
      | SendResult.thrown ↦ (p ∷ [], true)
    ]

-- A copy that would run past the end of its target is undefined behaviour: `overrun`.
pub data Outcome {ℓ} (A : Type ℓ) : Type ℓ where
  done : A → Outcome A
  overrun : Outcome A
