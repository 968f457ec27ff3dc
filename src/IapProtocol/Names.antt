-- ===== src/IapProtocol/Names.antt =====
-- src/protocol/iap_protocol.cpp: names and codes of the messages agree.
use Prim.Native.Char.{code}
use Prim.Native.String.{String}
use hardware_driver.Base.{ℕ, ◌+◌, ◌*◌, ◌^◌, ◌<◌, ◌≡◌, ◌≢◌, refl, List, [], ◌∷◌, some, arith, ◌++◌}
use hardware_driver.Bus.{GenericBusPacket}
use hardware_driver.IapProtocol.{IapStatus, parse_iap_feedback, iap_status_to_string}

abbrev codes : String → List ℕ
codes String.[] = []
codes (String.◌∷◌ c s) = code c ∷ codes s

-- A device that sends the four letters of a status's name, under an id whose second byte is 0xFF, is
-- understood as that status of the motor in the id's low byte, whatever follows the letters.
parse_iap_feedback-iap_status_to_string :
    (s : IapStatus) (p : GenericBusPacket) (high m : ℕ) (rest : List ℕ)
    → ((c : ℕ) → s ≢ IapStatus.other c)
    → m < 256
    → p.id ≡ high * 2 ^ 16 + 0xFF00 + m
    → p.payload ≡ codes (iap_status_to_string s) ++ rest
    → parse_iap_feedback p ≡ some (record { status_msg = s; motor_id = m })
unfolding parse_iap_feedback iap_status_to_string
parse_iap_feedback-iap_status_to_string IapStatus.bs00 p high m rest n hm e d = ground arith
parse_iap_feedback-iap_status_to_string (IapStatus.other c) p high m rest n hm e d =
    absurd (n c refl)
parse_iap_feedback-iap_status_to_string _ p high m rest n hm e d = ground arith
