-- ===== src/MotorProtocol/Pack/Decode.antt =====
-- src/protocol/motor_protocol.cpp: what a motor that reads the packed control frames finds.
use hardware_driver.Base.{
  ℕ, zero, suc, ◌+◌, ◌*◌, ◌/◌, ◌%◌, ◌^◌, ◌≤◌, ◌<◌, ◌≡◌, refl, ◌∙◌, List, [], ◌∷◌, Bool, true, arith,
  length, get_or, drop, take, store, take-drop-store, take-drop-store_before, length-store, ◌==◌,
  ◌&&◌, bit_or, get_or-store_lt, get_or-store_at,
}
use hardware_driver.Bus.{max_bus_data_size}
use hardware_driver.Float32.{FloatOps}
use hardware_driver.MotorProtocol.{big_endian_bytes_to_float}
use hardware_driver.MotorProtocol.Pack.{
  Batch, motor_bytes, store_motors, pack_control_command, pack_control_all_command, flag_bytes,
  pack_disable_all_command, pack_enable_all_command,
}

-- The frame of a single motor holds the three floats at 1, 5 and 9 as they were given, and the two
-- gains, in thousandths, at 13 and 14.
pack_control_command_fields :
    (f : FloatOps) (d : List ℕ) (position velocity effort kp kd : ℕ)
    → length d ≡ max_bus_data_size
    → position < 2 ^ 32
    → velocity < 2 ^ 32
    → effort < 2 ^ 32
    → let bytes = (pack_control_command f d position velocity effort kp kd).bytes in
      (big_endian_bytes_to_float bytes 1 ≡ position)
      × (big_endian_bytes_to_float bytes 5 ≡ velocity)
      × (big_endian_bytes_to_float bytes 9 ≡ effort)
      × (get_or bytes 13 0 ≡ f.to_uint8 (f.scale 1000 kp))
      × (get_or bytes 14 0 ≡ f.to_uint8 (f.scale 1000 kd))
unfolding pack_control_command
pack_control_command_fields f (_ ∷ _ ∷ _ ∷ _ ∷ _ ∷ _ ∷ _ ∷ _ ∷ _ ∷ _ ∷ _ ∷ _ ∷ _ ∷ _ ∷ _ ∷ d) p v e
      kp kd h hp hv he =
    (omega arith, omega arith, omega arith, refl, refl)
pack_control_command_fields f _ p v e kp kd h hp hv he = absurd (omega arith)

store_motors_before :
    (f : FloatOps) (n i : ℕ) (b : Batch) (d : List ℕ) (j : ℕ)
    → j + 8 ≤ 2 + i * 8
    → take 8 (drop j (store_motors f n i b d)) ≡ take 8 (drop j d)
unfolding store_motors
store_motors_before f zero i b d j h = refl
store_motors_before f (suc n) i b d j h =
    store_motors_before f n (i + 1) b (store d (2 + i * 8) (motor_bytes f b i)) j (omega arith)
    ∙ take-drop-store_before d j (2 + i * 8) (motor_bytes f b i) 8 h

store_motors_lem :
    (f : FloatOps) (n i : ℕ) (b : Batch) (d : List ℕ) (k : ℕ)
    → 2 + (i + n) * 8 ≤ length d
    → k < n
    → take 8 (drop (2 + (i + k) * 8) (store_motors f n i b d)) ≡ motor_bytes f b (i + k)
unfolding store_motors
store_motors_lem f zero i b d k h hk = absurd (omega arith)
store_motors_lem f (suc n) i b d zero h hk =
    let e : i + zero ≡ i = omega arith in
    rw e (
      store_motors_before f n (i + 1) b (store d (2 + i * 8) (motor_bytes f b i)) (2 + i * 8)
        (omega arith)
      ∙ take-drop-store d (2 + i * 8) (motor_bytes f b i) (omega arith))
store_motors_lem f (suc n) i b d (suc k) h hk =
    let e : i + suc k ≡ i + 1 + k = omega arith in
    rw e (
      store_motors_lem f n (i + 1) b (store d (2 + i * 8) (motor_bytes f b i)) k
        (omega (arith, length-store d (2 + i * 8) (motor_bytes f b i))) (omega arith))

-- In the batch frame the eight bytes of each of the six motors stand where the motor looks for
-- them, none overwritten by a later motor.
pub pack_control_all_command_slots :
    (f : FloatOps) (d : List ℕ) (b : Batch) (i : ℕ)
    → length d ≡ max_bus_data_size
    → i < 6
    → take 8 (drop (2 + i * 8) (pack_control_all_command f d b).bytes) ≡ motor_bytes f b i
unfolding pack_control_all_command
pack_control_all_command_slots f d b i h hi =
    let z : 0 + i ≡ i = omega arith in
    rw z at (
      store_motors_lem f 6 0 b (store d 0 (49 ∷ 3 ∷ [])) i
        (omega (arith, length-store d 0 (49 ∷ 3 ∷ []))) hi)

every : (ℕ → Bool) → ℕ → Bool
every test zero = true
every test (suc k) = every test k && test k

-- What holds for every number below a bound holds for one of them.
every_lem : (test : ℕ → Bool) (bound i : ℕ) → i < bound → every test bound ≡ true → test i ≡ true
unfolding every
every_lem test zero i below all = absurd (omega arith)
every_lem test (suc k) i below all = ground (arith, every_lem test k i)

nibble_test : ℕ → ℕ → Bool
nibble_test a b = (bit_or (a * 2 ^ 4) b % 256 / 16 == a) && (bit_or (a * 2 ^ 4) b % 256 % 16 == b)

nibble_table : every (λ a. every (nibble_test a) 16) 16 ≡ true
unfolding every nibble_test
nibble_table = refl

-- Two four-bit fields that share a byte are read back.
nibbles :
    (a b : ℕ)
    → a < 16
    → b < 16
    → (bit_or (a * 2 ^ 4) b % 256 / 16 ≡ a) × (bit_or (a * 2 ^ 4) b % 256 % 16 ≡ b)
unfolding nibble_test
nibbles a b ha hb =
    let row = every_lem (λ a. every (nibble_test a) 16) 16 a ha nibble_table in
    let t = every_lem (nibble_test a) 16 b hb row in ground arith

flag_bytes_lem :
    (n j : ℕ) (flags mode : List ℕ) (k : ℕ)
    → k < n
    → get_or (flag_bytes n j flags mode) k 0
      ≡ bit_or (get_or flags (j + k) 0 * 2 ^ 4) (get_or mode (j + k) 0) % 256
flag_bytes_lem zero j flags mode k h = absurd (omega arith)
flag_bytes_lem (suc n) j flags mode zero h = let e : j + zero ≡ j = omega arith in rw e
flag_bytes_lem (suc n) j flags mode (suc k) h =
    let e : j + suc k ≡ j + 1 + k = omega arith in
    rw e (flag_bytes_lem n (j + 1) flags mode k (omega arith))

-- The second byte of the batch frames is 2, and the byte of each of the six motors holds its flag
-- in the high and its mode in the low four bits, where both fit; enabling and disabling pack alike.
pub pack_enable_all_command_flags :
    (d flags mode : List ℕ) (i : ℕ)
    → length d ≡ max_bus_data_size
    → get_or flags i 0 < 16
    → get_or mode i 0 < 16
    → i < 6
    → let bytes = (pack_enable_all_command d flags mode).bytes in
      (get_or bytes 1 0 ≡ 2)
      × (get_or bytes (2 + i) 0 / 16 ≡ get_or flags i 0)
      × (get_or bytes (2 + i) 0 % 16 ≡ get_or mode i 0)
      × ((pack_disable_all_command d flags mode).bytes ≡ bytes)
unfolding pack_enable_all_command pack_disable_all_command
pack_enable_all_command_flags d flags mode i h hf hm hi =
    let z : 0 + i ≡ i = omega arith in
    let d1 = store d 0 (7 ∷ 2 ∷ []) in
    let bs = flag_bytes 6 0 flags mode in
    let at : get_or (store d1 2 bs) (2 + i) 0
        ≡ bit_or (get_or flags i 0 * 2 ^ 4) (get_or mode i 0) % 256 =
      get_or-store_at d1 2 bs i (2 + i) 0 refl (omega (arith, length-store d 0 (7 ∷ 2 ∷ []))) hi
      ∙ (rw z at (flag_bytes_lem 6 0 flags mode i hi)) in
    (
      get_or-store_lt d1 1 2 bs 0 (omega arith)
          ∙ get_or-store_at d 0 (7 ∷ 2 ∷ []) 1 1 0 refl (omega arith) (omega arith),
      rw at (nibbles _ _ hf hm).0,
      rw at (nibbles _ _ hf hm).1,
      refl,
    )
