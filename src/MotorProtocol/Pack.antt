-- ===== src/MotorProtocol/Pack.antt =====
-- The packing functions of src/protocol/motor_protocol.cpp. Each takes the buffer that it writes
-- into. Writes to consecutive places are one `store`.
pub mod Frame
pub mod Decode
use hardware_driver.Base.{
  ℕ, ◌+◌, ◌*◌, ◌/◌, ◌%◌, ◌^◌, List, [], ◌∷◌, true, bit_or, get_or, store, zero, suc,
}
use hardware_driver.Bus.{Pack}
use hardware_driver.Float32.{FloatOps}
use hardware_driver.MotorProtocol.{float_to_big_endian_bytes, int32_to_big_endian_bytes}

unfoldable pub pack_disable_command : List ℕ → ℕ → Pack
pack_disable_command d mode = record {
  bytes = store d 0 (0x02 ∷ 0x00 ∷ mode ∷ []);
  size = 3;
  packed = true;
}

-- `(flags[i] << 4) | mode[i]`, as a byte, for each of the six motors.
abbrev pub flag_bytes : ℕ → ℕ → List ℕ → List ℕ → List ℕ
flag_bytes zero i flags mode = []
flag_bytes (suc n) i flags mode =
    (bit_or (get_or flags i 0 * 2 ^ 4) (get_or mode i 0) % 256) ∷ flag_bytes n (i + 1) flags mode

unfoldable pub pack_disable_all_command : List ℕ → List ℕ → List ℕ → Pack
pack_disable_all_command d disable_flags mode = record {
  bytes = store (store d 0 ((6 + 1) ∷ 0x02 ∷ [])) 2 (flag_bytes 6 0 disable_flags mode);
  size = 2 + 6;
  packed = true;
}

unfoldable pub pack_enable_command : List ℕ → ℕ → Pack
pack_enable_command d mode = record {
  bytes = store d 0 (0x02 ∷ 0x01 ∷ mode ∷ []);
  size = 3;
  packed = true;
}

unfoldable pub pack_enable_all_command : List ℕ → List ℕ → List ℕ → Pack
pack_enable_all_command d enable_flags mode = record {
  bytes = store (store d 0 ((6 + 1) ∷ 0x02 ∷ [])) 2 (flag_bytes 6 0 enable_flags mode);
  size = 2 + 6;
  packed = true;
}

-- The array parameters of the batch command.
pub record Batch : Type 0 where
  pub positions : List ℕ
  pub velocities : List ℕ
  pub efforts : List ℕ
  pub kps : List ℕ
  pub kds : List ℕ

module _ (f : FloatOps) where
  open f use {scale, to_uint8, to_int16}

  unfoldable pub pack_control_command : List ℕ → ℕ → ℕ → ℕ → ℕ → ℕ → Pack
  pack_control_command d position velocity effort kp kd = record {
    bytes = d5;
    size = get_or d5 0 0 + 1;
    packed = true;
  }
    where
      d1 : List ℕ
      d1 = store d 0 (0x0E ∷ [])

      d2 : List ℕ
      d2 = store d1 1 (float_to_big_endian_bytes position)

      d3 : List ℕ
      d3 = store d2 5 (float_to_big_endian_bytes velocity)

      d4 : List ℕ
      d4 = store d3 9 (float_to_big_endian_bytes effort)

      d5 : List ℕ
      d5 = store d4 13 (to_uint8 (scale 1000 kp) ∷ to_uint8 (scale 1000 kd) ∷ [])

  -- The high and the low byte of an `int16_t`.
  abbrev pub int16_bytes : ℕ → List ℕ → List ℕ
  int16_bytes v rest = (v / 2 ^ 8 % 256) ∷ (v % 256) ∷ rest

  -- The eight bytes of motor `i`.
  abbrev pub motor_bytes : Batch → ℕ → List ℕ
  motor_bytes b i = int16_bytes (to_int16 (scale 100 (get_or b.positions i 0))) (
      int16_bytes (to_int16 (scale 100 (get_or b.velocities i 0))) (
        int16_bytes (to_int16 (scale 10 (get_or b.efforts i 0))) (
          to_uint8 (scale 1000 (get_or b.kps i 0))
          ∷ to_uint8 (scale 1000 (get_or b.kds i 0))
          ∷ [])))

  -- The loop over the motors, from motor `i` on.
  pub store_motors : ℕ → ℕ → Batch → List ℕ → List ℕ
  store_motors zero i b d = d
  store_motors (suc n) i b d = store_motors n (i + 1) b (store d (2 + i * 8) (motor_bytes b i))

  unfoldable pub pack_control_all_command : List ℕ → Batch → Pack
  unfolding store_motors
  pack_control_all_command d b = record { bytes = d2; size = get_or d2 0 0 + 1; packed = true }
    where
      d1 : List ℕ
      d1 = store d 0 ((6 * 8 + 1) ∷ 0x03 ∷ [])

      d2 : List ℕ
      d2 = store_motors 6 0 b d1

unfoldable pub pack_param_read : List ℕ → ℕ → Pack
pack_param_read d addr = record {
  bytes = store d 0 (0x03 ∷ 0x01 ∷ (addr / 2 ^ 8 % 256) ∷ (addr % 256) ∷ []);
  size = 4;
  packed = true;
}

unfoldable pub pack_param_write_int : List ℕ → ℕ → ℕ → Pack
pack_param_write_int d addr value = record {
  bytes =
      store (store d 0 (0x08 ∷ 0x02 ∷ (addr / 2 ^ 8 % 256) ∷ (addr % 256) ∷ 0x01 ∷ [])) 5
        (int32_to_big_endian_bytes value);
  size = 9;
  packed = true;
}

unfoldable pub pack_param_write_float : List ℕ → ℕ → ℕ → Pack
pack_param_write_float d addr value = record {
  bytes =
      store (store d 0 (0x08 ∷ 0x02 ∷ (addr / 2 ^ 8 % 256) ∷ (addr % 256) ∷ 0x02 ∷ [])) 5
        (float_to_big_endian_bytes value);
  size = 9;
  packed = true;
}

unfoldable pub pack_function_operation : List ℕ → ℕ → Pack
pack_function_operation d op_code = record {
  bytes = store d 0 (0x01 ∷ op_code ∷ []);
  size = 2;
  packed = true;
}

unfoldable pub pack_motor_feedback_request : List ℕ → Pack
pack_motor_feedback_request d = record { bytes = store d 0 (0x00 ∷ []); size = 1; packed = true }

unfoldable pub pack_motor_feedback_request_all : List ℕ → Pack
pack_motor_feedback_request_all d = record {
  bytes = store d 0 (0x02 ∷ 0x00 ∷ 0x00 ∷ []);
  size = 3;
  packed = true;
}
