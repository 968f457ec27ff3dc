-- ===== src/MotorProtocol/Pack/Frame.antt =====
-- The shape that every packing function of src/protocol/motor_protocol.cpp gives its frame.
use hardware_driver.Base.{
  ℕ, zero, suc, ◌+◌, ◌*◌, ◌≤◌, ◌≡◌, refl, ◌∙◌, List, [], ◌∷◌, true, arith, length, get_or, drop,
  store, length-store, get_or-store_lt, drop-store,
}
use hardware_driver.Bus.{Pack, max_bus_data_size}
use hardware_driver.Float32.{FloatOps}
use hardware_driver.MotorProtocol.Pack.{
  Batch, motor_bytes, store_motors, pack_disable_command, pack_disable_all_command,
  pack_enable_command, pack_enable_all_command, pack_control_command, pack_control_all_command,
  pack_param_read, pack_param_write_int, pack_param_write_float, pack_function_operation,
  pack_motor_feedback_request, pack_motor_feedback_request_all,
}

-- Every request that the driver can pack.
pub data Request : Type 0 where
  disable enable read_param function_op : ℕ → Request
  disable_all enable_all : List ℕ → List ℕ → Request
  control : ℕ → ℕ → ℕ → ℕ → ℕ → Request
  control_all : Batch → Request
  write_int write_float : ℕ → ℕ → Request
  feedback feedback_all : Request

pub pack_request : FloatOps → List ℕ → Request → Pack
pack_request f d (disable mode) = pack_disable_command d mode
pack_request f d (enable mode) = pack_enable_command d mode
pack_request f d (read_param addr) = pack_param_read d addr
pack_request f d (function_op op) = pack_function_operation d op
pack_request f d (disable_all flags mode) = pack_disable_all_command d flags mode
pack_request f d (enable_all flags mode) = pack_enable_all_command d flags mode
pack_request f d (control p v e kp kd) = pack_control_command f d p v e kp kd
pack_request f d (control_all b) = pack_control_all_command f d b
pack_request f d (write_int addr v) = pack_param_write_int d addr v
pack_request f d (write_float addr v) = pack_param_write_float d addr v
pack_request f d feedback = pack_motor_feedback_request d
pack_request f d feedback_all = pack_motor_feedback_request_all d

-- A frame of a packing function that started from the buffer `d`: the first byte counts the bytes
-- behind it, the frame fits a CAN FD packet, and the buffer behind it is as it was.
pub record IsFrame (d : List ℕ) (k : Pack) : Type 0 where
  pub counted : k.size ≡ get_or k.bytes 0 0 + 1
  pub fits : k.size ≤ max_bus_data_size
  pub storage : length k.bytes ≡ max_bus_data_size
  pub untouched : drop k.size k.bytes ≡ drop k.size d
  pub succeeds : k.packed ≡ true

-- A buffer in the making: the first byte is in place, and nothing is written from `n` on.
record IsStarted (n b : ℕ) (d d' : List ℕ) : Type 0 where
  storage : length d' ≡ max_bus_data_size
  first : get_or d' 0 0 ≡ b
  untouched : drop n d' ≡ drop n d

get_or-store_zero :
    (d : List ℕ) (b : ℕ) (bs : List ℕ) → 1 ≤ length d → get_or (store d 0 (b ∷ bs)) 0 0 ≡ b
get_or-store_zero [] b bs h = absurd (omega arith)
get_or-store_zero (x ∷ d) b bs h = refl

start :
    (n b : ℕ) (bs d : List ℕ)
    → length d ≡ max_bus_data_size
    → suc (length bs) ≤ n
    → IsStarted n b d (store d 0 (b ∷ bs))
start n b bs d h e = record {
  storage = length-store d 0 (b ∷ bs) ∙ h;
  first = get_or-store_zero d b bs (omega arith);
  untouched = drop-store d n 0 (b ∷ bs) (omega arith);
}

continue :
    {n b : ℕ} {d d' : List ℕ} (i : ℕ) (bs : List ℕ)
    → 1 ≤ i
    → i + length bs ≤ n
    → IsStarted n b d d'
    → IsStarted n b d (store d' i bs)
continue {n} {b} {d} {d'} i bs h e s = record {
  storage = length-store d' i bs ∙ s.storage;
  first = get_or-store_lt d' 0 i bs 0 (omega arith) ∙ s.first;
  untouched = drop-store d' n i bs (omega arith) ∙ s.untouched;
}

finish :
    (b : ℕ) {d d' : List ℕ}
    → suc b ≤ max_bus_data_size
    → IsStarted (suc b) b d d'
    → IsFrame d (record { bytes = d'; size = suc b; packed = true })
finish b {d} {d'} h s = record {
  counted = omega (arith, s.first);
  fits = h;
  storage = s.storage;
  untouched = s.untouched;
  succeeds = refl;
}

-- Where the size is read back from the first byte.
finish_counted :
    (b : ℕ) {d d' : List ℕ}
    → suc b ≤ max_bus_data_size
    → IsStarted (suc b) b d d'
    → IsFrame d (record { bytes = d'; size = get_or d' 0 0 + 1; packed = true })
finish_counted b {d} {d'} h s =
    let e : get_or d' 0 0 + 1 ≡ suc b = omega (arith, s.first) in
    record {
      counted = refl;
      fits = omega (arith, e, h);
      storage = s.storage;
      untouched = rw e s.untouched;
      succeeds = refl;
    }

store_motors-IsStarted :
    (f : FloatOps) (m i : ℕ) (b : Batch) {n c : ℕ} {d d' : List ℕ}
    → 2 + (i + m) * 8 ≤ n
    → IsStarted n c d d'
    → IsStarted n c d (store_motors f m i b d')
unfolding store_motors
store_motors-IsStarted f zero i b h s = s
store_motors-IsStarted f (suc m) i b h s =
    store_motors-IsStarted f m (i + 1) b (omega arith)
      (continue (2 + i * 8) (motor_bytes f b i) (omega arith) (omega arith) s)

control_all-IsFrame :
    (f : FloatOps) (d : List ℕ) (b : Batch)
    → length d ≡ max_bus_data_size
    → IsFrame d (pack_control_all_command f d b)
unfolding pack_control_all_command
control_all-IsFrame f d b h =
    finish_counted 49 (omega arith)
      (store_motors-IsStarted f 6 0 b (omega arith) (start 50 49 (3 ∷ []) d h (omega arith)))

control-IsFrame :
    (f : FloatOps) (d : List ℕ) (p v e kp kd : ℕ)
    → length d ≡ max_bus_data_size
    → IsFrame d (pack_control_command f d p v e kp kd)
unfolding pack_control_command
control-IsFrame f d p v e kp kd h = finish_counted 14 (omega arith) (
    continue 13 _ (omega arith) (omega arith) (
      continue 9 _ (omega arith) (omega arith) (
        continue 5 _ (omega arith) (omega arith)
          (continue 1 _ (omega arith) (omega arith) (start 15 14 [] d h (omega arith))))))

-- Every packing function leaves a frame that counts its own bytes, fits a CAN FD packet, and
-- touches nothing of the 64-byte buffer behind it.
pub pack_request-IsFrame :
    (f : FloatOps) (d : List ℕ) (r : Request)
    → length d ≡ max_bus_data_size
    → IsFrame d (pack_request f d r)
unfolding pack_request pack_disable_command pack_disable_all_command pack_enable_command
    pack_enable_all_command pack_param_read pack_param_write_int pack_param_write_float
    pack_function_operation pack_motor_feedback_request pack_motor_feedback_request_all
pack_request-IsFrame f d (disable mode) h = finish 2 (omega arith) (start 3 2 _ d h (omega arith))
pack_request-IsFrame f d (enable mode) h = finish 2 (omega arith) (start 3 2 _ d h (omega arith))
pack_request-IsFrame f d (read_param a) h = finish 3 (omega arith) (start 4 3 _ d h (omega arith))
pack_request-IsFrame f d (function_op o) h = finish 1 (omega arith) (start 2 1 _ d h (omega arith))
pack_request-IsFrame f d (disable_all flags mode) h =
    finish 7 (omega arith)
      (continue 2 _ (omega arith) (omega arith) (start 8 7 _ d h (omega arith)))
pack_request-IsFrame f d (enable_all flags mode) h =
    finish 7 (omega arith)
      (continue 2 _ (omega arith) (omega arith) (start 8 7 _ d h (omega arith)))
pack_request-IsFrame f d (control p v e kp kd) h = control-IsFrame f d p v e kp kd h
pack_request-IsFrame f d (control_all b) h = control_all-IsFrame f d b h
pack_request-IsFrame f d (write_int a v) h =
    finish 8 (omega arith)
      (continue 5 _ (omega arith) (omega arith) (start 9 8 _ d h (omega arith)))
pack_request-IsFrame f d (write_float a v) h =
    finish 8 (omega arith)
      (continue 5 _ (omega arith) (omega arith) (start 9 8 _ d h (omega arith)))
pack_request-IsFrame f d feedback h = finish 0 (omega arith) (start 1 0 _ d h (omega arith))
pack_request-IsFrame f d feedback_all h = finish 2 (omega arith) (start 3 2 _ d h (omega arith))
