-- ===== src/GripperDriver/Status.antt =====
-- src/driver/gripper_driver_impl.cpp: what a feedback packet changes and who hears of it.
use text.Mathlib.Text.{◌==◌ as str_eq}
use text.Mathlib.TextEquality.{eq_iff}
use hardware_driver.Base.{
  ℕ, ◌+◌, ◌%◌, ◌^◌, ◌≤◌, ◌<◌, ◌≡◌, ◌≢◌, String, List, [], Option, some, arith, length, get_or, take,
  find, assign, find-assign, string_eq, if◌then◌else◌, ◌&&◌, nat_eq, ◌==◌, min, replicate,
  length-take, get_or-take, get_or-store_at, ◌⊎◌,
}
use hardware_driver.Bus.{GenericBusPacket}
use hardware_driver.GripperProtocol.{recv_gripper_id, omni_picker_feedback}
use hardware_driver.GripperDriver.{
  GripperDriver, GripperStatus, status_of, receive_callback, notify_observers, cached,
}

-- What the cache holds for a gripper.
abbrev pub cached_status : GripperDriver → String → ℕ → Option GripperStatus
cached_status s interface gripper_id = find gripper_id (cached s interface)

-- One write into the cache of caches.
cached_status-assign :
    (s : GripperDriver) (i j : String) (k g : ℕ) (v : GripperStatus)
    → cached_status
        (record s { status_cache = assign i (assign k v (cached s i)) s.status_cache })
        j
        g
      ≡ (if str_eq i j && (k == g) then some v else cached_status s j g)
cached_status-assign s i j k g v = ground (
  arith,
  find-assign i j (assign k v (cached s i)) s.status_cache,
  find-assign k g v (cached s i),
  eq_iff i j,
)

-- A feedback packet of at least six bytes reaches every observer once, in order, with the status
-- that is then cached for gripper 1 of its interface; all other cached statuses stay. Any other
-- packet changes nothing and is told to nobody.
receive_callback_lem :
    (fresh : GripperStatus) (s : GripperDriver) (p : GenericBusPacket) (interface : String) (g : ℕ)
    → let (s', told) = receive_callback fresh s p in
      (p.id ≡ recv_gripper_id
        → 6 ≤ p.len
        → (told ≡ notify_observers s p.interface 1 (status_of fresh p))
          × (cached_status s' p.interface 1 ≡ some (status_of fresh p))
          × (s'.observers ≡ s.observers)
          × ((interface ≢ p.interface) ⊎ (g ≢ 1)
              → cached_status s' interface g ≡ cached_status s interface g))
      × ((p.id ≢ recv_gripper_id) ⊎ (p.len < 6) → (told ≡ []) × (s' ≡ s))
unfolding receive_callback
receive_callback_lem fresh s p interface g = (
  λ e h. (
    ground arith,
    ground (
      arith,
      cached_status-assign s p.interface p.interface 1 1 (status_of fresh p),
      eq_iff p.interface p.interface,
    ),
    ground arith,
    λ other. ground (
      arith,
      cached_status-assign s p.interface interface 1 g (status_of fresh p),
      eq_iff p.interface interface,
    ),
  ),
  λ no. (ground arith, ground arith),
)

omni_byte :
    (d : List ℕ) (len j : ℕ)
    → 6 ≤ len
    → len ≤ 64
    → 6 ≤ length d
    → j < 6
    → get_or (omni_picker_feedback d (len % 2 ^ 8)) j 0 ≡ get_or d j 0
unfolding omni_picker_feedback
omni_byte d len j h h64 hd hj =
    let m : len % 2 ^ 8 ≡ len = omega arith in
    let z : j ≡ 0 + j = omega arith in
    ground (
      arith,
      get_or-store_at (replicate 8 0) 0 (take (min len 8) d) j j 0 z (omega arith)
          (omega (arith, length-take (min len 8) d)),
      get_or-take (min len 8) d j 0 (omega arith),
    )

-- Of an OmniPicker packet every field of the published status is taken from the packet's bytes, and
-- none from the uninitialised variable; of a packet whose first byte names neither gripper, the
-- status that is published is the uninitialised variable as it stands.
pub status_of-fresh :
    (fresh : GripperStatus) (p : GenericBusPacket)
    → 6 ≤ p.len
    → p.len ≤ 64
    → 6 ≤ length p.payload
    → (get_or p.payload 0 0 ≡ 1
        → status_of fresh p ≡ record {
          position = get_or p.payload 3 0;
          velocity = get_or p.payload 4 0;
          force = get_or p.payload 5 0;
          status = get_or p.payload 1 0;
          action_status = get_or p.payload 2 0;
          has_object = get_or p.payload 2 0 == 0x00;
          is_moving = get_or p.payload 2 0 == 0x01;
        })
      × (get_or p.payload 0 0 ≢ 1 → get_or p.payload 0 0 ≢ 2 → status_of fresh p ≡ fresh)
unfolding status_of
status_of-fresh fresh p h h64 hl =
    let b = λ (j : ℕ) (hj : j < 6). omni_byte p.payload p.len j h h64 hl hj in
    (
      λ e. ground (
        arith,
        b 1 (omega arith),
        b 2 (omega arith),
        b 3 (omega arith),
        b 4 (omega arith),
        b 5 (omega arith),
      ),
      λ e1 e2. ground arith,
    )
