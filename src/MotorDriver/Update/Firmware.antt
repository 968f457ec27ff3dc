-- ===== src/MotorDriver/Update/Firmware.antt =====
-- The firmware frames of src/driver/motor_driver_impl.cpp: what `start_update` offers, and what the
-- filter for repeated commands lets through.

use hardware_driver.Base.{
  ℕ, zero, suc, ◌+◌, ◌-◌, ◌*◌, ◌≤◌, ◌<◌, ◌≡◌, refl, sym, ap, ◌∙◌, min, String, List, [], ◌∷◌, ◌++◌,
  true, false, arith, length, take, drop, store, leb, All, take-append-drop, drop-drop, take-min,
  drop-all, length-take, length-drop, length-store, take-store_end, Bool-cases, inl, inr,
}
use hardware_driver.Bus.{GenericBusPacket, Pack, Outcome, done, fill, max_bus_data_size}
use hardware_driver.IapProtocol.{pack_firmware_frame}
use hardware_driver.MotorDriver.Filter.{contents}
use hardware_driver.MotorDriver.Update.{firmware_frames}

-- The bytes that packets carry, one after the other.
abbrev pub joined : List GenericBusPacket → List ℕ
joined [] = []
joined (p ∷ ps) = contents p ++ joined ps

-- A packet with a frame of an update for an id of an interface.
pub record IsUpdateFrame (interface : String) (id : ℕ) (q : GenericBusPacket) : Type 0 where
  pub same_interface : q.interface ≡ interface
  pub same_id : q.id ≡ id
  pub not_empty : 0 < q.len
  pub within : q.len ≤ 64
  pub storage : length q.payload ≡ max_bus_data_size

pack_firmware_frame_lem :
    (d : List ℕ) (len : ℕ) (firmware : List ℕ) (offset : ℕ)
    → offset < length firmware
    → pack_firmware_frame d len firmware offset 64
      ≡ done (record {
        bytes = store d 0 (take 64 (drop offset firmware));
        size = min 64 (length firmware - offset);
        packed = true;
      })
unfolding pack_firmware_frame
pack_firmware_frame_lem d len firmware offset h =
    let e : leb (length firmware) offset ≡ false = ground arith in
    let f : leb (min 64 (length firmware - offset)) 64 ≡ true = ground arith in
    let same = rw (length-drop offset firmware) at (take-min 64 (drop offset firmware)) in
    rw (e, f, same)

-- What is to be shown of the frames from an offset on.
abbrev pub Frames : GenericBusPacket → List ℕ → Outcome (List GenericBusPacket) → Type 0
Frames p bytes r =
    (ps : List GenericBusPacket) × (r ≡ done ps)
    × (joined ps ≡ bytes)
    × All (IsUpdateFrame p.interface p.id) ps

contents-fill :
    (p : GenericBusPacket) (bs : List ℕ) (n : ℕ)
    → length p.payload ≡ max_bus_data_size
    → n ≡ length bs
    → n ≤ 64
    → contents (fill p (record { bytes = store p.payload 0 bs; size = n; packed = true })) ≡ bs
contents-fill p bs n h e le = take-store_end p.payload 0 bs n (omega arith) (omega arith)

pub firmware_frames-Frames :
    (n : ℕ) (p : GenericBusPacket) (firmware : List ℕ) (offset : ℕ)
    → length p.payload ≡ max_bus_data_size
    → length firmware ≤ offset + 64 * n
    → Frames p (drop offset firmware) (firmware_frames n p firmware offset)
unfolding firmware_frames
firmware_frames-Frames zero p firmware offset h enough =
    ([], refl, sym (drop-all offset firmware (omega arith)), tt)
firmware_frames-Frames (suc n) p firmware offset h enough =
    elim (Bool-cases (leb (length firmware) offset)) [
      | inl e ↦ rw e ([], refl, sym (drop-all offset firmware (ground arith)), tt)
      | inr e ↦
          let lt : offset < length firmware = ground arith in
          let chunk = take 64 (drop offset firmware) in
          let size = min 64 (length firmware - offset) in
          let k : Pack = record { bytes = store p.payload 0 chunk; size = size; packed = true } in
          let kept = length-store p.payload 0 chunk in
          let (ps, r, j, a) =
            firmware_frames-Frames n (fill p k) firmware (offset + 64) (kept ∙ h) (omega arith) in
          let size_is : size ≡ length chunk =
            omega (arith, length-take 64 (drop offset firmware), length-drop offset firmware) in
          rw (e, pack_firmware_frame_lem p.payload p.len firmware offset lt, r)
            (
              fill p k ∷ ps,
              refl,
              ap (λ c. c ++ joined ps) (contents-fill p chunk size h size_is (omega arith))
                  ∙ ap (◌++◌ chunk) (j ∙ sym (drop-drop 64 offset firmware))
                  ∙ take-append-drop 64 (drop offset firmware),
              (
                record {
                  same_interface = refl;
                  same_id = refl;
                  not_empty = omega arith;
                  within = omega arith;
                  storage = kept ∙ h;
                },
                a,
              ),
            )
    ]
