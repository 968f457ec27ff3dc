-- ===== src/GripperProtocol/RawFrame.antt =====
-- Canfd485RawFrame of src/protocol/gripper_omnipicker_protocol.cpp: sender and receiver agree.
use mathlib.Core.List.{append_assoc}
use hardware_driver.Base.{
  ℕ, zero, suc, ◌+◌, ◌%◌, ◌≤◌, ◌<◌, ◌≡◌, refl, sym, ap, ◌∙◌, ◌⊎◌, List, [], ◌∷◌, ◌++◌, arith,
  length, get_or, take, drop, store, replicate, inl, inr, take-store_end, take-append-drop, le→ltb,
  length-take, length-store,
}
use hardware_driver.GripperProtocol.{
  Canfd485RawFrame, zeroed, checksum, parse_rx_frame, pack_tx_frame,
}

-- The frame of some bytes: header, length, the bytes, the sum of all of these, and the tail.
abbrev pub frame : List ℕ → List ℕ
frame bs = header ++ checksum 0 header ∷ 0xeb ∷ 0xaa ∷ []
  where
    header : List ℕ
    header = 0x55 ∷ 0xaa ∷ length bs ∷ bs

-- The receiver's view of accepted bytes.
abbrev pub holds : List ℕ → Canfd485RawFrame
holds bs = record { data_buffer = store zeroed.data_buffer 0 bs; data_len = length bs }

take-prefix : (bs rest : List ℕ) → take (length bs) (bs ++ rest) ≡ bs
take-prefix [] rest = refl
take-prefix (b ∷ bs) rest = ap (◌∷◌ b) (take-prefix bs rest)

get_or-append :
    (bs rest : List ℕ) (k j : ℕ) → j ≡ length bs + k → get_or (bs ++ rest) j 0 ≡ get_or rest k 0
get_or-append [] rest k j e = ap (λ i. get_or rest i 0) (omega arith)
get_or-append (b ∷ bs) rest k zero e = absurd (omega arith)
get_or-append (b ∷ bs) rest k (suc j) e = get_or-append bs rest k j (omega arith)

-- The places of a frame, counted from its length byte.
take-header :
    (x y z : ℕ) (bs rest : List ℕ)
    → take (3 + length bs) (x ∷ y ∷ z ∷ (bs ++ rest)) ≡ x ∷ y ∷ z ∷ bs
take-header x y z bs rest =
    let e : 3 + length bs ≡ length (x ∷ y ∷ z ∷ bs) = omega arith in
    rw e (take-prefix (x ∷ y ∷ z ∷ bs) rest)

get_or-tail :
    (x y z : ℕ) (bs rest : List ℕ) (k : ℕ)
    → get_or (x ∷ y ∷ z ∷ (bs ++ rest)) (3 + k + length bs) 0 ≡ get_or rest k 0
get_or-tail x y z bs rest k =
    get_or-append (x ∷ y ∷ z ∷ bs) rest k (3 + k + length bs) (omega arith)

-- The receiver accepts the frame of at most 58 bytes, whatever follows it in the buffer, and holds
-- exactly the bytes.
pub parse_rx_frame-frame :
    (bs rest : List ℕ) (len : ℕ)
    → length bs + 6 ≤ len
    → len ≤ 64
    → parse_rx_frame (frame bs ++ rest) len ≡ holds bs
unfolding parse_rx_frame
parse_rx_frame-frame bs rest len h h64 = rw (append_assoc bs tail rest) (
    ground (
      arith,
      take-header 0x55 0xaa (length bs) bs (tail ++ rest),
      get_or-tail 0x55 0xaa (length bs) bs (tail ++ rest) 0,
      get_or-tail 0x55 0xaa (length bs) bs (tail ++ rest) 1,
      get_or-tail 0x55 0xaa (length bs) bs (tail ++ rest) 2,
      take-prefix bs (tail ++ rest),
    ))
  where
    tail : List ℕ
    tail = checksum 0 (0x55 ∷ 0xaa ∷ length bs ∷ bs) ∷ 0xeb ∷ 0xaa ∷ []

too_long : (d : List ℕ) (len : ℕ) → 64 < len → parse_rx_frame d len ≡ zeroed
unfolding parse_rx_frame
too_long d len h = ground arith

take-three :
    (d : List ℕ) (n m : ℕ)
    → m ≡ n + 3
    → m ≤ length d
    → take m d ≡ take n d ++ get_or d n 0 ∷ get_or d (n + 1) 0 ∷ get_or d (n + 2) 0 ∷ []
take-three (a ∷ b ∷ c ∷ d) zero (suc (suc (suc zero))) e h = refl
take-three (x ∷ d) (suc n) (suc m) e h =
    let e1 : suc n + 1 ≡ suc (n + 1) = omega arith in
    let e2 : suc n + 2 ≡ suc (n + 2) = omega arith in
    rw (e1, e2) (ap (◌∷◌ x) (take-three d n m (omega arith) (omega arith)))
take-three _ _ _ e h = absurd (omega arith)

-- What the receiver checks before it copies.
record IsAccepted (d : List ℕ) (len : ℕ) : Type 0 where
  header : (get_or d 0 0 ≡ 0x55) × (get_or d 1 0 ≡ 0xaa)
  complete : get_or d 2 0 + 6 ≤ len
  fits : len ≤ 64
  sum : get_or d (3 + get_or d 2 0) 0 ≡ checksum 0 (take (3 + get_or d 2 0) d)
  tail : (get_or d (4 + get_or d 2 0) 0 ≡ 0xeb) × (get_or d (5 + get_or d 2 0) 0 ≡ 0xaa)

parse_rx_frame-IsAccepted :
    (d : List ℕ) (len : ℕ)
    → (parse_rx_frame d len ≡ zeroed)
      ⊎ IsAccepted d len
        × (parse_rx_frame d len ≡ record {
          data_buffer = store zeroed.data_buffer 0 (take (get_or d 2 0) (drop 3 d));
          data_len = get_or d 2 0;
        })
unfolding parse_rx_frame
parse_rx_frame-IsAccepted d len = ground arith

accepted_frame :
    (d : List ℕ) (len : ℕ)
    → len ≤ length d
    → IsAccepted d len
    → let bs = take (get_or d 2 0) (drop 3 d) in
      (length bs ≡ get_or d 2 0) × (take (length bs + 6) d ≡ frame bs)
accepted_frame (x ∷ y ∷ z ∷ r) len h a =
    let n : length (take z r) ≡ z = omega (arith, length-take z r, a.complete) in
    let e : z + 6 ≡ suc (suc (suc (z + 3))) = omega arith in
    let e3 : 3 + z ≡ suc (suc (suc z)) = omega arith in
    let e4 : 4 + z ≡ suc (suc (suc (z + 1))) = omega arith in
    let e5 : 5 + z ≡ suc (suc (suc (z + 2))) = omega arith in
    let three = take-three r z (z + 3) refl (omega (arith, a.complete)) in
    let s : get_or r z 0 ≡ checksum 0 (x ∷ y ∷ z ∷ take z r) = rw e3 at a.sum in
    let t4 : get_or r (z + 1) 0 ≡ 0xeb = rw e4 at a.tail.0 in
    let t5 : get_or r (z + 2) 0 ≡ 0xaa = rw e5 at a.tail.1 in
    (n, rw (n, e) (ground (arith, a.header.0, a.header.1, three, s, t4, t5)))
accepted_frame _ len h a = absurd (omega (arith, a.complete))

-- What the receiver accepts is a frame, of exactly the bytes that it then holds: header, length,
-- checksum and tail all agree. (An accepted empty frame looks like a refusal.)
pub parse_rx_frame_sound :
    (d : List ℕ) (len : ℕ)
    → len ≤ length d
    → 0 < (parse_rx_frame d len).data_len
    → (bs : List ℕ) × (parse_rx_frame d len ≡ holds bs)
      × (take (length bs + 6) d ≡ frame bs)
      × (length bs + 6 ≤ len)
parse_rx_frame_sound d len h acc = elim (parse_rx_frame-IsAccepted d len) [
  | inl e ↦ absurd (omega (arith, acc, ap (λ (r : Canfd485RawFrame). r.data_len) e))
  | inr (a, e) ↦
      let bs = take (get_or d 2 0) (drop 3 d) in
      let f = accepted_frame d len h a in
      (
        bs,
        e
            ∙ ap (λ k. record { data_buffer = store zeroed.data_buffer 0 bs; data_len = k })
                (sym f.0),
        f.1,
        omega (arith, f.0, a.complete),
      )
]

pack_tx_frame-frame_of :
    (bs : List ℕ) (filled : List ℕ) (c : ℕ)
    → length filled ≡ 70
    → length bs ≤ 64
    → take (3 + length bs) filled ≡ 0x55 ∷ 0xaa ∷ length bs ∷ bs
    → take
        (length bs + 6)
        (store (store filled (3 + length bs) (c ∷ [])) (4 + length bs) (0xeb ∷ 0xaa ∷ []))
      ≡ 0x55 ∷ 0xaa ∷ length bs ∷ (bs ++ c ∷ 0xeb ∷ 0xaa ∷ [])
pack_tx_frame-frame_of bs filled c h h64 t =
    let d1 = store filled (3 + length bs) (c ∷ []) in
    let l1 : length d1 ≡ 70 = length-store filled (3 + length bs) (c ∷ []) ∙ h in
    take-store_end d1 (4 + length bs) (0xeb ∷ 0xaa ∷ []) (length bs + 6) (omega arith) (omega arith)
    ∙ ap (λ xs. xs ++ 0xeb ∷ 0xaa ∷ [])
        (take-store_end filled (3 + length bs) (c ∷ []) (4 + length bs) (omega arith) (omega arith)
          ∙ ap (λ xs. xs ++ c ∷ []) t)
    ∙ ap (λ xs. 0x55 ∷ 0xaa ∷ length bs ∷ xs) (append_assoc bs (c ∷ []) (0xeb ∷ 0xaa ∷ []))

-- The buffer before the checksum.
abbrev filled_of : List ℕ → List ℕ
filled_of bs = store (store zeroed.data_buffer 0 (0x55 ∷ 0xaa ∷ length bs ∷ [])) 3 bs

abbrev packed_of : List ℕ → Canfd485RawFrame
packed_of bs = record {
  data_buffer =
      store
        (store (filled_of bs) (3 + length bs)
          (checksum 0 (take (3 + length bs) (filled_of bs)) ∷ []))
        (4 + length bs) (0xeb ∷ 0xaa ∷ []);
  data_len = length bs + 6;
}

pack_tx_frame-packed_of :
    (d : List ℕ) (len : ℕ)
    → length (take len d) ≡ len
    → len ≤ 64
    → pack_tx_frame d len ≡ packed_of (take len d)
unfolding pack_tx_frame
pack_tx_frame-packed_of d len n h =
    let m : len % 256 ≡ len = omega arith in rw (le→ltb 64 len h, n, m)

take-filled_of :
    (bs : List ℕ)
    → length bs ≤ 64
    → take (3 + length bs) (filled_of bs) ≡ 0x55 ∷ 0xaa ∷ length bs ∷ bs
take-filled_of bs h =
    let e : 3 + length bs ≡ suc (suc (suc (length bs))) = omega arith in
    rw e (
      ap (λ xs. 0x55 ∷ 0xaa ∷ length bs ∷ xs)
        (take-store_end (replicate 67 0) 0 bs (length bs) (omega arith) (omega arith)))

packed_of-frame :
    (bs : List ℕ) → length bs ≤ 64 → take (length bs + 6) (packed_of bs).data_buffer ≡ frame bs
packed_of-frame bs h =
    let t = take-filled_of bs h in
    let c = checksum 0 (take (3 + length bs) (filled_of bs)) in
    let l : length (filled_of bs) ≡ 70 =
      length-store (store zeroed.data_buffer 0 (0x55 ∷ 0xaa ∷ length bs ∷ [])) 3 bs in
    pack_tx_frame-frame_of bs (filled_of bs) c l h t
    ∙ ap (λ xs. 0x55 ∷ 0xaa ∷ length bs ∷ (bs ++ checksum 0 xs ∷ 0xeb ∷ 0xaa ∷ [])) t

-- The sender's buffer holds the frame of the bytes that it was given, for up to 64 of them.
pub pack_tx_frame-frame :
    (d : List ℕ) (len : ℕ)
    → len ≤ length d
    → len ≤ 64
    → let r = pack_tx_frame d len in
      (take r.data_len r.data_buffer ≡ frame (take len d)) × (r.data_len ≡ len + 6)
pack_tx_frame-frame d len h h64 =
    let n : length (take len d) ≡ len = omega (arith, length-take len d) in
    rw (pack_tx_frame-packed_of d len n h64)
      (packed_of-frame (take len d) (omega arith), ap (λ k. k + 6) n)

pub pack_tx_frame-too_long : (d : List ℕ) (len : ℕ) → 64 < len → pack_tx_frame d len ≡ zeroed
unfolding pack_tx_frame
pack_tx_frame-too_long d len h = ground arith

-- Up to 58 bytes that are sent are what the receiver holds; the frame of 59 to 64 bytes, which the
-- sender also makes, is longer than the receiver takes, and it refuses it.
pub parse_rx_frame-pack_tx_frame :
    (d : List ℕ) (len : ℕ)
    → len ≤ length d
    → len ≤ 64
    → let r = parse_rx_frame (pack_tx_frame d len).data_buffer (pack_tx_frame d len).data_len in
      (len ≤ 58 → r ≡ holds (take len d)) × (58 < len → r ≡ zeroed)
parse_rx_frame-pack_tx_frame d len h h64 = (accepts, refuses)
  where
    n : length (take len d) ≡ len
    n = omega (arith, length-take len d)

    sent : Canfd485RawFrame
    sent = pack_tx_frame d len

    whole : frame (take len d) ++ drop sent.data_len sent.data_buffer ≡ sent.data_buffer
    whole =
        ap (λ xs. xs ++ drop sent.data_len sent.data_buffer)
          (sym (pack_tx_frame-frame d len h h64).0)
        ∙ take-append-drop sent.data_len sent.data_buffer

    accepts : len ≤ 58 → parse_rx_frame sent.data_buffer sent.data_len ≡ holds (take len d)
    accepts small =
        ap (λ b. parse_rx_frame b sent.data_len) (sym whole)
        ∙ parse_rx_frame-frame (take len d) (drop sent.data_len sent.data_buffer) sent.data_len
            (omega (arith, n, (pack_tx_frame-frame d len h h64).1))
            (omega (arith, (pack_tx_frame-frame d len h h64).1))

    refuses : 58 < len → parse_rx_frame sent.data_buffer sent.data_len ≡ zeroed
    refuses big =
        too_long sent.data_buffer sent.data_len (omega (arith, (pack_tx_frame-frame d len h h64).1))
