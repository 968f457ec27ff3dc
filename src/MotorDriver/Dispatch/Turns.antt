-- ===== src/MotorDriver/Dispatch/Turns.antt =====
-- src/driver/motor_driver_impl.cpp: the receive thread, which puts packets into the bounded queue, and
-- the data thread, which takes them out, in any order of turns. What other threads do to the driver
-- between the turns is left out.
use mathlib.Core.List.{append_assoc}
use hardware_driver.Base.{
  ℕ, suc, ◌-◌, ◌<◌, ◌≡◌, refl, ap, ◌∙◌, List, [], ◌∷◌, ◌++◌, Bool, ◌&&◌, ◌==◌, none, some, length,
  arith, inl, inr, Bool-cases, Option-cases,
}
use hardware_driver.Bus.{GenericBusPacket}
use hardware_driver.MotorProtocol.{
  MotorFeedback, status_feedback, func_feedback, param_feedback, parse_feedback,
}
use hardware_driver.IapProtocol.{parse_iap_feedback}
use hardware_driver.MotorDriver.{MotorDriver, max_queue_size, drop_oldest, on_packet}
use hardware_driver.MotorDriver.Dispatch.{
  Effect, handle_feedback, handle_bus_packet, process_packet,
}

-- A turn of the receive thread, with a packet, or one of the data thread.
pub data Turn : Type 0 where
  arrives : GenericBusPacket → Turn
  works : Turn

-- The packets that arrive.
abbrev pub arrivals : List Turn → List GenericBusPacket
arrivals [] = []
arrivals (arrives p ∷ ts) = p ∷ arrivals ts
arrivals (works ∷ ts) = arrivals ts

-- The data thread keeps up, with so many packets in the queue: each packet that arrives finds room,
-- and in the end all are taken.
abbrev pub KeepsUp : ℕ → List Turn → Type 0
KeepsUp n [] = n ≡ 0
KeepsUp n (arrives p ∷ ts) = (n < max_queue_size) × KeepsUp (suc n) ts
KeepsUp n (works ∷ ts) = KeepsUp (n - 1) ts

module _ (alive : ℕ → Bool) where
  -- What a turn leaves, and what leaves the driver in it.
  unfoldable pub take_turn : Turn → MotorDriver → MotorDriver × List Effect
  unfolding on_packet process_packet
  take_turn (arrives p) s = (on_packet s p, [])
  take_turn works s = elim (process_packet alive s) [ none ↦ (s, []) | some r ↦ r ]

  unfoldable pub take_turns : List Turn → MotorDriver → MotorDriver × List Effect
  unfolding take_turn
  take_turns [] s = (s, [])
  take_turns (t ∷ ts) s =
      let (s', effects) = take_turn t s in
      let (s'', more) = take_turns ts s' in (s'', effects ++ more)

  -- What leaves the driver when packets are handled one after the other, without a queue.
  unfoldable pub handle_all : List GenericBusPacket → MotorDriver → List Effect
  unfolding handle_bus_packet
  handle_all [] s = []
  handle_all (p ∷ ps) s =
      let (s', effects) = handle_bus_packet alive p s in effects ++ handle_all ps s'

  handle_feedback-receive_queue :
      (fb : MotorFeedback) (q : List GenericBusPacket) (s : MotorDriver)
      → let (t, effects) = handle_feedback alive fb s in
        handle_feedback alive fb (record s { receive_queue = q })
        ≡ (record t { receive_queue = q }, effects)
  unfolding handle_feedback
  handle_feedback-receive_queue (status_feedback fb) q s = refl
  handle_feedback-receive_queue (func_feedback fb) q s = refl
  handle_feedback-receive_queue (param_feedback fb) q s = refl

  -- The handling of a packet and the packets in the queue have nothing to do with each other.
  pub handle_bus_packet-receive_queue :
      (p : GenericBusPacket) (q : List GenericBusPacket) (s : MotorDriver)
      → let (t, effects) = handle_bus_packet alive p s in
        handle_bus_packet alive p (record s { receive_queue = q })
        ≡ (record t { receive_queue = q }, effects)
  unfolding handle_bus_packet
  handle_bus_packet-receive_queue p q s =
      elim (Bool-cases ((p.id == 0x8F) && s.button_packet_callback)) [
        | inl button ↦ rw button refl
        | inr no_button ↦ rw no_button (elim (Option-cases (parse_iap_feedback p)) [
          | inr (fb, e) ↦ rw e refl
          | inl no_iap ↦ rw no_iap (elim (Option-cases (parse_feedback p)) [
            | inl nothing ↦ rw nothing refl
            | inr (fb, e) ↦ rw e (handle_feedback-receive_queue fb q s)
          ])
        ])
      ]

  handle_all-receive_queue :
      (ps q : List GenericBusPacket) (s : MotorDriver)
      → handle_all ps (record s { receive_queue = q }) ≡ handle_all ps s
  unfolding handle_all
  handle_all-receive_queue [] q s = refl
  handle_all-receive_queue (p ∷ ps) q s =
      let (t, effects) = handle_bus_packet alive p s in
      ap (λ (o : MotorDriver × List Effect). o.1 ++ handle_all ps o.0)
        (handle_bus_packet-receive_queue p q s)
      ∙ ap (◌++◌ effects) (handle_all-receive_queue ps q t)

  drop_oldest-room : (q : List GenericBusPacket) → length q < max_queue_size → drop_oldest q ≡ q
  unfolding drop_oldest
  drop_oldest-room [] h = refl
  drop_oldest-room (x ∷ q) h = ground arith

  length-snoc :
      (q : List GenericBusPacket) (p : GenericBusPacket) → length (q ++ p ∷ []) ≡ suc (length q)
  length-snoc [] p = refl
  length-snoc (x ∷ q) p = ap suc (length-snoc q p)

  shorter : (x : GenericBusPacket) (q : List GenericBusPacket) → length (x ∷ q) - 1 ≡ length q
  shorter x q = omega arith

  -- Where the data thread keeps up, its turns handle the packets of the queue and then all that
  -- arrive, in order.
  take_turns-queue :
      (ts : List Turn) (q : List GenericBusPacket) (s : MotorDriver)
      → KeepsUp (length q) ts
      → (take_turns ts (record s { receive_queue = q })).1 ≡ handle_all (q ++ arrivals ts) s
  unfolding take_turns take_turn handle_all on_packet process_packet
  take_turns-queue [] [] s h = refl
  take_turns-queue [] (x ∷ q) s h = absurd (omega arith)
  take_turns-queue (arrives p ∷ ts) q s h =
      let ih = take_turns-queue ts (q ++ p ∷ []) s (rw (length-snoc q p) h.1) in
      rw (drop_oldest-room q h.0)
        (ih ∙ ap (λ ps. handle_all ps s) (append_assoc q (p ∷ []) (arrivals ts)))
  take_turns-queue (works ∷ ts) [] s h = take_turns-queue ts [] s h
  take_turns-queue (works ∷ ts) (x ∷ q) s h =
      let (t, effects) = handle_bus_packet alive x s in
      ap (λ (o : MotorDriver × List Effect). o.1 ++ (take_turns ts o.0).1)
        (handle_bus_packet-receive_queue x q s)
      ∙ ap (◌++◌ effects) (take_turns-queue ts q t (rw (shorter x q) at h))

  pub take_turns-handle_all :
      (ts : List Turn) (s : MotorDriver)
      → KeepsUp (length s.receive_queue) ts
      → (take_turns ts s).1 ≡ handle_all (s.receive_queue ++ arrivals ts) s
  take_turns-handle_all ts s h = take_turns-queue ts s.receive_queue s h
