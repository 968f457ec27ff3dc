-- ===== src/MotorDriver/Update/Repeats.antt =====
-- The filter for repeated commands of src/driver/motor_driver_impl.cpp on the frames of an update.
use mathlib.Core.Option.{some-injective}
use hardware_driver.Base.{
  ℕ, ◌+◌, ◌≤◌, ◌<◌, ◌≡◌, ◌⊎◌, refl, sym, ap, ◌∙◌, List, [], ◌∷◌, ◌++◌, arith, String, All, length,
  length-append, length-take, inl, inr, find-assign_self,
}
use hardware_driver.Bus.{GenericBusPacket, done, max_bus_data_size}
use hardware_driver.MotorDriver.{MotorDriver, motor_key_eq, is_duplicate_command, key_of}
use hardware_driver.MotorDriver.Filter.{contents, Same, Seen, is_duplicate_command_cases}
use hardware_driver.MotorDriver.Update.{offer_all, update_packets}
use hardware_driver.MotorDriver.Update.Firmware.{joined, IsUpdateFrame}
use hardware_driver.MotorDriver.Update.Offered.{update_packets_lem}

-- How many bytes packets carry.
abbrev pub amount : List GenericBusPacket → ℕ
amount ps = length (joined ps)

amount-cons :
    (p : GenericBusPacket) (ps : List GenericBusPacket)
    → amount (p ∷ ps) ≡ length (contents p) + amount ps
amount-cons p ps = length-append (contents p) (joined ps)

-- What is offered first, and what the filter does with it.
offer_all-cons :
    (p : GenericBusPacket) (ps : List GenericBusPacket) (s : MotorDriver)
    → Seen (is_duplicate_command s p).0 p
      × ((Seen s p × ((offer_all (p ∷ ps) s).1 ≡ (offer_all ps s).1))
          ⊎ (¬ Seen s p)
            × ((offer_all (p ∷ ps) s).1 ≡ p ∷ (offer_all ps (is_duplicate_command s p).0).1))
unfolding offer_all
offer_all-cons p ps s = elim (is_duplicate_command_cases s p) [
  | inl (seen, e) ↦ rw e (seen, inl (seen, refl))
  | inr (new, e) ↦ rw e (
    (p, find-assign_self (key_of p) p s.last_commands, record { len = refl; bytes = refl }),
    inr (new, refl),
  )
]

offer_all_le :
    (ps : List GenericBusPacket) (s : MotorDriver) → amount (offer_all ps s).1 ≤ amount ps
unfolding offer_all
offer_all_le [] s = omega arith
offer_all_le (p ∷ ps) s = elim (offer_all-cons p ps s).1 [
  | inl (_, e) ↦ rw e (omega (arith, offer_all_le ps s, amount-cons p ps))
  | inr (_, e) ↦
      let t = (is_duplicate_command s p).0 in
      rw e (omega (arith, offer_all_le ps t, amount-cons p ps, amount-cons p (offer_all ps t).1))
]

Seen-Same :
    (s : MotorDriver) (p q : GenericBusPacket)
    → key_of q ≡ key_of p
    → Same q p
    → Seen s p
    → Seen s q
Seen-Same s p q key same (last, e, e') =
    (last, rw key e, record { len = same.len ∙ e'.len; bytes = same.bytes ∙ e'.bytes })

-- A repetition that is offered next is as if it were not offered.
offer_all-repeated :
    (p q : GenericBusPacket) (ys : List GenericBusPacket) (s : MotorDriver)
    → key_of q ≡ key_of p
    → Same q p
    → offer_all (p ∷ q ∷ ys) s ≡ offer_all (p ∷ ys) s
unfolding offer_all
offer_all-repeated p q ys s key same =
    let t = (is_duplicate_command s p).0 in
    let seen = Seen-Same t p q key same (offer_all-cons p ys s).0 in
    elim (is_duplicate_command_cases t q) [
      | inl (_, e) ↦ rw e refl
      | inr (new, _) ↦ absurd (new seen)
    ]

offer_all-skips :
    (xs : List GenericBusPacket) (p q : GenericBusPacket) (ys : List GenericBusPacket)
    (s : MotorDriver)
    → key_of q ≡ key_of p
    → Same q p
    → offer_all (xs ++ p ∷ q ∷ ys) s ≡ offer_all (xs ++ p ∷ ys) s
unfolding offer_all
offer_all-skips [] p q ys s key same = offer_all-repeated p q ys s key same
offer_all-skips (x ∷ xs) p q ys s key same =
    rw (offer_all-skips xs p q ys (is_duplicate_command s x).0 key same)

IsUpdateFrame-length :
    {interface : String} {id : ℕ} (p : GenericBusPacket)
    → IsUpdateFrame interface id p
    → length (contents p) ≡ p.len
IsUpdateFrame-length p h =
    let e = h.storage in let le = h.within in omega (arith, length-take p.len p.payload)

amount-without :
    (xs : List GenericBusPacket) (p q : GenericBusPacket) (ys : List GenericBusPacket)
    → amount (xs ++ p ∷ q ∷ ys) ≡ amount (xs ++ p ∷ ys) + length (contents q)
amount-without [] p q ys = omega (arith, amount-cons p (q ∷ ys), amount-cons q ys, amount-cons p ys)
amount-without (x ∷ xs) p q ys = omega (
  arith,
  amount-without xs p q ys,
  amount-cons x (xs ++ p ∷ q ∷ ys),
  amount-cons x (xs ++ p ∷ ys),
)

frames_of_pair :
    {interface : String} {id : ℕ} (xs : List GenericBusPacket) (p q : GenericBusPacket)
    (ys : List GenericBusPacket)
    → All (IsUpdateFrame interface id) (xs ++ p ∷ q ∷ ys)
    → IsUpdateFrame interface id p × IsUpdateFrame interface id q
frames_of_pair [] p q ys (hp, (hq, rest)) = (hp, hq)
frames_of_pair (x ∷ xs) p q ys (_, rest) = frames_of_pair xs p q ys rest

Outcome-injective : {a b : List GenericBusPacket} → done a ≡ done b → a ≡ b
Outcome-injective e = cc

-- Where two frames that follow one another in an update carry equal bytes, that is, where two
-- neighbouring blocks of the firmware are equal, the filter, whatever the driver's state, makes of
-- the update what it would make of one without the second of the two. The bytes that pass and those
-- of the second frame, which has some, are together no more than the firmware, the two bytes of the
-- request and the three of the key: the firmware arrives without that block at least.
pub update_packets-offer_all :
    (raw : List ℕ) (interface : String) (motor_id : ℕ) (firmware : List ℕ)
    (enter send_key : GenericBusPacket) (xs : List GenericBusPacket) (p q : GenericBusPacket)
    (ys : List GenericBusPacket) (s : MotorDriver)
    → length raw ≡ max_bus_data_size
    → update_packets raw interface motor_id firmware ≡ done (enter ∷ send_key ∷ xs ++ p ∷ q ∷ ys)
    → contents q ≡ contents p
    → let passed = offer_all (enter ∷ send_key ∷ xs ++ p ∷ q ∷ ys) s in
      (passed ≡ offer_all (enter ∷ send_key ∷ xs ++ p ∷ ys) s)
      × (amount passed.1 + q.len ≤ 5 + length firmware)
      × (0 < q.len)
update_packets-offer_all raw interface motor_id firmware enter send_key xs p q ys s storage offered
      same =
    let (enter', key', ps, r, e, k, _, _, frames, all) =
      update_packets_lem raw interface motor_id firmware storage in
    let equal = Outcome-injective (sym r ∙ offered) in
    let first : enter' ≡ enter = cc in
    let second : key' ≡ send_key = cc in
    let rest : ps ≡ xs ++ p ∷ q ∷ ys = cc in
    let (hp, hq) = frames_of_pair xs p q ys (rw rest at frames) in
    let lp = IsUpdateFrame-length p hp in
    let lq = IsUpdateFrame-length q hq in
    let two : Same q p = record { len = sym lq ∙ ap length same ∙ lp; bytes = same } in
    let key : key_of q ≡ key_of p =
      rw (hq.same_interface, hq.same_id, hp.same_interface, hp.same_id) refl in
    let skips = offer_all-skips (enter ∷ send_key ∷ xs) p q ys s key two in
    let without = enter ∷ send_key ∷ xs ++ p ∷ ys in
    let whole = rw rest at all in
    (
      skips,
      rw skips (
          omega (
            arith,
            offer_all_le without s,
            amount-cons enter (send_key ∷ xs ++ p ∷ ys),
            amount-cons send_key (xs ++ p ∷ ys),
            amount-without xs p q ys,
            ap length whole,
            ap length (rw first at e),
            ap length (rw second at k),
            lq,
          )),
      hq.not_empty,
    )

-- Commands of one key of which no two neighbours have the same content.
abbrev pub Varied : List GenericBusPacket → Type 0
Varied [] = Unit {0}
Varied (p ∷ []) = Unit {0}
Varied (p ∷ q ∷ ps) = (key_of q ≡ key_of p) × (¬ Same q p) × Varied (q ∷ ps)

Seen-after :
    (s : MotorDriver) (p q : GenericBusPacket)
    → ¬ Seen s p
    → key_of q ≡ key_of p
    → ¬ Same q p
    → ¬ Seen (is_duplicate_command s p).0 q
Seen-after s p q new key other = elim (is_duplicate_command_cases s p) [
  | inl (seen, _) ↦ absurd (new seen)
  | inr (_, e) ↦ rw e (λ seen.
      let found = rw key at seen.1 in
      let same =
        some-injective seen.0 p (sym found ∙ find-assign_self (key_of p) p s.last_commands) in
      other (rw same at seen.2))
]

-- The filter passes a row of commands whole where the first is new to it and no two neighbours have
-- the same content.
offer_all-Varied :
    (p : GenericBusPacket) (ps : List GenericBusPacket) (s : MotorDriver)
    → ¬ Seen s p
    → Varied (p ∷ ps)
    → (offer_all (p ∷ ps) s).1 ≡ p ∷ ps
unfolding offer_all
offer_all-Varied p [] s new v = elim (offer_all-cons p [] s).1 [
  | inl (seen, _) ↦ absurd (new seen)
  | inr (_, e) ↦ e
]
offer_all-Varied p (q ∷ ps) s new v = elim (offer_all-cons p (q ∷ ps) s).1 [
  | inl (seen, _) ↦ absurd (new seen)
  | inr (_, e) ↦
      e
      ∙ ap (◌∷◌ p)
          (offer_all-Varied q ps (is_duplicate_command s p).0 (Seen-after s p q new v.0 v.1) v.2)
]
