-- ===== src/MotorDriver/Construction.antt =====
-- src/driver/motor_driver_impl.cpp: the constructor, on a bus of the kernel's interfaces.
use mathlib.Core.List.{Memᴰ}
use mathlib.Core.List.Memᴰ
use hardware_driver.Base.{
  ℕ, ◌≡◌, refl, ap, ◌∙◌, String, List, [], ◌∷◌, Bool, true, Option, none, some, arith, find, assign,
  find-assign, string_eq, All, Option-cases, inl, inr,
}
use hardware_driver.MotorDriver.{MotorDriver, new_motor_driver}
use hardware_driver.CanFdBus.{CanFdBus, flag_of, set_extended_frame, set_fd_mode, async_receive}

-- The loop that sets the flags of the interfaces; `none` where a call throws.
unfoldable pub set_flags : List String → CanFdBus → Option CanFdBus
set_flags [] s = some s
set_flags (interface ∷ interfaces) s = elim (set_extended_frame interface true s) [
  | none ↦ none
  | some s' ↦ elim (set_fd_mode interface true s') [
    | none ↦ none
    | some s'' ↦ set_flags interfaces s''
  ]
]

-- The driver, the bus, and the interfaces for which it starts to receive.
unfoldable pub construct : ℕ → CanFdBus → Option (MotorDriver × CanFdBus × List String)
unfolding set_flags
construct now s = elim (set_flags s.interface_names s) [
  | none ↦ none
  | some s' ↦ some (new_motor_driver now, s', async_receive s')
]

abbrev pub IsBound : CanFdBus → String → Type 0
IsBound s i = (socket : ℕ) × (find i s.interface_sockets ≡ some socket)

-- Both flags of an interface, as the bus reads them.
abbrev pub HasFlags : CanFdBus → String → Type 0
HasFlags s i = (flag_of i s.extended_frame_flags ≡ true) × (flag_of i s.canfd_flags ≡ true)

abbrev flagged : String → CanFdBus → CanFdBus
flagged i s = record s {
  extended_frame_flags = assign i true s.extended_frame_flags;
  canfd_flags = assign i true s.canfd_flags;
}

flag_of-assign :
    (i j : String) (flags : List (String × Bool))
    → flag_of j flags ≡ true
    → flag_of j (assign i true flags) ≡ true
flag_of-assign i j flags h = ground (arith, find-assign i j true flags, h)

flag_of-assign_self :
    (i : String) (flags : List (String × Bool)) → flag_of i (assign i true flags) ≡ true
flag_of-assign_self i flags = ground (arith, find-assign i i true flags, string_eq.is_equal_iff i i)

HasFlags-flagged : (i j : String) (s : CanFdBus) → HasFlags s j → HasFlags (flagged i s) j
HasFlags-flagged i j s h =
    (flag_of-assign i j s.extended_frame_flags h.0, flag_of-assign i j s.canfd_flags h.1)

flags-bound :
    (i : String) (s : CanFdBus)
    → IsBound s i
    → (set_extended_frame i true s
        ≡ some (record s { extended_frame_flags = assign i true s.extended_frame_flags }))
      × (set_fd_mode i true s ≡ some (record s { canfd_flags = assign i true s.canfd_flags }))
unfolding set_extended_frame set_fd_mode
flags-bound i s (socket, found) = (rw (found, set_extended_frame), rw (found, set_fd_mode))

set_flags-cons :
    (i : String) (is : List String) (s : CanFdBus)
    → IsBound s i
    → set_flags (i ∷ is) s ≡ set_flags is (flagged i s)
unfolding set_flags
set_flags-cons i is s bound =
    let extended = record s { extended_frame_flags = assign i true s.extended_frame_flags } in
    ground (arith, (flags-bound i s bound).0, (flags-bound i extended bound).1)

set_flags-bound :
    (is : List String) (s : CanFdBus)
    → All (IsBound s) is
    → (t : CanFdBus) × (set_flags is s ≡ some t)
      × (t.interface_names ≡ s.interface_names)
      × (t.interface_sockets ≡ s.interface_sockets)
      × All (HasFlags t) is
      × ((j : String) → HasFlags s j → HasFlags t j)
unfolding set_flags
set_flags-bound [] s h = (s, refl, refl, refl, tt, λ j flags. flags)
set_flags-bound (i ∷ is) s (here, rest) =
    let (t, done, names, sockets, all, keeps) = set_flags-bound is (flagged i s) rest in
    (
      t,
      set_flags-cons i is s here ∙ done,
      names,
      sockets,
      (
        keeps i (flag_of-assign_self i s.extended_frame_flags, flag_of-assign_self i s.canfd_flags),
        all,
      ),
      λ j flags. keeps j (HasFlags-flagged i j s flags),
    )

set_flags-missing :
    (i : String) (is : List String) (s : CanFdBus)
    → find i s.interface_sockets ≡ none
    → set_flags (i ∷ is) s ≡ none
unfolding set_flags set_extended_frame
set_flags-missing i is s missing = rw (missing, set_flags, set_extended_frame)

set_flags-unbound :
    (is : List String) (s : CanFdBus) (i : String)
    → Memᴰ i is
    → find i s.interface_sockets ≡ none
    → set_flags is s ≡ none
set_flags-unbound [] s i listed h = absurd (Memᴰ.not-nil listed)
set_flags-unbound (j ∷ js) s i (Memᴰ.head same) h = set_flags-missing j js s (rw same at h)
set_flags-unbound (j ∷ js) s i (Memᴰ.tail later) h =
    elim (Option-cases (find j s.interface_sockets)) [
      | inl missing ↦ set_flags-missing j js s missing
      | inr found ↦ set_flags-cons j js s found ∙ set_flags-unbound js (flagged j s) i later h
    ]

constructed :
    (now : ℕ) (s t : CanFdBus)
    → set_flags s.interface_names s ≡ some t
    → construct now s ≡ some (new_motor_driver now, t, t.interface_names)
unfolding construct
constructed now s t e = ground (arith, e)

-- Where each of the bus's interfaces was bound, the driver is constructed, on a bus that has the
-- same interfaces and sockets, sends extended frames in FD mode on each of them, and starts a thread
-- for each. Where one was not bound, which the bus's own constructor only warns of, the driver's
-- constructor throws.
pub construct-HasFlags :
    (now : ℕ) (s : CanFdBus)
    → (All (IsBound s) s.interface_names
        → (t : CanFdBus) × (construct now s ≡ some (new_motor_driver now, t, s.interface_names))
          × (t.interface_names ≡ s.interface_names)
          × (t.interface_sockets ≡ s.interface_sockets)
          × All (HasFlags t) s.interface_names)
      × ((i : String)
          → Memᴰ i s.interface_names
          → find i s.interface_sockets ≡ none
          → construct now s ≡ none)
unfolding construct
construct-HasFlags now s = (
  λ bound.
      let (t, done, names, sockets, flags, _) = set_flags-bound s.interface_names s bound in
      (
        t,
        constructed now s t done ∙ ap (λ is. some (new_motor_driver now, t, is)) names,
        names,
        sockets,
        flags,
      ),
  λ i listed unbound.
      let e = set_flags-unbound s.interface_names s i listed unbound in ground (arith, e),
)
