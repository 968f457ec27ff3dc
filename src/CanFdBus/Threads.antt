-- ===== src/CanFdBus/Threads.antt =====
-- src/bus/canfd_bus_impl.cpp: the threads that receive.
use mathlib.Core.List.{Memᴰ}
use mathlib.Core.List.Memᴰ
use hardware_driver.Base.{
  ℕ, ◌≡◌, refl, sym, ap, ◌∙◌, String, List, [], ◌∷◌, true, Option, none, some, arith, find,
  string_eq, Option-cases, inl, inr,
}
use hardware_driver.Bus.{GenericBusPacket, new_packet}
use hardware_driver.CanFdBus.{
  CanFdBus, Frame, bind_all, new_canfd_bus, flag_of, receive_frame, receive, receive_loop,
  async_receive,
}

find-bind_all-none :
    (bind : String → Option ℕ) (i : String) (names : List String)
    → bind i ≡ none
    → find i (bind_all bind names) ≡ none
unfolding bind_all find
find-bind_all-none bind i [] h = refl
find-bind_all-none bind i (j ∷ js) h = elim (Option-cases (bind j)) [
  | inl e ↦ rw (e, bind_all) (find-bind_all-none bind i js h)
  | inr (socket, e) ↦
      ground (arith, e, h, string_eq.is_equal_iff j i, find-bind_all-none bind i js h)
]

find-bind_all-some :
    (bind : String → Option ℕ) (i : String) (names : List String) {socket : ℕ}
    → bind i ≡ some socket
    → Memᴰ i names
    → find i (bind_all bind names) ≡ some socket
unfolding bind_all find
find-bind_all-some bind i [] h listed = absurd (Memᴰ.not-nil listed)
find-bind_all-some bind i (j ∷ js) h (Memᴰ.head same) =
    ground (arith, sym (ap bind same) ∙ h, same, string_eq.is_equal_iff j i)
find-bind_all-some bind i (j ∷ js) h (Memᴰ.tail later) =
    ground (arith, h, string_eq.is_equal_iff j i, find-bind_all-some bind i js h later)

-- The frames that were there to read, in turn, as packets.
abbrev pub packets_of : List ℕ → String → List (Option Frame) → List GenericBusPacket
packets_of raw i [] = []
packets_of raw i (none ∷ reads) = packets_of raw i reads
packets_of raw i (some f ∷ reads) =
    receive_frame true f (new_packet raw i 0) ∷ packets_of raw i reads

pub receive_loop-packets_of :
    (s : CanFdBus) (raw : List ℕ) (i : String) (reads : List (Option Frame)) {socket : ℕ}
    → find i s.interface_sockets ≡ some socket
    → flag_of i s.canfd_flags ≡ true
    → receive_loop s raw i reads ≡ some (packets_of raw i reads)
unfolding receive_loop receive
receive_loop-packets_of s raw i [] here fd = refl
receive_loop-packets_of s raw i (none ∷ reads) here fd =
    rw (here, receive, receive_loop) (receive_loop-packets_of s raw i reads here fd)
receive_loop-packets_of s raw i (some f ∷ reads) here fd =
    let rest = receive_loop-packets_of s raw i reads here fd in
    let fd' : flag_of (new_packet raw i 0).interface s.canfd_flags ≡ true = fd in
    rw (here, receive, receive_loop, rest, fd')

-- On a newly constructed bus a thread is started for each interface of the list, also for one that could
-- not be bound, which the constructor only warns of. There the first round's exception leaves the thread
-- and ends the process, whatever there is to read; a thread for an interface that was bound hands on
-- every frame that it reads, in order, and nothing else.
pub receive_loop-new_canfd_bus :
    (bind : String → Option ℕ) (names : List String) (raw : List ℕ) (i : String)
    (read : Option Frame) (reads : List (Option Frame))
    → let s = new_canfd_bus bind names in
      Memᴰ i names
      → Memᴰ i (async_receive s)
        × (bind i ≡ none → receive_loop s raw i (read ∷ reads) ≡ none)
        × ((socket : ℕ)
            → bind i ≡ some socket
            → receive_loop s raw i reads ≡ some (packets_of raw i reads))
unfolding new_canfd_bus receive_loop receive find
receive_loop-new_canfd_bus bind names raw i read reads listed = (
  listed,
  λ unbound. rw (find-bind_all-none bind i names unbound, receive, receive_loop),
  λ socket bound.
      receive_loop-packets_of (new_canfd_bus bind names) raw i reads
        (find-bind_all-some bind i names bound listed) refl,
)
