-- ===== src/MipDeamon/Start.antt =====
-- The start of src/MIP_deamon.cpp: the interfaces of the host, the raw sockets and the first
-- messages of `main`. The kernel's list of interfaces and the opening of a socket are parameters.
use miptp_cpp.Prelude.{
  ℕ, ◌≡◌, refl, sym, ap, ◌∙◌, Bool, true, false, List, [], ◌∷◌, ◌++◌, map, append-nil, append_assoc,
  Bool-cases, inl, inr, ◌==◌, if◌then◌else◌,
}
use mathlib.Core.List.{reverse, map-append}
use miptp_cpp.MipDeamon.Arp.{broadcast_all_keeps}
use miptp_cpp.RawSock.{MipRawSock, Ifaddr, get_interface_names, af_packet}
use miptp_cpp.RoutingDeamon.{local_mip}
use miptp_cpp.Outcome.{Outcome, ok, throw}
use miptp_cpp.MipDeamon.{
  MipDeamon, write_update, send_local_mip, send_mip_frame, send_broadcast_frame, broadcast_all,
}

-- `name == "lo"`
unfoldable pub is_lo : List ℕ → Bool
is_lo (c ∷ d ∷ []) = if c == 0x6c then d == 0x6f else false
is_lo _ = false

module _ (open_sock : List ℕ → ℕ → MipRawSock) where
  -- The loop of `initRawSock` over the addresses. The first name here is the vector's `back()`.
  unfoldable pub init_loop : List ℕ → List (List ℕ) → List MipRawSock → List MipRawSock
  unfolding is_lo
  init_loop [] names socks = socks
  init_loop (mip ∷ mips) [] socks = socks
  init_loop (mip ∷ mips) (name ∷ names) socks =
      let skipped = init_loop mips (name ∷ names) socks in
      let taken = init_loop mips names (socks ++ open_sock name mip ∷ []) in
      if is_lo name then skipped else taken

  unfoldable pub init_raw_sock : List Ifaddr → List ℕ → Outcome (List MipRawSock)
  unfolding init_loop
  init_raw_sock addresses mips = elim (get_interface_names (af_packet ∷ []) addresses) [
    | ok names ↦ ok (init_loop mips (reverse names) [])
    | throw e ↦ throw e
  ]

-- The two loops of `main` before the timer is set.
unfoldable pub send_local_mips : List MipRawSock → MipDeamon → MipDeamon
unfolding send_local_mip
send_local_mips [] d = d
send_local_mips (s ∷ socks) d = send_local_mips socks (send_local_mip s.m_mip d)

unfoldable pub start : (ℕ → ℕ) → List MipRawSock → MipDeamon → MipDeamon
unfolding send_local_mips broadcast_all
start htons socks d =
    broadcast_all htons socks (send_local_mips socks (record d { raw_sock_vec = socks }))

-- The interfaces that are taken: those before the first `lo`.
pub usable : List (List ℕ) → List (List ℕ)
unfolding is_lo
usable [] = []
usable (name ∷ names) = let rest = usable names in if is_lo name then [] else name ∷ rest

-- A socket for each pair of an address and an interface.
pub opened : (List ℕ → ℕ → MipRawSock) → List ℕ → List (List ℕ) → List MipRawSock
opened open_sock [] names = []
opened open_sock (mip ∷ mips) [] = []
opened open_sock (mip ∷ mips) (name ∷ names) = open_sock name mip ∷ opened open_sock mips names

stuck_at_lo :
    (open_sock : List ℕ → ℕ → MipRawSock) (mips : List ℕ) (name : List ℕ) (names : List (List ℕ))
    (socks : List MipRawSock)
    → is_lo name ≡ true
    → init_loop open_sock mips (name ∷ names) socks ≡ socks
unfolding init_loop
stuck_at_lo open_sock [] name names socks e = refl
stuck_at_lo open_sock (mip ∷ mips) name names socks e =
    rw e (stuck_at_lo open_sock mips name names socks e)

pub opened-nil :
    (open_sock : List ℕ → ℕ → MipRawSock) (mips : List ℕ) → opened open_sock mips [] ≡ []
unfolding opened
opened-nil open_sock [] = refl
opened-nil open_sock (mip ∷ mips) = refl

init_loop_lem :
    (open_sock : List ℕ → ℕ → MipRawSock) (mips : List ℕ) (names : List (List ℕ))
    (socks : List MipRawSock)
    → init_loop open_sock mips names socks ≡ socks ++ opened open_sock mips (usable names)
unfolding init_loop usable opened
init_loop_lem open_sock [] names socks = sym (append-nil socks)
init_loop_lem open_sock (mip ∷ mips) [] socks = sym (append-nil socks)
init_loop_lem open_sock (mip ∷ mips) (name ∷ names) socks = elim (Bool-cases (is_lo name)) [
  | inl lo ↦ rw lo (stuck_at_lo open_sock mips name names socks lo ∙ sym (append-nil socks))
  | inr other ↦ rw other (
      init_loop_lem open_sock mips names (socks ++ open_sock name mip ∷ [])
      ∙ append_assoc socks (open_sock name mip ∷ []) (opened open_sock mips (usable names)))
]

-- Each address gets the last interface that is not taken yet, in the order of the addresses, until
-- the addresses or the interfaces run out, or the next interface is `lo`: from there on no address
-- gets one, whatever interfaces are left.
pub init_raw_sock_lem :
    (open_sock : List ℕ → ℕ → MipRawSock) (addresses : List Ifaddr) (mips : List ℕ)
    (names : List (List ℕ))
    → get_interface_names (af_packet ∷ []) addresses ≡ ok names
    → init_raw_sock open_sock addresses mips ≡ ok (opened open_sock mips (usable (reverse names)))
unfolding init_raw_sock
init_raw_sock_lem open_sock addresses mips names e =
    rw (e, init_raw_sock) (ap ok (init_loop_lem open_sock mips (reverse names) []))

-- What the routing daemon is told of the host's own addresses.
pub local_notices : List MipRawSock → List ℕ
local_notices [] = []
local_notices (s ∷ socks) = local_mip ∷ s.m_mip ∷ local_notices socks

send_local_mips_lem :
    (socks : List MipRawSock) (d : MipDeamon)
    → send_local_mips socks d
      ≡ record d { update_written = d.update_written ++ local_notices socks }
unfolding send_local_mips local_notices write_update
send_local_mips_lem [] d =
    ap (λ w. record d { update_written = w }) (sym (append-nil d.update_written))
send_local_mips_lem (s ∷ socks) d =
    send_local_mips_lem socks (send_local_mip s.m_mip d)
    ∙ ap (λ w. record d { update_written = w })
        (append_assoc d.update_written (local_mip ∷ s.m_mip ∷ []) (local_notices socks))

-- The sockets that frames went out on, in order.
abbrev pub senders : MipDeamon → List MipRawSock
senders d = map (λ p. p.0) d.frames_sent

senders-broadcast_all :
    (htons : ℕ → ℕ) (socks : List MipRawSock) (d : MipDeamon)
    → senders (broadcast_all htons socks d) ≡ senders d ++ socks
unfolding broadcast_all send_broadcast_frame send_mip_frame
senders-broadcast_all htons [] d = sym (append-nil (senders d))
senders-broadcast_all htons (s ∷ socks) d =
    senders-broadcast_all htons socks (send_broadcast_frame htons s d)
    ∙ ap (λ l. l ++ socks) (map-append (λ p. p.0) d.frames_sent _)
    ∙ append_assoc (senders d) (s ∷ []) socks

-- At the start the routing daemon is told of each of the host's addresses, and one frame goes out on
-- each socket, both in the order of the sockets; nobody is in the ARP table who was not there.
pub start_lem :
    (htons : ℕ → ℕ) (socks : List MipRawSock) (d : MipDeamon)
    → ((start htons socks d).update_written ≡ d.update_written ++ local_notices socks)
      × (senders (start htons socks d) ≡ senders d ++ socks)
      × ((start htons socks d).raw_sock_vec ≡ socks)
      × ((start htons socks d).arp_pair_vec ≡ d.arp_pair_vec)
unfolding start
start_lem htons socks d =
    let e = record d {
      raw_sock_vec = socks;
      update_written = d.update_written ++ local_notices socks;
    } in
    let kept = broadcast_all_keeps htons socks e in
    rw (send_local_mips_lem socks (record d { raw_sock_vec = socks }))
      (kept.1, senders-broadcast_all htons socks e, kept.2, kept.0)
