-- ===== src/Examples/Link.antt =====
-- src/MIP_deamon.cpp at concrete inputs.
use miptp_cpp.Prelude.{
  ℕ, ◌+◌, ◌-◌, ◌<◌, ◌≡◌, ◌⊎◌, refl, true, false, some, List, [], ◌∷◌, ◌++◌, replicate, arith,
}
use miptp_cpp.Outcome.{ok, after}
use miptp_cpp.MipFrame.{MipFrame, get_mip_dest, get_mip_ttl, get_data, empty_frame}
use miptp_cpp.MipFrame.Words.{IsFrame, get_mip_dest_lem}
use miptp_cpp.MipFrame.Fields.{fields}
use miptp_cpp.RawSock.{MipRawSock, Ifaddr, af_packet, get_interface_names}
use miptp_cpp.MipDeamon.{MipDeamon, find_pair, handle_timeout}
use miptp_cpp.MipDeamon.Handlers.{is_local, receive_transport}
use miptp_cpp.MipDeamon.Arp.{
  IsArpTable, survivors, lost_notices, handle_timeout_lem, silent_neighbours_expire,
}
use miptp_cpp.MipDeamon.Events.{
  Event, transport_event, timeout_event, raw_event, lookup_event, handle_events,
  handle_events-IsArpTable,
}
use miptp_cpp.MipDeamon.Start.{init_raw_sock, opened, usable, init_raw_sock_lem}
use miptp_cpp.MipDeamon.Forwarding.{receive_transport_forwards}

abbrev interface : MipRawSock
interface = record { m_fd = 4; m_mip = 1; m_mac = 0 ∷ 0 ∷ 0 ∷ 0 ∷ 0 ∷ 1 ∷ [] }

-- Neighbour 2 has replied since the last timeout, neighbour 3 has not.
abbrev pub host : MipDeamon
host = record {
  raw_sock_vec = interface ∷ [];
  arp_pair_vec =
      record { reply = true; mip = 2; mac = 0 ∷ 0 ∷ 0 ∷ 0 ∷ 0 ∷ 2 ∷ []; sock = interface }
      ∷ record { reply = false; mip = 3; mac = 0 ∷ 0 ∷ 0 ∷ 0 ∷ 0 ∷ 3 ∷ []; sock = interface }
      ∷ [];
  lookup_queue = [];
  raw_frame = empty_frame;
  transport_frame = empty_frame;
  update_frame = empty_frame;
  response_frame = empty_frame;
  broadcast_frame = empty_frame;
  update_written = [];
  lookup_written = [];
  transport_written = [];
  frames_sent = [];
}

abbrev pub network_order : ℕ → ℕ
network_order n = n

-- A frame for host 9, with four more hops to live.
abbrev frame : MipFrame
frame = record { m_data = replicate 14 0 ++ 0b01001000 ∷ 0 ∷ 8 ∷ 0x40 ∷ replicate 4 1 }

frame-IsFrame : IsFrame frame
frame-IsFrame = record { header = omega arith; bytes = ground arith }

goes_elsewhere : is_local (get_mip_dest frame) host.raw_sock_vec ≡ false
unfolding is_local get_mip_dest
goes_elsewhere = ground (arith, get_mip_dest_lem frame)

receive_transport_forwards_example :
    ((get_mip_ttl frame ≡ 0) × (receive_transport frame host ≡ host))
    ⊎ ((0 < get_mip_ttl frame)
        × (g : MipFrame) × ((receive_transport frame host).lookup_queue
            ≡ host.lookup_queue ++ (true, g) ∷ [])
        × (fields g ≡ record (fields frame) { ttl = get_mip_ttl frame - 1 })
        × ((receive_transport frame host).lookup_written
            ≡ host.lookup_written ++ get_mip_dest frame ∷ [])
        × ((receive_transport frame host).transport_written ≡ host.transport_written)
        × ((receive_transport frame host).frames_sent ≡ host.frames_sent))
receive_transport_forwards_example =
    receive_transport_forwards frame host frame-IsFrame goes_elsewhere

handle_timeout_lem_example :
    ((handle_timeout network_order host).arp_pair_vec ≡ survivors host.arp_pair_vec)
    × ((handle_timeout network_order host).update_written
        ≡ host.update_written ++ lost_notices host.arp_pair_vec)
handle_timeout_lem_example = handle_timeout_lem network_order host

silent_neighbours_expire_example :
    (handle_timeout network_order (handle_timeout network_order host)).arp_pair_vec ≡ []
silent_neighbours_expire_example = silent_neighbours_expire network_order network_order host

host-IsArpTable : IsArpTable host.arp_pair_vec
unfolding find_pair
host-IsArpTable = ground arith

-- A packet for host 9, a timeout, a frame on the interface, and the answer that 9 is reached via 2.
abbrev events : List Event
events =
    transport_event 9 1 (7 ∷ [])
    ∷ timeout_event
    ∷ raw_event 4 (get_data frame)
    ∷ lookup_event (some 2)
    ∷ []

handle_events-IsArpTable_example :
    IsArpTable (after (handle_events network_order events host)).arp_pair_vec
handle_events-IsArpTable_example =
    handle_events-IsArpTable network_order events host host-IsArpTable

-- `lo`, `e0` and `e1`, as the kernel lists them: one for each address, and one of another family.
abbrev loopback : List ℕ
loopback = b'l' ∷ b'o' ∷ []

abbrev interfaces : List Ifaddr
interfaces =
    record { ifa_name = loopback; sa_family = some 17 }
    ∷ record { ifa_name = b'e' ∷ b'0' ∷ []; sa_family = some 17 }
    ∷ record { ifa_name = b'e' ∷ b'1' ∷ []; sa_family = some 17 }
    ∷ record { ifa_name = loopback; sa_family = some 2 }
    ∷ []

abbrev opening : List ℕ → ℕ → MipRawSock
opening name mip = record { m_fd = 4 + mip; m_mip = mip; m_mac = name ++ replicate 4 0 }

listed :
    get_interface_names (af_packet ∷ []) interfaces
    ≡ ok (loopback ∷ (b'e' ∷ b'0' ∷ []) ∷ (b'e' ∷ b'1' ∷ []) ∷ [])
unfolding get_interface_names
listed = refl

init_raw_sock_lem_example :
    init_raw_sock opening interfaces (1 ∷ 2 ∷ 3 ∷ [])
    ≡ ok (
        opened opening
          (1 ∷ 2 ∷ 3 ∷ [])
          (usable ((b'e' ∷ b'1' ∷ []) ∷ (b'e' ∷ b'0' ∷ []) ∷ loopback ∷ [])))
init_raw_sock_lem_example = init_raw_sock_lem opening interfaces (1 ∷ 2 ∷ 3 ∷ []) _ listed
