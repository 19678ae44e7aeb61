-- ===== src/MipDeamon/Events.antt =====
-- The event loop of `main` in src/MIP_deamon.cpp: which handler an event goes to.
use miptp_cpp.Prelude.{ℕ, Option, none, some, List, [], ◌∷◌, find_if, ◌==◌}
use miptp_cpp.RawSock.{MipRawSock}
use miptp_cpp.Outcome.{ok, M, continue, after, continue-after}
use miptp_cpp.MipDeamon.Arp.{IsArpTable}
use miptp_cpp.MipDeamon.Invariant.{IsArpTable-invariant}
use miptp_cpp.MipDeamon.{MipDeamon, handle_timeout}
use miptp_cpp.MipDeamon.Handlers.{
  receive_transport_sock, receive_update_sock, receive_lookup_sock, receive_raw_sock,
}

-- What `epoll.wait` reports and the handler then reads: the timer, the packet of the transport
-- daemon, the advertisement or the answer of the routing daemon, or a descriptor and its frame.
pub data Event : Type 0 where
  timeout_event : Event
  transport_event : ℕ → ℕ → List ℕ → Event
  update_event : ℕ → ℕ → List ℕ → Event
  lookup_event : Option ℕ → Event
  raw_event : ℕ → List ℕ → Event

module _ (htons : ℕ → ℕ) where
  -- A descriptor that no socket has is passed over.
  unfoldable pub on_raw : Option MipRawSock → List ℕ → M MipDeamon (Unit {0})
  on_raw none bytes d = (ok tt, d)
  on_raw (some sock) bytes d = receive_raw_sock htons sock bytes d

  unfoldable pub handle_event : Event → M MipDeamon (Unit {0})
  unfolding on_raw
  handle_event timeout_event d = (ok tt, handle_timeout htons d)
  handle_event (transport_event dest size message) d =
      (ok tt, receive_transport_sock htons dest size message d)
  handle_event (update_event dest size ad) d = (ok tt, receive_update_sock htons dest size ad d)
  handle_event (lookup_event answer) d = receive_lookup_sock htons answer d
  handle_event (raw_event in_fd bytes) d =
      on_raw (find_if (λ s. s.m_fd == in_fd) d.raw_sock_vec) bytes d

  -- Events one after the other, until a handler throws.
  unfoldable pub handle_events : List Event → M MipDeamon (Unit {0})
  unfolding handle_event
  handle_events [] d = (ok tt, d)
  handle_events (event ∷ events) d = continue (λ _. handle_events events) (handle_event event d)

  on_raw-IsArpTable :
      (sock : Option MipRawSock) (bytes : List ℕ) (d : MipDeamon)
      → IsArpTable d.arp_pair_vec
      → IsArpTable (after (on_raw sock bytes d)).arp_pair_vec
  unfolding on_raw
  on_raw-IsArpTable none bytes d v = v
  on_raw-IsArpTable (some sock) bytes d v = (IsArpTable-invariant htons d v).0 sock bytes

  handle_event-IsArpTable :
      (event : Event) (d : MipDeamon)
      → IsArpTable d.arp_pair_vec
      → IsArpTable (after (handle_event event d)).arp_pair_vec
  unfolding handle_event
  handle_event-IsArpTable timeout_event d v = (IsArpTable-invariant htons d v).4
  handle_event-IsArpTable (transport_event dest size message) d v =
      (IsArpTable-invariant htons d v).1 dest size message
  handle_event-IsArpTable (update_event dest size ad) d v =
      (IsArpTable-invariant htons d v).3 dest size ad
  handle_event-IsArpTable (lookup_event answer) d v = (IsArpTable-invariant htons d v).2 answer
  handle_event-IsArpTable (raw_event in_fd bytes) d v =
      on_raw-IsArpTable (find_if (λ s. s.m_fd == in_fd) d.raw_sock_vec) bytes d v

  -- Whatever events come, in whatever order, and whether or not a handler throws in the end: if the
  -- ARP table has one pair for each address at first, it has after them.
  pub handle_events-IsArpTable :
      (events : List Event) (d : MipDeamon)
      → IsArpTable d.arp_pair_vec
      → IsArpTable (after (handle_events events d)).arp_pair_vec
  unfolding handle_events
  handle_events-IsArpTable [] d v = v
  handle_events-IsArpTable (event ∷ events) d v =
      continue-after (λ e. IsArpTable e.arp_pair_vec) (λ _. handle_events events)
        (handle_event event d) (handle_event-IsArpTable event d v)
        (λ _. handle_events-IsArpTable events)
