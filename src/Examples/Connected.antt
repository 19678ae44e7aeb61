-- ===== src/Examples/Connected.antt =====
-- Two ends of a connection at a concrete run.
use miptp_cpp.Prelude.{ℕ, ◌≡◌, refl, inl, Bool, true, false, [], ◌∷◌, ◌++◌, drop, replicate, arith}
use miptp_cpp.Outcome.{after}
use miptp_cpp.ClientHandler.Handlers.{handle_sock}
use miptp_cpp.ClientHandler.Receive.{handle_timer, receive_frame}
use miptp_cpp.MiptpFrame.{empty_frame, request}
use miptp_cpp.CrossIpc.{AnonymousSocket, received, recv_failed, ewouldblock, sent}
use miptp_cpp.ClientHandler.{
  ClientHandler, type_client, type_server, stage_connected, fresh, control_frame, window_size,
}
use miptp_cpp.Connection.{
  Connection, without_front, Run, stays, goes, client_sock, client_timer, server_timer, to_server,
  lost_to_server,
}
use miptp_cpp.Connection.Fill.{replicate-IsFrame, control_frame_lem}
use miptp_cpp.Connection.Unread.{unread}
use miptp_cpp.Connection.Progress.Complete.{IsUp, Paired, Run-completes}
use miptp_cpp.Connection.Delivery.{Established, held, Run-received}

-- The sending application has written three bytes.
abbrev sending : AnonymousSocket
sending = record {
  m_closed = false;
  m_nonblock = true;
  recvs = received (5 ∷ 6 ∷ 7 ∷ []) ∷ recv_failed ewouldblock ∷ [];
  sends = [];
  written = [];
}

abbrev taking : AnonymousSocket
taking = record {
  m_closed = false;
  m_nonblock = true;
  recvs = [];
  sends = sent 3 ∷ [];
  written = 1 ∷ [];
}

-- A client with a request on the way, and the server that it is connected to.
abbrev client_end : ClientHandler
client_end = record (fresh sending 100 ((2, control_frame request 80 5 0) ∷ [])) {
  m_type = type_client;
  m_stage = stage_connected;
  m_dest_address = 2;
  m_dest_port = 80;
  m_source_port = 5;
  m_frame_window = replicate window_size empty_frame;
}

abbrev server_end : ClientHandler
server_end = record (fresh taking 100 []) {
  m_type = type_server;
  m_stage = stage_connected;
  m_dest_address = 1;
  m_dest_port = 5;
  m_source_port = 80;
}

abbrev made : Connection
made = record { client = client_end; server = server_end }

made-Established : Established (5 ∷ 6 ∷ 7 ∷ []) (1 ∷ []) made
unfolding fresh unread
made-Established = record {
  slots = record {
    window = omega arith;
    frames = omega arith;
    base = omega arith;
    ack = omega arith;
  };
  sends = (refl, inl refl);
  receives = (refl, inl refl);
  base = refl;
  used = refl;
  frames = replicate-IsFrame 10;
  whole = omega arith;
  there = (inl (control_frame_lem request 80 5 0).0, tt);
  to_send = refl;
  bytes = (omega arith, (omega arith, (omega arith, tt)));
  ack = refl;
  back = tt;
  buffer = refl;
  given = refl;
}

-- The request comes to the server, the client reads its application and sends the window when its timer
-- expires, then the server's timer expires.
abbrev every_port : ℕ → Bool
every_port port = true

abbrev ended : Connection
ended =
    let s = record made {
      client = without_front [] client_end;
      server = after (receive_frame 0 1 (control_frame request 80 5 0) server_end);
    } in
    let t = record s { client = after (handle_sock every_port 0 s.client) } in
    let u = record t { client = after (handle_timer every_port 0 t.client) } in
    record u { server = after (handle_timer every_port 0 u.server) }

run : Run made ended
unfolding fresh
run =
    goes
      (goes
        (goes (goes stays (to_server 1 (2, control_frame request 80 5 0) [] refl))
          (client_sock every_port 0))
        (client_timer every_port 0))
      (server_timer every_port 0)

Run-received_example :
    (n : ℕ) × ((ended.server.m_sock.written ++ ended.server.m_msg_buffer)
        ++ drop n (held ended.client)
      ≡ (1 ∷ []) ++ 5 ∷ 6 ∷ 7 ∷ [])
Run-received_example = Run-received (5 ∷ 6 ∷ 7 ∷ []) (1 ∷ []) made ended made-Established run

-- The request is lost.
abbrev lost : Connection
lost = record made { client = without_front [] client_end }

lost-IsUp : IsUp lost
unfolding fresh
lost-IsUp = record {
  client_stage = refl;
  server_stage = refl;
  heard = refl;
  sock = refl;
  recvs = (tt, (tt, tt));
  sends = (omega arith, tt);
}

made-Paired : Paired 2 80 1 5 made
unfolding fresh
made-Paired = ((refl, refl, refl), (refl, refl, refl))

Run-completes_example :
    (u : Connection) × Run lost u
    × (u.client.m_used_slots ≡ 0)
    × (u.server.m_sock.written ++ u.server.m_msg_buffer ≡ (1 ∷ []) ++ 5 ∷ 6 ∷ 7 ∷ [])
unfolding fresh
Run-completes_example =
    Run-completes (5 ∷ 6 ∷ 7 ∷ []) (1 ∷ []) 2 80 1 5 made lost (omega arith) (omega arith)
      made-Established made-Paired
      (goes stays (lost_to_server (2, control_frame request 80 5 0) [] refl)) lost-IsUp
