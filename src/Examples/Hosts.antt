-- ===== src/Examples/Hosts.antt =====
-- The two daemons of src/MIP_deamon.cpp and src/routing_deamon.cpp at a concrete run.
use miptp_cpp.Prelude.{ℕ, ◌≡◌, refl, Bool, none, some, List, [], ◌∷◌, ◌++◌, replicate, arith}
use miptp_cpp.Outcome.{ok}
use miptp_cpp.CrossIpc.{read, le_value}
use miptp_cpp.DistanceVectorTable.{Table, find_to}
use miptp_cpp.RoutingDeamon.{RoutingDeamon, receive_lookup_sock}
use miptp_cpp.RoutingDeamon.Threads.{lookup_round, answer_next, take_lookup, lookup_reply}
use miptp_cpp.MipFrame.{MipFrame, get_mip_dest, empty_frame}
use miptp_cpp.MipFrame.Words.{IsFrame}
use miptp_cpp.MipDeamon.Handlers
use miptp_cpp.MipDeamon.Events.{Event, transport_event, timeout_event, raw_event, handle_event}
use miptp_cpp.Host.{
  Host, on_event, on_question, on_reply, answer_bytes, on_answer, Run, here, next, Held, mip_event,
  routing_question, routing_reply,
}
use miptp_cpp.Host.Matching.{IsStart, answer_for_front}
use miptp_cpp.Host.Answers.{next_hop}
use miptp_cpp.Examples.Link
use miptp_cpp.Examples.Routing

abbrev fresh : Host
fresh = record { mip = Link.host; routing = Routing.host; to_routing = []; to_mip = [] }

empty_frame-IsFrame : IsFrame empty_frame
unfolding empty_frame
empty_frame-IsFrame = record { header = omega arith; bytes = ground arith }

fresh-IsStart : IsStart fresh
fresh-IsStart = ((empty_frame-IsFrame, empty_frame-IsFrame), refl, refl, refl, refl)

-- A packet for host 4 comes from the transport daemon, and the routing daemon is asked.
abbrev sent : Host
sent = on_event Link.network_order (transport_event 4 1 (7 ∷ [])) fresh

abbrev queued : Host
queued = on_question 4 [] sent

-- The worker takes the question, and answers: by way of neighbour 2.
abbrev looking : RoutingDeamon
looking = record (queued.routing) { lookup_queue = []; answering = some 4 }

abbrev taken : Host
taken = on_reply looking queued

abbrev answering : RoutingDeamon
answering = record looking { answering = none; lookup_written = 1 ∷ 2 ∷ [] }

abbrev answered : Host
answered = on_reply answering taken

sent_question : sent.to_routing ≡ 4 ∷ []
unfolding on_event handle_event Handlers.receive_transport_sock Handlers.is_local
    Handlers.enqueue_lookup
sent_question = refl

takes : lookup_round queued.routing ≡ some looking
unfolding on_question on_event lookup_round answer_next take_lookup receive_lookup_sock read
    le_value
takes = refl

replies : lookup_round taken.routing ≡ some answering
unfolding on_reply lookup_round answer_next lookup_reply find_to on_question receive_lookup_sock
    read on_event
replies = refl

answered_bytes : answered.to_mip ≡ answer_bytes (some 2) ++ []
unfolding on_reply on_question on_event answer_bytes receive_lookup_sock read
answered_bytes = refl

abbrev run : Run Link.network_order fresh answered
run =
    next
      (next
        (next (next here (mip_event (transport_event 4 1 (7 ∷ [])) (omega arith, omega arith) refl))
          (routing_question 4 [] sent_question refl))
        (routing_reply looking takes refl))
      (routing_reply answering replies refl)

answer_for_front_example :
    (entry : Bool × MipFrame) × (queue : List (Bool × MipFrame)) × (t : Table)
    × (answered.mip.lookup_queue ≡ entry ∷ queue)
    × Held run t
    × (some 2 ≡ next_hop (find_to (get_mip_dest entry.1) t))
    × ((Handlers.receive_lookup_sock Link.network_order (some 2) answered.mip).0 ≡ ok tt)
    × ((on_answer Link.network_order (some 2) [] answered).mip.lookup_queue ≡ queue)
answer_for_front_example = answer_for_front run (some 2) [] fresh-IsStart answered_bytes

-- An advertisement of host 2 to host 1: one column, for host 5.
abbrev advert_frame : List ℕ
advert_frame = replicate 14 0 ++ 0b00001010 ∷ 0x10 ∷ 0x10 ∷ 0x40 ∷ 1 ∷ 0 ∷ 5 ∷ 1 ∷ []

abbrev events : List Event
events = raw_event 4 advert_frame ∷ timeout_event ∷ []
