-- ===== src/RoutingDeamon/Threads.antt =====
-- The worker threads of src/routing_deamon.cpp, and the steps that all threads take.
use miptp_cpp.Prelude.{ℕ, ◌≡◌, Bool, false, Option, none, some, List, [], ◌∷◌, ◌++◌, if◌then◌else◌}
use miptp_cpp.Outcome.{ok}
use miptp_cpp.DistanceVectorTable.{Column, find_to}
use miptp_cpp.RoutingDeamon.{
  RoutingDeamon, start_advertisment, send_advertisment, receive_update_sock, receive_lookup_sock,
}

-- `update_thread_handler` under the mutex of its queue; `none` while the thread waits.
unfoldable pub take_update : List (Bool × ℕ) → RoutingDeamon → Option RoutingDeamon
unfolding start_advertisment
take_update [] d = none
take_update (pair ∷ queue) d = some (start_advertisment pair (record d { update_queue = queue }))

unfoldable pub advertise_next : List ℕ → RoutingDeamon → Option RoutingDeamon
unfolding take_update send_advertisment
advertise_next [] d = if d.running then take_update d.update_queue d else none
advertise_next (dest_mip ∷ rest) d = some (send_advertisment dest_mip rest d)

-- The next step of `update_thread_handler`: an advertisement to one neighbour, or the next entry.
unfoldable pub update_round : RoutingDeamon → Option RoutingDeamon
unfolding advertise_next
update_round d = advertise_next d.advertising d

-- The reply to a lookup: success and the next hop, or failure.
unfoldable pub lookup_reply : Option Column → List ℕ
lookup_reply (some column) = 1 ∷ column.via ∷ []
lookup_reply none = 0 ∷ []

-- `lookup_thread_handler` under the mutex of its queue.
unfoldable pub take_lookup : List ℕ → RoutingDeamon → Option RoutingDeamon
take_lookup [] d = none
take_lookup (mip ∷ queue) d = some (record d { lookup_queue = queue; answering = some mip })

-- The address that was taken is looked up in the table of this moment.
unfoldable pub answer_next : Option ℕ → RoutingDeamon → Option RoutingDeamon
unfolding take_lookup lookup_reply
answer_next none d = if d.running then take_lookup d.lookup_queue d else none
answer_next (some mip) d = some (record d {
  answering = none;
  lookup_written = d.lookup_written ++ lookup_reply (find_to mip d.distance_vector_table);
})

-- The next step of `lookup_thread_handler`: the reply to a question, or the next question.
unfoldable pub lookup_round : RoutingDeamon → Option RoutingDeamon
unfolding answer_next
lookup_round d = answer_next d.answering d

unfoldable pub shutdown_threads : RoutingDeamon → RoutingDeamon
shutdown_threads d = record d { running = false }

-- The steps of the main thread and of the two workers, in any order.
pub data Step (d : RoutingDeamon) (e : RoutingDeamon) : Type 0 where
  update_event : receive_update_sock d ≡ (ok tt, e) → Step d e
  lookup_event : receive_lookup_sock d ≡ (ok tt, e) → Step d e
  update_worker : update_round d ≡ some e → Step d e
  lookup_worker : lookup_round d ≡ some e → Step d e
  shutdown : e ≡ shutdown_threads d → Step d e

pub data Reach (d : RoutingDeamon) : RoutingDeamon → Type 0 where
  here : Reach d d
  next : {e f : RoutingDeamon} → Reach d e → Step e f → Reach d f
