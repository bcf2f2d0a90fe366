-- ===== src/Dsi/Queue/Tests.antt =====
-- Runs of the request queue, and its invariant at a concrete run.
use netatalk_client.Base.{◌≡◌, refl, arith, some, [], ◌∷◌}
use netatalk_client.Server.{Server}
use netatalk_client.Server.Samples.{server_with, waiting, waiting_too}
use netatalk_client.Dsi.Queue.{
  find_request, enqueue, fail_request_queue, flush_request_queue, minus_eio,
}
use netatalk_client.Dsi.Queue.Pending.{IsQueue, QueueStep, QueueRun, run-IsQueue}

abbrev start : Server
start = server_with [] 0 (waiting ∷ [])

start-IsQueue : IsQueue start
start-IsQueue = record { counted = refl; small = omega arith; distinct = (tt, tt) }

finds_second : find_request 8 (waiting ∷ waiting_too ∷ []) ≡ some waiting_too
unfolding find_request
finds_second = refl

-- A second request is added, all are failed, and then flushed.
a_run :
    QueueRun start (flush_request_queue (fail_request_queue minus_eio (enqueue waiting_too start)))
a_run =
    QueueRun.next
      (QueueRun.next
        (QueueRun.next QueueRun.here
          (QueueStep.added waiting_too start ((λ e. omega (arith, e)), tt) (omega arith)))
        (QueueStep.failed_all minus_eio (enqueue waiting_too start)))
      (QueueStep.flushed_all (fail_request_queue minus_eio (enqueue waiting_too start)))

run-IsQueue_example :
    IsQueue (flush_request_queue (fail_request_queue minus_eio (enqueue waiting_too start)))
run-IsQueue_example =
    run-IsQueue start
      (flush_request_queue (fail_request_queue minus_eio (enqueue waiting_too start))) start-IsQueue
      a_run
