-- ===== src/Examples/Threads.antt =====
-- The theorems on the threads of the server and on the response, at concrete inputs.
use apteryx.Prelude.{
  ltb, if◌then◌else◌, ok, use_after_free, ℕ, ◌≡◌, ◌≢◌, ◌↔◌, ◌≤◌, ◌<◌, ◌+◌, refl, List, [], ◌∷◌,
  ◌++◌, map, true, false, Option, none, some, fault, out_of_bounds, length, subst, sym, arith,
}
use apteryx.Rpc.Callbacks.{Callback, add_cb}
use apteryx.Rpc.Header.{Header, header_length, pack_header, htol32}
use apteryx.Rpc.Framing.{Read}
use apteryx.Examples.Buffers.{simple_buffer}
use apteryx.Rpc.Workers.{
  Worker, Loop, Threads, Addresses, LoopStep, WorkerStep, Step, Reach, begin, num_workers, copies,
  count, fds_of, dispatch, is_wake,
}
use apteryx.Rpc.Workers.Exclusive.{Reach-IsExclusive}
use apteryx.Rpc.Workers.Events.{events_of_listed}
use apteryx.Rpc.Workers.Progress.{poll_is_woken}
use apteryx.Rpc.Workers.Semaphore.{woken_finds_event, count_woken}
use apteryx.Rpc.Response.{Send, response_bytes, response_header, sends_all, invoke_client_service}
use apteryx.Rpc.Response.Delivery.{
  replicate, in_time, arrived, Breaks, invoke-response_bytes, invoke-Breaks, large_request_faults,
}
use apteryx.Client.Transport.{Response}

abbrev addresses : Addresses
addresses = record { wake_fd = 3; server_callback = 1; stop_callback = 2 }

-- One worker, no descriptor for stopping, and 4 for the socket that listens.
abbrev wake_entry : Callback
wake_entry = record { fd = 3; func = 0; data_ptr = 9 }

abbrev server_entry : Callback
server_entry = record { fd = 4; func = 1; data_ptr = 9 }

abbrev first_state : Threads
first_state = record {
  running = true;
  in_use = λ x. ltb 0 (count x (wake_entry ∷ server_entry ∷ []));
  pending = wake_entry ∷ server_entry ∷ [];
  working = [];
  wakes = 0;
  pipe = 0;
  loop = Loop.testing;
  workers = Worker.ready ∷ [];
}

begins : begin addresses 9 0 4 1 ≡ first_state
unfolding begin num_workers add_cb
begins = refl

-- A client connects: the event is passed on, and the worker runs `server_callback`.
abbrev with_loop : Loop → Threads
with_loop l = record first_state { loop = l }

abbrev handed_over : Worker → ℕ → List Callback → Loop → Threads
handed_over w n working l = record {
  running = true;
  in_use = λ x. ltb 0 (count x (wake_entry ∷ server_entry ∷ []));
  pending = wake_entry ∷ [];
  working = working;
  wakes = n;
  pipe = 0;
  loop = l;
  workers = w ∷ [];
}

passes : Reach addresses first_state (with_loop (Loop.passed (3 ∷ 4 ∷ []) (false ∷ true ∷ [])))
unfolding is_wake
passes =
    Reach.later
      (Reach.later (Reach.later Reach.here (Step.loop (LoopStep.list_events refl refl)))
        (Step.loop (LoopStep.poll (3 ∷ 4 ∷ []) (false ∷ true ∷ []) refl refl)))
      (Step.loop (LoopStep.unchanged (3 ∷ 4 ∷ []) (false ∷ true ∷ []) refl refl refl))

hands_over :
    Reach addresses first_state (handed_over Worker.woken 0 (server_entry ∷ []) Loop.testing)
unfolding dispatch
hands_over =
    Reach.later
      (Reach.later
        (Reach.later passes (
          Step.loop (
            LoopStep.process (3 ∷ 4 ∷ []) (false ∷ true ∷ []) (wake_entry ∷ []) (server_entry ∷ [])
              refl refl)))
        (Step.worker [] [] refl (WorkerStep.enter refl)))
      (Step.worker [] [] refl (WorkerStep.sem_wait 0 refl))

-- The worker runs the callback while the main loop polls the pipe alone.
polls :
    Reach addresses first_state
      (handed_over (Worker.returned server_entry) 0 [] (Loop.polling (3 ∷ [])))
polls =
    Reach.later
      (Reach.later
        (Reach.later hands_over
          (Step.worker [] [] refl (WorkerStep.take_event server_entry [] refl)))
        (Step.loop (LoopStep.list_events refl refl)))
      (Step.worker [] [] refl (WorkerStep.return_0 server_entry (λ e. absurd (omega (arith, e)))))

-- The entry is back in the list, and the pipe not yet written.
polls_old_list :
    Reach addresses first_state (record (handed_over Worker.waking 0 [] (Loop.polling (3 ∷ []))) {
      pending = wake_entry ∷ server_entry ∷ [];
    })
unfolding add_cb
polls_old_list = Reach.later polls (Step.worker [] [] refl (WorkerStep.give_back server_entry))

-- The same, where the worker comes between the test for a changed list and the lock: the main loop
-- reads the second of one event.
overruns : Reach addresses first_state (record (handed_over Worker.waking 0 [] Loop.overrun) {
  pending = wake_entry ∷ server_entry ∷ [];
})
unfolding add_cb dispatch is_wake
overruns =
    Reach.later
      (Reach.later
        (Reach.later (Reach.later polls (Step.loop (LoopStep.poll (3 ∷ []) (false ∷ []) refl refl)))
          (Step.loop (LoopStep.unchanged (3 ∷ []) (false ∷ []) refl refl refl)))
        (Step.worker [] [] refl (WorkerStep.give_back server_entry)))
      (Step.loop (LoopStep.overread (3 ∷ []) (false ∷ []) refl refl))

from_begin :
    (s : Threads) → Reach addresses first_state s → Reach addresses (begin addresses 9 0 4 1) s
from_begin s r = subst (λ t. Reach addresses t s) (sym begins) r

abbrev passing : Threads
passing = with_loop (Loop.passed (3 ∷ 4 ∷ []) (false ∷ true ∷ []))

Reach-IsExclusive_example : copies passing 4 ≤ (if passing.in_use 4 then 1 else 0)
Reach-IsExclusive_example =
    Reach-IsExclusive addresses 9 0 4 1 passing (λ e. absurd (omega (arith, e)))
      (λ e. absurd (omega (arith, e))) (λ e. absurd (omega (arith, e))) (from_begin passing passes)
      4

abbrev the_fds : List ℕ
the_fds = 3 ∷ 4 ∷ []

events_of_listed_example :
    (length (false ∷ true ∷ []) ≡ length the_fds)
    × ((extra : List ℕ) × (fds_of passing.pending ≡ the_fds ++ extra))
    × ((dispatch (false ∷ true ∷ []) passing.pending ≡ fault out_of_bounds)
        ↔ (length the_fds ≢ length passing.pending))
events_of_listed_example =
    events_of_listed addresses 9 0 4 1 passing the_fds (false ∷ true ∷ [])
      (from_begin passing passes) refl

abbrev polling_old : Threads
polling_old = record (handed_over Worker.waking 0 [] (Loop.polling (3 ∷ []))) {
  pending = wake_entry ∷ server_entry ∷ [];
}

poll_is_woken_example :
    (t : Threads) × Reach addresses polling_old t × (t.loop ≡ Loop.polling (3 ∷ [])) × (0 < t.pipe)
poll_is_woken_example =
    poll_is_woken addresses 9 0 4 1 polling_old (3 ∷ []) (from_begin polling_old polls_old_list)
      refl (λ e. cc e)

abbrev woken_one : Threads
woken_one = handed_over Worker.woken 0 (server_entry ∷ []) Loop.testing

woken_finds_event_example :
    (cb : Callback) × (rest : List Callback) × (woken_one.working ≡ cb ∷ rest)
    × (woken_one.wakes + count_woken woken_one.workers ≡ length woken_one.working)
woken_finds_event_example =
    woken_finds_event addresses 9 0 4 1 woken_one [] [] (from_begin woken_one hands_over) refl

-- A response of two bytes, in two reads with a pause between.
abbrev asked : Header
asked = record { method_index = 2; message_length = 5; request_id = 7 }

abbrev two_reads : List (Option (List ℕ))
two_reads =
    some (0 ∷ 0 ∷ 0 ∷ 0 ∷ 2 ∷ [])
    ∷ none
    ∷ some (0 ∷ 0 ∷ 0 ∷ 2 ∷ 0 ∷ 0 ∷ 0 ∷ 7 ∷ 0 ∷ 0 ∷ 0 ∷ 65 ∷ 66 ∷ [])
    ∷ []

two_reads_whole : arrived two_reads ≡ response_bytes asked (65 ∷ 66 ∷ [])
unfolding response_bytes response_header pack_header htol32
two_reads_whole = refl

-- A request without bytes behind its header.
one_send : sends_all (Send.took 12 ∷ []) (header_length + length {A = ℕ} []) ≡ some true
unfolding sends_all
one_send = refl

invoke-response_bytes_example :
    invoke_client_service some simple_buffer asked
      (some [])
      (Send.took 12 ∷ [])
      (map in_time two_reads)
    ≡ ok (some (Response.result (65 ∷ 66 ∷ [])))
invoke-response_bytes_example =
    invoke-response_bytes some simple_buffer asked [] (Send.took 12 ∷ []) (65 ∷ 66 ∷ []) two_reads
      (65 ∷ 66 ∷ []) (omega arith) (omega arith) (omega arith) (omega arith) refl one_send
      two_reads_whole

-- The connection is closed after the first read.
first_part :
    arrived (some (0 ∷ 0 ∷ 0 ∷ 0 ∷ 2 ∷ []) ∷ [])
      ++ (0 ∷ 0 ∷ 0 ∷ 2 ∷ 0 ∷ 0 ∷ 0 ∷ 7 ∷ 0 ∷ 0 ∷ 0 ∷ 65 ∷ 66 ∷ [])
    ≡ response_bytes asked (65 ∷ 66 ∷ [])
unfolding response_bytes response_header pack_header htol32
first_part = refl

invoke-Breaks_example :
    invoke_client_service some simple_buffer asked
      (some [])
      (Send.took 12 ∷ [])
      (map in_time (some (0 ∷ 0 ∷ 0 ∷ 0 ∷ 2 ∷ []) ∷ []) ++ (Read.closed, false) ∷ [])
    ≡ ok (some Response.null_result)
invoke-Breaks_example =
    invoke-Breaks some simple_buffer asked [] (Send.took 12 ∷ []) (65 ∷ 66 ∷ [])
      (some (0 ∷ 0 ∷ 0 ∷ 0 ∷ 2 ∷ []) ∷ [])
      (0 ∷ 0 ∷ 0 ∷ 2 ∷ 0 ∷ 0 ∷ 0 ∷ 7 ∷ 0 ∷ 0 ∷ 0 ∷ 65 ∷ 66 ∷ []) (Read.closed, false) (omega arith)
      (omega arith) (omega arith) (omega arith) one_send first_part (λ e. cc e)
      (Breaks.closed false)

-- A message of 501 bytes.
abbrev long_input : List ℕ
long_input = replicate 501 1

long_send : sends_all (Send.took 513 ∷ []) (header_length + length long_input) ≡ some true
unfolding sends_all
long_send = refl

large_request_faults_example :
    invoke_client_service some simple_buffer asked
      (some long_input)
      (Send.took 513 ∷ [])
      (replicate 1 (Read.again, false) ++ (Read.bytes (0 ∷ []), false) ∷ [])
    ≡ fault use_after_free
large_request_faults_example =
    large_request_faults some simple_buffer asked long_input (Send.took 513 ∷ []) 1 (0 ∷ []) []
      (omega arith) long_send (λ e. cc e)
