-- ===== src/Client/Transfer/Tests.antt =====
-- Two requests and their responses, where the first byte of a frame is the id and the rest the body.
use project_trans.Base.{
  ℕ, ◌≤◌, ◌≡◌, refl, arith, Bool, true, false, Option, none, some, List, [], ◌∷◌, some-injective,
  ap,
}
use project_trans.Client.Schedule.{NetworkEndpoint}
use project_trans.Client.Transfer.{
  test_request, block_request, TransCorrelation, new, send_request, ResponseEnvelope,
  on_received_frame_ready, Handled,
}
use project_trans.Client.Transfer.Events.{
  Event, send, time_is_over, received, correlation_of, run, handled, sent,
}
use project_trans.Client.Transfer.Once.{run-handled}
use project_trans.Client.Transfer.Answered.{on_received_frame_ready-send}

abbrev parse : List ℕ → Option ResponseEnvelope
parse [] = none
parse (id ∷ rest) = some (record { request_id = id; body = rest })

abbrev server : NetworkEndpoint
server = record { ip = []; port = 8080 }

-- The answers come in the other order, one of them twice.
abbrev exchange : List Event
exchange =
    send test_request server
    ∷ send block_request server
    ∷ received (1 ∷ 7 ∷ [])
    ∷ received (1 ∷ 8 ∷ [])
    ∷ received (0 ∷ 9 ∷ [])
    ∷ []

abbrev bodies : List Handled → List (List ℕ)
bodies [] = []
bodies (h ∷ hs) = h.body ∷ bodies hs

answered_once : bodies (run parse exchange new).0 ≡ (7 ∷ []) ∷ (9 ∷ []) ∷ []
unfolding send_request on_received_frame_ready
answered_once = refl

abbrev is_block : TransCorrelation → Bool
is_block c = elim c.callback [ block_request ↦ true | _ ↦ false ]

run-handled_example :
    (handled is_block 1 (run parse exchange new).0 ≤ sent parse is_block 1 exchange new)
    × (handled (λ c. true) 1 (run parse exchange new).0 ≤ 1)
run-handled_example = run-handled parse is_block 1 exchange (omega arith)

-- Another request, its response and a frame that is none come before the response.
abbrev meanwhile : List Event
meanwhile = send block_request server ∷ received (1 ∷ 7 ∷ []) ∷ received [] ∷ time_is_over 5 ∷ []

on_received_frame_ready-send_example :
    (on_received_frame_ready parse
      (0 ∷ 9 ∷ [])
      (run parse meanwhile (send_request test_request server new).1).1).0
    ≡ some (record { correlation = correlation_of test_request server new; body = 9 ∷ [] })
on_received_frame_ready-send_example =
    on_received_frame_ready-send parse test_request server new meanwhile (0 ∷ 9 ∷ [])
      (record { request_id = 0; body = 9 ∷ [] })
      (
        tt,
        (
          (λ r e q.
              let id = ap (λ (x : ResponseEnvelope). x.request_id) (some-injective _ _ e) in
              omega (arith, id, q)),
          ((λ r e q. cc e), ((λ q. omega (arith, q)), tt)),
        ),
      )
      (omega arith) refl refl
