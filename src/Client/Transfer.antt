-- ===== src/Client/Transfer.antt =====
-- `TransService` of client/source/service/trans_service.cpp: which response belongs to which request. The
-- message codec and the network are parameters; a frame that is sent is not looked at here.
pub mod Events
pub mod Kept
pub mod Once
pub mod Answered
mod Tests
use project_trans.Base.{
  ℕ, suc, ◌%◌, ◌^◌, ◌+◌, ◌==◌, if◌then◌else◌, Bool, true, false, Option, none, some, List, [], ◌∷◌,
}
use project_trans.Client.Schedule.{NetworkEndpoint}

-- The three kinds of request; each has its own `send_..._request` and `receive_..._response`.
pub data Kind : Type 0 where
  test_request download_request block_request : Kind

pub record TransContext : Type 0 where
  pub request_id : ℕ
  pub network_endpoint : NetworkEndpoint

-- `callback` is the function that the lambda calls with the context.
pub record TransCorrelation : Type 0 where
  pub context : TransContext
  pub callback : Kind

pub record TransService : Type 0 where
  pub request_id_counter : ℕ
  pub trans_correlations : ℕ → Option TransCorrelation

abbrev pub new : TransService
new = record { request_id_counter = 0; trans_correlations = λ k. none }

abbrev pub correlate :
    ℕ → Option TransCorrelation → (ℕ → Option TransCorrelation) → ℕ → Option TransCorrelation
correlate id c map k = if k == id then c else map k

-- `send_test_request`, `send_download_request` and `send_block_request`, which differ in the callback and
-- in the frame. The time-out that they register is an event of its own.
unfoldable pub send_request : Kind → NetworkEndpoint → TransService → TransContext × TransService
send_request kind endpoint s =
    let request_id = s.request_id_counter in
    let context : TransContext = record { request_id = request_id; network_endpoint = endpoint } in
    (
      context,
      record {
        request_id_counter = suc request_id % 2 ^ 64;
        trans_correlations =
            correlate request_id (some (record { context = context; callback = kind }))
              s.trans_correlations;
      },
    )

-- The lambda that runs when the time of a request is over.
unfoldable pub time_out : ℕ → TransService → TransService
time_out request_id s = elim (s.trans_correlations request_id) [
  | none ↦ s
  | some c ↦ record s { trans_correlations = correlate request_id none s.trans_correlations }
]

unfoldable pub remove_response_handler : ℕ → TransService → TransService
remove_response_handler request_id s = record s {
  trans_correlations = correlate request_id none s.trans_correlations;
}

-- A response: the id of its request, and a body for the parser of the kind.
pub record ResponseEnvelope : Type 0 where
  pub request_id : ℕ
  pub body : List ℕ

-- The call of a handler.
pub record Handled : Type 0 where
  pub correlation : TransCorrelation
  pub body : List ℕ

module _ (try_parse_response : List ℕ → Option ResponseEnvelope) where
  unfoldable pub on_received_frame_ready : List ℕ → TransService → Option Handled × TransService
  on_received_frame_ready bytes s = elim (try_parse_response bytes) [
    | none ↦ (none, s)
    | some response ↦ elim (s.trans_correlations response.request_id) [
      | none ↦ (none, s)
      | some c ↦ (
        some (record { correlation = c; body = response.body }),
        record s { trans_correlations = correlate response.request_id none s.trans_correlations },
      )
    ]
  ]

-- The signal that a handler emits: none, if the body is not one of the kind.
pub record Received : Type 0 where
  pub kind : Kind
  pub context : TransContext
  pub body : List ℕ

-- `receive_test_response`, `receive_download_response` and `receive_block_response`, with the answer of
-- the parser of the kind.
unfoldable pub receive_response : (Kind → List ℕ → Bool) → Handled → Option Received
receive_response is_parsed h =
    let c = h.correlation in
    if is_parsed c.callback h.body
    then some (record { kind = c.callback; context = c.context; body = h.body })
    else none
