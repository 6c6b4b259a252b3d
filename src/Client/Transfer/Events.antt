-- ===== src/Client/Transfer/Events.antt =====
-- The events of `TransService`, and how many requests and calls of handlers they make.
use project_trans.Base.{ℕ, suc, ◌+◌, ◌≡◌, ◌==◌, if◌then◌else◌}
use project_trans.Base.{Bool, ◌&&◌, Option, none, some, List, [], ◌∷◌}
use project_trans.Client.Schedule.{NetworkEndpoint}
use project_trans.Client.Transfer.{
  Kind, TransCorrelation, TransService, send_request, time_out, remove_response_handler, Handled,
  ResponseEnvelope, on_received_frame_ready,
}

-- What happens to the service, in the order in which its lock is taken.
pub data Event : Type 0 where
  send : Kind → NetworkEndpoint → Event
  time_is_over : ℕ → Event
  remove : ℕ → Event
  received : List ℕ → Event

abbrev pub log : Option Handled → List Handled → List Handled
log none hs = hs
log (some h) hs = h ∷ hs

abbrev pub is_of : (TransCorrelation → Bool) → ℕ → TransCorrelation → ℕ
is_of p id c = if (c.context.request_id == id) && p c then 1 else 0

-- How many calls were for the request of an id, with a property of its correlation?
abbrev pub handled : (TransCorrelation → Bool) → ℕ → List Handled → ℕ
handled p id [] = 0
handled p id (h ∷ hs) = is_of p id h.correlation + handled p id hs

-- How many requests were sent with the id and the property?
abbrev pub correlation_of : Kind → NetworkEndpoint → TransService → TransCorrelation
correlation_of kind endpoint s = record {
  context = record { request_id = s.request_id_counter; network_endpoint = endpoint };
  callback = kind;
}

abbrev pub sent_by : (TransCorrelation → Bool) → ℕ → Event → TransService → ℕ
sent_by p id (send kind endpoint) s = is_of p id (correlation_of kind endpoint s)
sent_by p id (time_is_over k) s = 0
sent_by p id (remove k) s = 0
sent_by p id (received bytes) s = 0

-- Does a request of the id wait for its response?
abbrev pub waits_at : (TransCorrelation → Bool) → ℕ → Option TransCorrelation → ℕ
waits_at p id none = 0
waits_at p id (some c) = is_of p id c

abbrev pub waits : (TransCorrelation → Bool) → ℕ → TransService → ℕ
waits p id s = waits_at p id (s.trans_correlations id)

-- A correlation stands under the id of its context.
abbrev pub IsKeyed : TransService → Type 0
IsKeyed s =
    (id : ℕ) (c : TransCorrelation) → s.trans_correlations id ≡ some c → c.context.request_id ≡ id

-- How many requests are sent?
abbrev pub requests : List Event → ℕ
requests [] = 0
requests (send kind endpoint ∷ es) = suc (requests es)
requests (time_is_over k ∷ es) = requests es
requests (remove k ∷ es) = requests es
requests (received bytes ∷ es) = requests es

abbrev pub called : (TransCorrelation → Bool) → ℕ → Option Handled → ℕ
called p id none = 0
called p id (some h) = is_of p id h.correlation

module _ (try_parse_response : List ℕ → Option ResponseEnvelope) where
  abbrev pub handle : Event → TransService → Option Handled × TransService
  handle (send kind endpoint) s = (none, (send_request kind endpoint s).1)
  handle (time_is_over id) s = (none, time_out id s)
  handle (remove id) s = (none, remove_response_handler id s)
  handle (received bytes) s = on_received_frame_ready try_parse_response bytes s

  -- The calls of handlers, and the service behind the events.
  abbrev pub run : List Event → TransService → List Handled × TransService
  run [] s = ([], s)
  run (e ∷ es) s = let (h, s1) = handle e s in let (hs, s2) = run es s1 in (log h hs, s2)

  abbrev pub sent : (TransCorrelation → Bool) → ℕ → List Event → TransService → ℕ
  sent p id [] s = 0
  sent p id (e ∷ es) s = sent_by p id e s + sent p id es (handle e s).1
