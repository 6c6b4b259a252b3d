-- ===== src/Session/Tests.antt =====
-- A message that goes out in two writes and is read in two rounds.
use project_trans.Base.{◌<◌, ◌^◌}
use project_trans.Concurrent.Mpmc.{Call}
use project_trans.Frame.Stream.{Splits}
use project_trans.Frame.Refine.{IsValid, new-IsValid}
use project_trans.Frame.Deliver.{concat, frames-Splits}
use project_trans.Session.Exchange.{message-IsFrame}
use project_trans.Session.Writable.{set_context}
use project_trans.Session.Readable.{frames_of, readable_event, run_calls, readable_event-hands_over}
use project_trans.Base.{
  ℕ, ◌+◌, ◌≡◌, refl, arith, some, List, [], ◌∷◌, ◌++◌, true, length, take, drop, length-append, ap,
  ◌∙◌,
}
use project_trans.Binary.{little, big, low_first}
use project_trans.Binary.Order.{high_first}
use project_trans.Codec.DataType.{has_flag}
use project_trans.Codec.Header
use project_trans.Codec.Header.Wire
use project_trans.Codec.Header.{write_header}
use project_trans.Codec.Field.{SerializeField}
use project_trans.Codec.Field.Wire.{wire, wire_length}
use project_trans.Codec.Message.{default_config, new, string_field}
use project_trans.Codec.Message.Build.{wires}
use project_trans.Codec.Message.RoundTrip.{IsMessage, message, message-wire}
use project_trans.Codec.Message.Values.{string_field-IsField}
use project_trans.Session.{
  Syscall, took, interrupted, would_block, error, ok, Sender, connected, write, socket_write,
  write_some_loop, after_write,
}
use project_trans.Frame
use project_trans.Frame.{FrameAssembler, read_rounds}
use project_trans.Frame.Refine.{pending}
use project_trans.Frame.Deliver.{all_bytes}
use project_trans.Session.Stream.{Sends, idle, then_write, Sends-split, on_wire}
use project_trans.Session.Exchange.{messages, deserialize_each, holding_each, exchange, Outgoing}
use project_trans.Session.{error}
use project_trans.Base.{drop_all, length-drop, append-nil, take-append-drop, ◌≢◌}
use project_trans.Binary.{big}
use project_trans.Codec.Message.{new}
use project_trans.Concurrent.Mpmc
use project_trans.Base.{false}
use project_trans.MailBox.{PosixFrame, find}
use project_trans.Base.{if◌then◌else◌, ◌==◌, none}
use project_trans.Session.Writable.{
  Connection, EventLoop, frame_bytes, Flushed, IsFlushed, writable_event, writable_event-IsFlushed,
}

-- A text named "s".
abbrev text_field : SerializeField
unfolding string_field
text_field = string_field (104 ∷ 105 ∷ []) (115 ∷ [])

text_field-IsMessage : IsMessage default_config (text_field ∷ [])
unfolding string_field wires wire wire_length high_first low_first has_flag
text_field-IsMessage =
    let (ok_, sized_) =
      string_field-IsField (104 ∷ 105 ∷ []) (115 ∷ []) (omega arith) (omega arith) in
    record {
      well_formed = (ok_, tt);
      sized = (sized_, tt);
      accepted = (record { name_ok = omega arith; value_ok = omega arith }, tt);
      few = omega arith;
      small = omega arith;
    }

abbrev greeting : Outgoing
greeting = (default_config, text_field ∷ []) ∷ []

abbrev bytes : List ℕ
bytes = message little default_config (text_field ∷ [])

bytes_size : length bytes ≡ 27
unfolding string_field wires wire wire_length high_first low_first has_flag
bytes_size =
    let (h, v, e, l) = message-wire little default_config (text_field ∷ []) text_field-IsMessage in
    ap length e
    ∙ length-append (Header.Wire.wire h) (wires (text_field ∷ []))
    ∙ omega (arith, Header.Wire.length-wire h)

-- The system takes ten bytes, and then the seventeen that are left.
abbrev first_calls : List Syscall
first_calls = interrupted ∷ took 10 ∷ would_block ∷ []

abbrev second_calls : List Syscall
second_calls = took 17 ∷ []

abbrev keeping : List ℕ → Sender
keeping buffer = record { is_open = true; write_buffer = buffer }

first_write :
    (b : List ℕ)
    → length b ≡ 27
    → write (b ∷ []) first_calls connected
      ≡ some (record { value = some (0 + 10); level = ok }, keeping (drop 10 (b ++ [])))
unfolding write socket_write write_some_loop after_write
first_write b h =
    let whole : length (b ++ []) ≡ 27 = omega (arith, length-append b [], h) in rw whole refl

second_write :
    (b : List ℕ)
    → length b ≡ 17
    → write [] second_calls (keeping b)
      ≡ some (record { value = some (0 + 17); level = ok }, keeping (drop 17 (b ++ [])))
unfolding write socket_write write_some_loop after_write
second_write b h =
    let whole : length (b ++ []) ≡ 17 = omega (arith, length-append b [], h) in rw whole refl

abbrev kept_first : List ℕ
kept_first = drop 10 (bytes ++ [])

kept_size : length kept_first ≡ 17
kept_size = length-drop 10 (bytes ++ []) ∙ omega (arith, length-append bytes [], bytes_size)

abbrev final : Sender
final = keeping (drop 17 (kept_first ++ []))

abbrev wire_bytes : List ℕ
wire_bytes =
    on_wire first_calls (bytes ++ []) 0 (length (bytes ++ []))
    ++ (on_wire second_calls (kept_first ++ []) 0 (length (kept_first ++ [])) ++ [])

not_error : ok ≢ error
not_error e = cc e

sends : Sends connected (messages little greeting) wire_bytes final
sends =
    then_write (bytes ∷ []) [] first_calls _ (record { value = some (0 + 10); level = ok })
      (keeping kept_first) (omega (arith, length-append bytes [], bytes_size), tt)
      (first_write bytes bytes_size) not_error
      (then_write [] [] second_calls [] (record { value = some (0 + 17); level = ok }) final
        (omega (arith, length-append kept_first [], kept_size), tt)
        (second_write kept_first kept_size) not_error idle)

flushed : drop 17 (kept_first ++ []) ≡ []
flushed = drop_all (kept_first ++ []) 17 (omega (arith, length-append kept_first [], kept_size))

wire_size : length wire_bytes ≡ 27
wire_size =
    let split = ap length (Sends-split sends) in
    omega (
      arith,
      split,
      length-append wire_bytes (drop 17 (kept_first ++ [])),
      ap length flushed,
      length-append bytes [],
      bytes_size,
    )

-- The first five bytes come in one round, the others in a second one.
abbrev rounds : List (List (List ℕ))
rounds = (take 5 wire_bytes ∷ []) ∷ (drop 5 wire_bytes ∷ []) ∷ []

same_bytes : all_bytes rounds ≡ wire_bytes
same_bytes = two_rounds wire_bytes
  where
    two_rounds : (w : List ℕ) → (take 5 w ++ []) ++ ((drop 5 w ++ []) ++ []) ≡ w
    two_rounds w =
        rw (append-nil (take 5 w), append-nil (drop 5 w), append-nil (drop 5 w))
          (take-append-drop 5 w)

exchange_example :
    (frames : List (List ℕ)) × (r : FrameAssembler) × (read_rounds big rounds Frame.new
      ≡ some (frames, r))
    × (pending r ≡ [])
    × (frames ≡ messages little greeting)
    × (deserialize_each big (new default_config) frames
        ≡ holding_each little (new default_config) greeting)
exchange_example =
    exchange little big greeting wire_bytes final rounds (new default_config)
      (text_field-IsMessage, tt) sends flushed same_bytes (omega (arith, wire_size))

Sends-split_example : wire_bytes ++ final.write_buffer ≡ [] ++ (bytes ++ [])
Sends-split_example = Sends-split sends

-- Two frames wait for one connection, of which the system takes one byte, and one for another.
abbrev waiting_frames : List PosixFrame
waiting_frames =
    record { connect_id = 8; bytes = 1 ∷ 2 ∷ [] } ∷ record { connect_id = 8; bytes = 3 ∷ [] } ∷ []

abbrev connection : Connection
connection = record { connect_id = 8; sender = connected; assembler = Frame.new }

abbrev event_loop : EventLoop
event_loop = record {
  connect_contexts = λ k. if k == 5 then some connection else none;
  mail_box = record {
    has_event_handle = false;
    events = 0;
    to_server = Mpmc.new 50;
    to_client = (9, record { connect_id = 9; bytes = 4 ∷ [] } ∷ []) ∷ (8, waiting_frames) ∷ [];
  };
}

abbrev one_byte : List Syscall
one_byte = took 1 ∷ would_block ∷ []

partial_write :
    write (frame_bytes waiting_frames) one_byte connected
    ≡ some (record { value = some 1; level = ok }, keeping (2 ∷ 3 ∷ []))
unfolding write socket_write write_some_loop after_write
partial_write = refl

queued : find 8 event_loop.mail_box.to_client ≡ some waiting_frames
unfolding find
queued = refl

writable_event-IsFlushed_example :
    (out : Flushed) × (writable_event 3 5 one_byte event_loop ≡ some out)
    × IsFlushed 5 connection
        (record { value = some 1; level = ok })
        (keeping (2 ∷ 3 ∷ []))
        event_loop
        out
writable_event-IsFlushed_example =
    writable_event-IsFlushed 5 one_byte event_loop connection waiting_frames
      (record { value = some 1; level = ok }) (keeping (2 ∷ 3 ∷ [])) refl queued partial_write

-- The message comes in on the same connection.
nothing_pending : pending Frame.new ≡ []
unfolding pending
nothing_pending = refl

whole_message : Splits little (pending Frame.new ++ concat (bytes ∷ [])) (bytes ∷ []) []
unfolding pending
whole_message =
    frames-Splits little (bytes ∷ [])
      (message-IsFrame little little default_config (text_field ∷ []) text_field-IsMessage, tt)

message_short : length (pending Frame.new) + length (concat (bytes ∷ [])) < 2 ^ 32
message_short = omega (arith, ap length nothing_pending, ap length (append-nil bytes), bytes_size)

readable_event-hands_over_example :
    (s : FrameAssembler) × (calls : List (Call PosixFrame)) × (readable_event little
        (bytes ∷ [])
        false
        5
        event_loop
      ≡ some (set_context 5 (some (record connection { assembler = s })) event_loop, calls))
    × (pending s ≡ [])
    × IsValid little s
    × (run_calls calls event_loop.mail_box ≡ record event_loop.mail_box {
      to_server = record event_loop.mail_box.to_server { items = [] ++ frames_of 8 (bytes ∷ []) };
    })
readable_event-hands_over_example =
    readable_event-hands_over little (bytes ∷ []) 5 event_loop connection (bytes ∷ []) [] refl
      (new-IsValid little) message_short whole_message refl (omega arith)
