-- ===== src/PerfLibevent.antt =====
-- dev_examples/perf_libevent/server.cpp: the callbacks of the single-threaded echo server, and the
-- event loop that calls them. A descriptor is a number; `none` stands for a negative one.
pub mod Mode
pub mod Main
pub mod Round
pub mod Read
pub mod Frame
pub mod Run
pub mod Echo
pub mod Total
use test_code.Prelude.{
  ℕ, zero, suc, ◌+◌, ◌*◌, ◌%◌, ◌^◌, Bool, true, false, Option, none, some, List, [], ◌∷◌, ◌++◌, ltb,
  leb, ◌==◌, if◌then◌else◌, length, Control, again, leave, repeat,
}
use test_code.Prelude.Map.{lookup, insert, erase, at, touch}
use test_code.Wire.{Bytes, ByteOrder, load_u32, store_u32, ntohl, htonl, fill}
use test_code.Libevent.{Libevent, Channel}

-- The two global maps, from a descriptor to `recvingHeader` and to the size of the body.
pub record Globals : Type 0 where
  pub recv_header : List (ℕ × ℕ)
  pub session_info : List (ℕ × ℕ)

-- A callback returns, or it ends the process.
pub data Called (ev : Libevent) : Type 0 where
  returned : Globals → Channel ev → Called ev
  exited : Called ev

abbrev pub max_size : ℕ
max_size = 1000

-- The variables of the loop in `readcb`.
pub record Reading (ev : Libevent) : Type 0 where
  pub globals : Globals
  pub channel : Channel ev
  pub input_len : ℕ

module _ (ev : Libevent) (o : ByteOrder) where
  -- `bd`: the length in network order, and the data.
  unfoldable pub reply : Bytes → Bytes
  reply data_bytes = store_u32 o (htonl o (length data_bytes % 2 ^ 32)) ++ data_bytes

  abbrev pub Round : Type 0
  Round = Control (Reading ev) (Called ev)

  unfoldable pub read_header : ℕ → Reading ev → Round
  read_header fd s =
      let (raw, input) = ev.remove s.channel.input 4 in
      let size = ntohl o (load_u32 o (fill 4 raw)) in
      let input_len = ev.get_length input in
      let globals : Globals = record {
        recv_header = insert fd 0 s.globals.recv_header;
        session_info = insert fd size s.globals.session_info;
      } in
      let channel : Channel ev = record s.channel { input = input } in
      if ltb max_size size
      then leave exited
      else if ltb input_len size
      then leave (returned globals channel)
      else again (record { globals = globals; channel = channel; input_len = input_len })

  unfoldable pub read_body : ℕ → ℕ → Reading ev → Round
  read_body fd size s =
      let (raw, input) = ev.remove s.channel.input size in
      let output = ev.add s.channel.output (reply (fill size raw)) in
      let input_len = ev.get_length input in
      let globals : Globals = record s.globals {
        recv_header = insert fd 1 s.globals.recv_header;
      } in
      let channel : Channel ev = record { input = input; output = output } in
      if ltb input_len 4
      then leave (returned globals channel)
      else again (record { globals = globals; channel = channel; input_len = input_len })

  -- One round of `while(input_len>0)`, its test included.
  unfoldable pub read_round : ℕ → Reading ev → Round
  read_round fd s =
      if ltb 0 s.input_len
      then if at 0 fd s.globals.recv_header == 0
        then (let size = at 0 fd s.globals.session_info in
            let globals = record s.globals { session_info = touch 0 fd s.globals.session_info } in
            if leb size s.input_len
            then read_body fd size (record s { globals = globals })
            else leave (returned globals s.channel))
        else (if leb 4 s.input_len then read_header fd s else leave (returned s.globals s.channel))
      else leave (returned s.globals s.channel)

  -- The loop's variables at its start; the reference to `_fd_recvHeader[fd]` makes an entry.
  abbrev pub reading : ℕ → Globals → Channel ev → Reading ev
  reading fd g c = record {
    globals = record g { recv_header = touch 0 fd g.recv_header };
    channel = c;
    input_len = ev.get_length c.input;
  }

  -- `none` would mean that the loop did not end within the fuel.
  unfoldable pub readcb : ℕ → Globals → Channel ev → Option (Called ev)
  readcb fd g c = repeat (suc (suc (2 * ev.get_length c.input))) (read_round fd) (reading fd g c)

-- What `error & BEV_EVENT_EOF` and so on come to.
pub record ErrorFlags : Type 0 where
  pub eof : Bool
  pub error : Bool
  pub timeout : Bool

abbrev pub econnreset : ℕ
econnreset = 104

-- `err` is EVUTIL_SOCKET_ERROR(). Only a reset forgets the session; every branch keeps the
-- bufferevent.
pub errorcb : ErrorFlags → ℕ → ℕ → Globals → Globals
errorcb flags err fd g =
    if flags.eof
    then g
    else if flags.error
    then if econnreset == err
      then record { recv_header = erase fd g.recv_header; session_info = erase fd g.session_info }
      else g
    else g

abbrev pub fd_setsize : ℕ
fd_setsize = 1024

-- The process: its globals and the bufferevents that libevent holds for it.
pub record Server (ev : Libevent) : Type 0 where
  pub globals : Globals
  pub channels : List (ℕ × Channel ev)

-- What `accept` returned.
unfoldable pub do_accept : {ev : Libevent} → Option ℕ → Server ev → Server ev
do_accept none s = s
do_accept {ev} (some fd) s = if ltb fd_setsize fd then s else record {
  globals = record s.globals { recv_header = insert fd 1 s.globals.recv_header };
  channels = insert fd (record { input = ev.empty; output = ev.empty }) s.channels;
}

-- What the event loop is told: a connection to accept, bytes that came in on a descriptor, an error.
pub data Event : Type 0 where
  accepting : Option ℕ → Event
  arriving : ℕ → Bytes → Event
  failing : ℕ → ErrorFlags → ℕ → Event

pub data Process (ev : Libevent) : Type 0 where
  alive : Server ev → Process ev
  dead : Process ev

module _ {ev : Libevent} (o : ByteOrder) where
  abbrev pub after_read : ℕ → Server ev → Option (Called ev) → Option (Process ev)
  after_read fd s none = none
  after_read fd s (some exited) = some dead
  after_read fd s (some (returned g c)) =
      some (alive (record { globals = g; channels = insert fd c s.channels }))

  -- Bytes go into the input buffer of their bufferevent, and the read callback is called. A
  -- descriptor without a bufferevent has no callback.
  unfoldable pub arrive : ℕ → Bytes → Server ev → Option (Process ev)
  arrive fd d s = elim (lookup fd s.channels) [
    | none ↦ some (alive s)
    | some c ↦ after_read fd s (readcb ev o fd s.globals (record c { input = ev.add c.input d }))
  ]

  unfoldable pub step : Server ev → Event → Option (Process ev)
  step s (accepting fd) = some (alive (do_accept fd s))
  step s (arriving fd d) = arrive fd d s
  step s (failing fd flags err) =
      some (alive (record s { globals = errorcb flags err fd s.globals }))

  -- `event_base_dispatch`: the events in the order in which they come.
  unfoldable pub run : Server ev → List Event → Option (Process ev)
  run s [] = some (alive s)
  run s (e ∷ es) = elim (step s e) [
    | none ↦ none
    | some dead ↦ some dead
    | some (alive s') ↦ run s' es
  ]
