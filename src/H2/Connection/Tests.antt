-- ===== src/H2/Connection/Tests.antt =====
-- The theorems on connections at the small connection of H2/Connection/Examples.
use qhttp.Base.{
  same_bytes, ◌≤◌, ◌<◌, ◌%◌, ℕ, ◌≡◌, ◌≢◌, ◌⊎◌, ◌↔◌, ◌+◌, refl, true, false, List, [], ◌∷◌, ◌++◌,
  All, none, some, ok, arith, length,
}
use qhttp.Base.Int.{pos, checked_add, checked_sub, ◌+ℤ◌, ◌-ℤ◌}
use qhttp.Buffer
use qhttp.H2.Frame.Settings
use qhttp.H2.Frame.Headers
use qhttp.H2.Frame.Data
use qhttp.H2.Frame.WindowUpdate
use qhttp.H2.Frame.Receive
use qhttp.H2.Connection.Streams.{has, send_data}
use qhttp.H2.Connection.ReadRequest.{
  Headers, empty, is_pseudo, method_key, read_request, read_headers, read_regular, pseudo_header,
  check_pseudo, add_header_line,
}
use qhttp.H2.Connection.Opening.{handle_headers, store, open_stream, serve, start_stream}
use qhttp.H2.Connection.Frames.{handle_frame, handle_received, handle_data}
use qhttp.H2.Connection.{Connection, Request, new, write_frame}
use qhttp.H2.Connection.Loop.{greet, main_loop, step, on_tick, on_shutdown, shutdown, tick, asked}
use qhttp.H2.Connection.Requests.{Next, go_on, leave, stream_closing, handle_conn_req, give_to_peer}
use qhttp.H2.Connection.Invariant.{IsSound}
use qhttp.H2.Connection.Invariant.Loop.{handle-IsSound}
use qhttp.H2.Connection.Accounts.{total, received, granted, closings}
use qhttp.H2.Connection.Accounts.Peer.{main_loop-peer}
use qhttp.H2.Connection.Accounts.Streams.{main_loop-count}
use qhttp.H2.Connection.Accounts.Shutdown.{shutdown-ends, drain-leave, all_close}
use qhttp.H2.Connection.Answers.{Response, status_key, max_fragment, write_response}
use qhttp.H2.Connection.Answers.Fragments.{is_empty, concat, frames_of, write_response_lem}
use qhttp.H2.Connection.ReadRequest.Order.{read_headers-order}
use qhttp.H2.Connection.Opening.Fragmented.{frames_read, InOneFrame, handle_headers_iff}
use qhttp.H2.Frame.Wire.{FrameHeaderRaw}
use qhttp.H2.Connection.Core.Opening.{StartsOneOrNone, handle_headers-core}
use qhttp.H2.Frame.Headers.{HeadersFrame}
use qhttp.H2.Connection.Examples.{get_headers, surroundings, config, visit, still_open, greeted}

abbrev begun : Connection
begun = greeted (greet config surroundings (new config 0) 0)

abbrev visited : Connection
visited = still_open (main_loop config surroundings begun visit)

begun_lem : greet config surroundings (new config 0) 0 ≡ ok begun
unfolding greet new write_frame Settings.into_frame Settings.from_settings checked_sub ◌-ℤ◌
begun_lem = refl

visited_lem : main_loop config surroundings begun visit ≡ ok (go_on visited)
unfolding greet new write_frame Settings.into_frame Settings.from_settings checked_sub ◌-ℤ◌
    main_loop step on_tick handle_frame handle_received Receive.convert Headers.try_from
    Data.try_from handle_headers store open_stream serve start_stream read_request Buffer.write
    Buffer.as_ref Buffer.rotate_buffer Buffer.available_for_write Buffer.with_capacity Buffer.reset
    read_headers read_regular pseudo_header check_pseudo add_header_line same_bytes handle_data
    send_data handle_conn_req give_to_peer checked_add ◌+ℤ◌ WindowUpdate.into_frame
visited_lem = refl

handle-IsSound_example : IsSound visited
handle-IsSound_example =
    handle-IsSound config surroundings 0 visit
      (record { size = 65_535; is_size = refl; bounded = omega arith }) begun_lem visited_lem

begun_counts : (begun.peer_window ≡ pos 65_535) × (begun.open_streams ≡ 0)
unfolding greet new write_frame Settings.into_frame Settings.from_settings checked_sub ◌-ℤ◌
begun_counts = (refl, refl)

visited_counts : visited.open_streams ≡ 1
unfolding greet new write_frame Settings.into_frame Settings.from_settings checked_sub ◌-ℤ◌
    main_loop step on_tick handle_frame handle_received Receive.convert Headers.try_from
    Data.try_from handle_headers store open_stream serve start_stream read_request Buffer.write
    Buffer.as_ref Buffer.rotate_buffer Buffer.available_for_write Buffer.with_capacity Buffer.reset
    read_headers read_regular pseudo_header check_pseudo add_header_line same_bytes handle_data
    send_data handle_conn_req give_to_peer checked_add ◌+ℤ◌ WindowUpdate.into_frame
visited_counts = refl

main_loop-peer_example :
    (n : ℕ) × (visited.peer_window ≡ pos n)
    × (n + total received visit ≡ 65_535 + total granted visit)
main_loop-peer_example =
    main_loop-peer config surroundings visit begun 65_535 visited_lem (begun_counts).0

main_loop-count_example :
    visited.open_streams + total closings visit + length begun.started
    ≡ begun.open_streams + length visited.started
main_loop-count_example = main_loop-count config surroundings visit begun visited_lem

shutdown-ends_example :
    main_loop config surroundings visited (shutdown 4 ∷ asked (stream_closing 1 none) ∷ [])
    ≢ ok (go_on visited)
shutdown-ends_example =
    shutdown-ends config surroundings visited 4 (asked (stream_closing 1 none) ∷ []) visited
      (rw visited_counts (omega arith))

-- A tick during a shutdown.
abbrev draining : Connection
draining = still_open (main_loop config surroundings visited (shutdown 4 ∷ tick 5 ∷ []))

draining_lem :
    main_loop config surroundings visited (shutdown 4 ∷ tick 5 ∷ []) ≡ ok (go_on draining)
unfolding greet new write_frame Settings.into_frame Settings.from_settings checked_sub ◌-ℤ◌
    main_loop step on_tick handle_frame handle_received Receive.convert Headers.try_from
    Data.try_from handle_headers store open_stream serve start_stream read_request Buffer.write
    Buffer.as_ref Buffer.rotate_buffer Buffer.available_for_write Buffer.with_capacity Buffer.reset
    read_headers read_regular pseudo_header check_pseudo add_header_line same_bytes handle_data
    send_data handle_conn_req give_to_peer checked_add ◌+ℤ◌ WindowUpdate.into_frame on_shutdown
draining_lem = refl

abbrev last_stream : Connection
last_stream = record begun { pending_gracefull_shutdown = true; open_streams = 1 }

drain-leave_example :
    (c : Connection) × (main_loop config surroundings last_stream
        (all_close config surroundings (1 ∷ []))
      ≡ ok (leave c))
drain-leave_example = drain-leave config surroundings (1 ∷ []) last_stream refl refl (omega arith)

abbrev answer : Response
answer = record { status = 50 ∷ 48 ∷ 48 ∷ []; headers = [] }

write_response_example :
    (pieces : List (List ℕ)) × (is_empty pieces ≡ false)
    × (concat pieces ≡ 136 ∷ 137 ∷ [])
    × All (λ piece. length piece ≤ max_fragment) pieces
    × (write_response surroundings begun answer 1 true
        ≡ ok (record begun {
          encoded = begun.encoded ++ (((status_key, answer.status) ∷ []) ∷ []);
          written = begun.written ++ frames_of 1 true pieces;
        }))
write_response_example = write_response_lem surroundings (λ written f. refl) begun answer 1 true

abbrev get_request : Request
get_request = record {
  method = 71 ∷ 69 ∷ 84 ∷ [];
  uri = some (47 ∷ []);
  headers = (97 ∷ [], 98 ∷ []) ∷ [];
}

get_request_lem : read_headers surroundings empty get_headers ≡ ok get_request
unfolding read_headers read_regular pseudo_header check_pseudo add_header_line same_bytes
get_request_lem = refl

read_headers-order_example :
    (pseudo : Headers) × (regular : Headers) × (get_headers ≡ pseudo ++ regular)
    × All (λ h. is_pseudo h.0 ≡ true) pseudo
    × All (λ h. is_pseudo h.0 ≡ false) regular
    × (length get_request.headers ≡ length regular)
read_headers-order_example = read_headers-order surroundings get_headers get_request get_request_lem

abbrev headers_frame : HeadersFrame
headers_frame = record {
  stream = 1;
  end_stream = false;
  end_headers = true;
  priority = none;
  fragment = 130 ∷ [];
}

abbrev opened : Connection
opened = still_open (handle_headers config surroundings begun headers_frame [])

opened_lem : handle_headers config surroundings begun headers_frame [] ≡ ok (go_on opened)
unfolding greet new write_frame Settings.into_frame Settings.from_settings checked_sub ◌-ℤ◌
    main_loop step on_tick handle_frame handle_received Receive.convert Headers.try_from
    Data.try_from handle_headers store open_stream serve start_stream read_request Buffer.write
    Buffer.as_ref Buffer.rotate_buffer Buffer.available_for_write Buffer.with_capacity Buffer.reset
    read_headers read_regular pseudo_header check_pseudo add_header_line same_bytes handle_data
    send_data handle_conn_req give_to_peer checked_add ◌+ℤ◌ WindowUpdate.into_frame
opened_lem = refl

handle_headers-core_example :
    (1 % 2 ≡ 1)
    × ((has begun.streams 1 ≡ true) ⊎ (begun.biggest_open_stream < 1))
    × StartsOneOrNone config surroundings 1 begun opened
handle_headers-core_example =
    handle_headers-core config surroundings begun headers_frame [] opened_lem

-- A CONTINUATION frame of stream 1 with END_HEADERS.
abbrev reads : List (FrameHeaderRaw × List ℕ)
reads = (record { length = 1; type = 9; flags = 4; stream = 1 }, 130 ∷ []) ∷ []

handle_headers_iff_example :
    (handle_headers config surroundings begun headers_frame (frames_read config surroundings reads)
      ≡ ok (go_on opened))
    ↔ InOneFrame config surroundings begun headers_frame (go_on opened)
handle_headers_iff_example =
    handle_headers_iff config surroundings begun headers_frame reads (go_on opened)

-- The same block in two frames ends the connection.
two_frames :
    (next : Next)
    → handle_headers config surroundings begun
        (record headers_frame { end_headers = false })
        (frames_read config surroundings reads)
      ≢ ok next
two_frames next h =
    let split : InOneFrame config surroundings begun (record headers_frame { end_headers = false })
        next =
      (handle_headers_iff config surroundings begun (record headers_frame { end_headers = false })
          reads next).0
        h in
    let whole : false ≡ true = split.0 in absurd cc

-- A block of pseudo headers only is never checked for a path.
pathless : (req : Request) × (read_headers surroundings empty ((method_key, 71 ∷ []) ∷ []) ≡ ok req)
unfolding read_headers read_regular pseudo_header check_pseudo add_header_line same_bytes
pathless = (_, refl)

-- HEADERS of a stream that is open start a second task for it.
second_task :
    (c : Connection) × (handle_headers config surroundings opened headers_frame [] ≡ ok (go_on c))
    × (c.open_streams ≡ 2)
unfolding greet new write_frame Settings.into_frame Settings.from_settings checked_sub ◌-ℤ◌
    main_loop step on_tick handle_frame handle_received Receive.convert Headers.try_from
    Data.try_from handle_headers store open_stream serve start_stream read_request Buffer.write
    Buffer.as_ref Buffer.rotate_buffer Buffer.available_for_write Buffer.with_capacity Buffer.reset
    read_headers read_regular pseudo_header check_pseudo add_header_line same_bytes handle_data
    send_data handle_conn_req give_to_peer checked_add ◌+ℤ◌ WindowUpdate.into_frame
second_task = (_, refl, refl)
