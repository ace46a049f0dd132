-- ===== src/H2/Connection/Examples.antt =====
-- A small connection: its surroundings, its configuration and what happens to it.
use qhttp.Base.{ℕ, true, List, [], ◌∷◌, some, Result, ok, err, panic}
use qhttp.Base.Int.{pos}
use qhttp.H2.Crates.{FrameType}
use qhttp.H2.Crates.Examples.{crates}
use qhttp.H2.Settings.{default_settings}
use qhttp.H2.Frame.{Frame}
use qhttp.H2.Connection.{Config, Connection, Surroundings, ConnResult, new}
use qhttp.H2.Connection.ReadRequest.{method_key, scheme_key, path_key}
use qhttp.H2.Connection.Requests.{Next, go_on, leave, update_peer_window}
use qhttp.H2.Connection.Loop.{Event, arrived, asked, tick}

-- `GET /` with one header, whatever the block.
abbrev pub get_headers : List (List ℕ × List ℕ)
get_headers =
    (method_key, 71 ∷ 69 ∷ 84 ∷ [])
    ∷ (scheme_key, 104 ∷ [])
    ∷ (path_key, 47 ∷ [])
    ∷ (97 ∷ [], 98 ∷ [])
    ∷ []

abbrev pub surroundings : Surroundings
surroundings = record {
  lib = crates;
  writes = λ written f. true;
  decode = λ decoded block. some get_headers;
  encode = λ encoded headers. 136 ∷ 137 ∷ [];
  valid_method = λ m. true;
  valid_uri = λ u. true;
  header_name = λ n. some n;
  valid_value = λ v. true;
}

abbrev pub config : Config
config = record {
  settings = default_settings;
  settings_timeout = 5;
  ping_interval = 60;
  ping_timeout = 5;
  ping_payload = 42;
  initial_global_window_size = pos 65_535;
  request_header_buf_size = 8;
}

-- HEADERS with END_HEADERS, and DATA of three bytes, both of stream 1.
abbrev pub headers_of_1 : Frame
headers_of_1 = record {
  header = record { type = FrameType.headers; flags = 4; stream = 1 };
  payload = 130 ∷ 131 ∷ [];
}

abbrev pub data_of_1 : Frame
data_of_1 = record {
  header = record { type = FrameType.data_frame; flags = 0; stream = 1 };
  payload = 7 ∷ 8 ∷ 9 ∷ [];
}

abbrev pub visit : List Event
visit =
    arrived 1 (ok headers_of_1) []
    ∷ arrived 2 (ok data_of_1) []
    ∷ asked (update_peer_window 1 (pos 3))
    ∷ tick 3
    ∷ []

abbrev pub still_open : ConnResult Next → Connection
still_open (ok (go_on c)) = c
still_open (ok (leave c)) = c
still_open (err stopped) = stopped.connection
still_open panic = new config 0

abbrev pub greeted : Result Connection Connection → Connection
greeted (ok c) = c
greeted (err c) = c
greeted panic = new config 0
