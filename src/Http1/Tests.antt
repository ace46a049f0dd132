-- ===== src/Http1/Tests.antt =====
-- A body of five bytes: two are in the buffer of the connection, three arrive.
use qhttp.Base.{
  ℕ, ◌≡◌, ◌≤◌, ◌<◌, ◌⊎◌, refl, true, false, List, [], ◌∷◌, ◌++◌, Option, none, some, ok, err, arith,
  length, take, IoError,
}
use qhttp.Buffer.{Buffer, with_capacity}
use qhttp.Buffer.Contents.{IsValid, contents, capacity}
use qhttp.H2.Reader.{bytes}
use qhttp.Http1.Writer.{Http, write_all, flush, write_status_line, write_continue_inner}
use qhttp.Http1.Bodies.{
  Connection, BackgroundRead, request_body_buf, new, handle_background_read_req, ask_for_body,
  read_bodies,
}
use qhttp.Http1.Bodies.Order.{ahead, IsStopped, IsReady, Fed}
use qhttp.Http1.Bodies.Service.{handle_background_read_req-Fed}
use qhttp.Http1.Bodies.Polls.{InUse, unread}
use qhttp.Http1.Bodies.InOrder.{CanAsk, total, read_bodies-in_order}
use qhttp.Http1.Bodies.OldBytes.{read_bodies-old_bytes}

data OneVersion : Type 0 where
  http_11 : OneVersion

data OneStatus : Type 0 where
  status_100 : OneStatus

-- "HTTP/1.1", "100" and "Continue"
abbrev texts : Http
texts = record {
  Version = OneVersion;
  Status = OneStatus;
  version_text = λ v. b'H' ∷ b'T' ∷ b'T' ∷ b'P' ∷ b'/' ∷ b'1' ∷ b'.' ∷ b'1' ∷ [];
  status_text = λ s. b'1' ∷ b'0' ∷ b'0' ∷ [];
  canonical_reason = λ s. some (b'C' ∷ b'o' ∷ b'n' ∷ b't' ∷ b'i' ∷ b'n' ∷ b'u' ∷ b'e' ∷ []);
  continue = OneStatus.status_100;
}

-- A writer that takes everything.
abbrev never : List ℕ → Option IoError
never written = none

abbrev two_and_three : Connection
two_and_three = record {
  buffer = record { inner = 1 ∷ 2 ∷ 0 ∷ 0 ∷ []; write_pointer = 2; read_pointer = 0 };
  arrivals = bytes (3 ∷ 4 ∷ 5 ∷ []) ∷ [];
  written = [];
  expects_continue = true;
}

abbrev body : Buffer
body = with_capacity 4

two_and_three-IsReady : IsReady two_and_three
two_and_three-IsReady = record {
  valid = record { ordered = omega arith; in_range = omega arith; small = omega arith };
  some_room = omega arith;
  fed = omega arith;
}

body-IsValid : IsValid body
unfolding with_capacity
body-IsValid = record { ordered = omega arith; in_range = omega arith; small = omega arith }

body-length : length (contents body) < capacity body
unfolding with_capacity
body-length = omega arith

handle_background_read_req-Fed_example :
    ((c₁ : Connection) × (c' : Connection) × (b : Buffer) × (handle_background_read_req never texts
          OneVersion.http_11 two_and_three body 3
        ≡ ok (c', b))
      × (ask_for_body never texts OneVersion.http_11 two_and_three ≡ ok c₁)
      × Fed c₁ body 3 c' b
      × (ahead c₁ ≡ ahead two_and_three)
      × (c'.expects_continue ≡ false))
    ⊎ ((o : Option IoError) × (handle_background_read_req never texts OneVersion.http_11
            two_and_three body 3
          ≡ err o)
        × ((IsStopped two_and_three.arrivals × (length (contents two_and_three.buffer) < 3))
            ⊎ ((two_and_three.expects_continue ≡ true)
                × (e : IoError) × (write_continue_inner never texts OneVersion.http_11
                      two_and_three.written
                    ≡ err e))))
handle_background_read_req-Fed_example =
    handle_background_read_req-Fed never texts OneVersion.http_11 two_and_three body 3
      two_and_three-IsReady body-IsValid (omega arith) body-length

new-InUse : InUse (new body)
unfolding new with_capacity
new-InUse = record { body = body; present = refl; valid = body-IsValid; some_room = omega arith }

two_and_three-CanAsk : CanAsk never texts OneVersion.http_11 two_and_three
unfolding write_continue_inner write_status_line write_all flush
two_and_three-CanAsk asked = (_, refl)

enough : total (2 ∷ 1 ∷ 2 ∷ []) ≤ length (unread (new body).buffer ++ ahead two_and_three)
unfolding new with_capacity
enough = omega arith

read_bodies-in_order_example :
    (r' : BackgroundRead) × (c' : Connection) × (put : List ℕ) × (read_bodies never texts
        OneVersion.http_11
        (2 ∷ 1 ∷ 2 ∷ [])
        (new body)
        two_and_three
      ≡ ok (r', c', put))
    × (put ++ (unread r'.buffer ++ ahead c') ≡ unread (new body).buffer ++ ahead two_and_three)
    × (length {A = ℕ} (2 ∷ 1 ∷ 2 ∷ []) ≤ length put)
    × (length put ≤ total (2 ∷ 1 ∷ 2 ∷ []))
read_bodies-in_order_example =
    read_bodies-in_order never texts OneVersion.http_11 (2 ∷ 1 ∷ 2 ∷ []) (new body) two_and_three
      new-InUse two_and_three-IsReady two_and_three-CanAsk (omega arith) enough

-- The vector of an earlier body, whose bytes are 8, 8, 8.
read_bodies-old_bytes_example :
    (r' : BackgroundRead) × (c' : Connection) × (put : List ℕ) × (read_bodies never texts
        OneVersion.http_11
        (2 ∷ 1 ∷ [])
        (new (request_body_buf (some (8 ∷ 8 ∷ 8 ∷ [])) 16))
        two_and_three
      ≡ ok (r', c', put))
    × (put ≡ take (length put) (8 ∷ 8 ∷ 8 ∷ []))
    × (length {A = ℕ} (2 ∷ 1 ∷ []) ≤ length put)
read_bodies-old_bytes_example =
    read_bodies-old_bytes never texts OneVersion.http_11 (some (8 ∷ 8 ∷ 8 ∷ [])) 16 (2 ∷ 1 ∷ [])
      two_and_three (omega arith) (omega arith) two_and_three-IsReady two_and_three-CanAsk
      (omega arith) (omega arith)
