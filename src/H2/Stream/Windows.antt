-- ===== src/H2/Stream/Windows.antt =====
-- The windows of a stream: no byte is sent that was not granted, and the bytes of a chunk are sent
-- in their order.
pub mod Progress
use qhttp.Base.{
  ℕ, zero, suc, ◌+◌, ◌-◌, ◌≡◌, ◌≤◌, ◌<◌, ◌^◌, refl, sym, ap, ◌∙◌, Bool, true, false, List, [], ◌∷◌,
  ◌++◌, append_assoc, append-nil, Option, none, some, ok, err, panic, arith, >>=-ok, if-cases, inl,
  inr, length, length-append, length-take, take, drop, take-append-drop, All, ltb, leb,
}
use qhttp.Base.Int.{ℤ, pos, negsuc, pos_part, checked_add, checked_sub, ◌+ℤ◌, ◌-ℤ◌}
use qhttp.H2.Error.{H2Error, H2Result}
use qhttp.H2.Crates.{Crates}
use qhttp.H2.Frame.{Frame}
use qhttp.H2.Frame.Data
use qhttp.H2.Connection.{StreamReq, available_window, window_update, request_body, reset}
use qhttp.H2.Connection.Requests.{
  ConnectionReq, frame, response, get_window, put_window, update_peer_window, stream_closing,
  stream_closed,
}
use qhttp.H2.Stream.{
  Stream, StreamResult, Background, Input, req, read, tell, take_body, handle_req, main_select,
}
use qhttp.H2.Stream.Body.{
  ask_for_window, data_frame, send_part, part_size, Round, part_sent, idle, use_window, send_round,
  Sending, all_sent, waiting, send_chunk, send_next,
}

-- The payloads of the frames that a stream has told the connection to write.
abbrev pub payload_of : ConnectionReq → List ℕ
payload_of (frame f) = f.payload
payload_of r = []

abbrev pub payloads : List ConnectionReq → List ℕ
payloads [] = []
payloads (r ∷ rs) = payload_of r ++ payloads rs

-- The window that the connection grants with an input.
abbrev pub grant : Input → ℕ
grant (req (available_window amount)) = pos_part amount
grant i = 0

abbrev pub grants : List Input → ℕ
grants [] = 0
grants (i ∷ inputs) = grant i + grants inputs

-- The connection only grants amounts that are not negative.
abbrev pub IsGrant : Input → Type 0
IsGrant (req (available_window amount)) = pos (pos_part amount) ≡ amount
IsGrant i = Unit {0}

pub payloads-append :
    (rs : List ConnectionReq) (r : ConnectionReq)
    → payloads (rs ++ (r ∷ [])) ≡ payloads rs ++ payload_of r
payloads-append [] r = append-nil (payload_of r)
payloads-append (q ∷ rs) r =
    ap (λ (xs : List ℕ). payload_of q ++ xs) (payloads-append rs r)
    ∙ sym (append_assoc (payload_of q) (payloads rs) (payload_of r))

-- The acquired window and the bytes sent.
abbrev pub account : Stream → ℤ × List ℕ
account s = (s.available, payloads s.sent)

-- Granting room to the peer sends no bytes.
tell-quiet :
    (s : Stream) (id : ℕ) (amount : ℤ) {s' : Stream}
    → tell s (update_peer_window id amount) ≡ ok s'
    → account s' ≡ account s
unfolding tell
tell-quiet s id amount h =
    ground
      (arith, payloads-append s.sent (update_peer_window id amount), append-nil (payloads s.sent))

take_body-quiet :
    (s : Stream) (b : Background) (content : List ℕ) {s' : Stream}
    → take_body s b content ≡ ok s'
    → account s' ≡ account s
unfolding take_body
take_body-quiet s b content h = grind (arith, tell-quiet)

handle_req-grant :
    (s : Stream) (r : StreamReq) {s' : Stream} (a : ℕ)
    → handle_req s r ≡ ok s'
    → s.available ≡ pos a
    → IsGrant (req r)
    → account s' ≡ (pos (a + grant (req r)), payloads s.sent)
unfolding handle_req checked_add ◌+ℤ◌
handle_req-grant s (available_window amount) a h p g = ground (arith, g)
handle_req-grant s (window_update amount) a h p g = ground arith
handle_req-grant s (request_body f) a h p g = grind (arith, take_body-quiet)
handle_req-grant s reset a h p g = cc

pub main_select-grant :
    (s : Stream) (i : Input) {s' : Stream} (a : ℕ)
    → main_select s i ≡ ok s'
    → s.available ≡ pos a
    → IsGrant i
    → account s' ≡ (pos (a + grant i), payloads s.sent)
unfolding main_select tell
main_select-grant s (req r) a h p g = handle_req-grant s r a h p g
main_select-grant s (read none) a h p g = ground arith
main_select-grant s (read (some amount)) a h p g =
    ground
      (arith, payloads-append s.sent (update_peer_window s.id amount), append-nil (payloads s.sent))

ask_for_window-quiet :
    (s : Stream) (needed : ℤ) {r : Stream × ℤ}
    → ask_for_window s needed ≡ ok r
    → account r.0 ≡ account s
unfolding ask_for_window tell
ask_for_window-quiet s needed h = ground (
  arith,
  payloads-append s.sent (get_window s.id needed),
  payloads-append s.sent (get_window s.id s.window),
  append-nil (payloads s.sent),
)

part_size_bounds :
    (n : ℕ) (b : ℕ) (bytes : List ℕ)
    → (part_size (suc n) (b ∷ bytes) ≤ suc n)
      × (0 < length (take (part_size (suc n) (b ∷ bytes)) (b ∷ bytes)))
      × (length (take (part_size (suc n) (b ∷ bytes)) (b ∷ bytes)) ≡ part_size (suc n) (b ∷ bytes))
part_size_bounds n b bytes = ground (arith, length-take (part_size (suc n) (b ∷ bytes)) (b ∷ bytes))

-- A round sends a part of the chunk that the acquired window covers.
pub record Part (s : Stream) (a : ℕ) (bytes rest : List ℕ) (s' : Stream) : Type 0 where
  pub left : ℕ
  pub part : List ℕ
  pub whole : part ++ rest ≡ bytes
  pub some_bytes : 0 < length part
  pub balance : left + length part ≡ a
  pub after : account s' ≡ (pos left, payloads s.sent ++ part)

module _ (lib : Crates) where
  send_part-Sends :
      (s : Stream) (amount : ℕ) (chunk : List ℕ) {s' : Stream} (a : ℕ)
      → send_part lib s amount chunk ≡ ok s'
      → s.available ≡ pos (a + amount)
      → account s' ≡ (pos a, payloads s.sent ++ take amount chunk)
  unfolding send_part tell Data.into_frame ◌-ℤ◌
  send_part-Sends s amount chunk a h p =
      ground (arith, payloads-append s.sent (data_frame lib s.id false (take amount chunk)))

  use_window-Part :
      (s : Stream) (needed : ℤ) (b : ℕ) (bytes : List ℕ) (available : ℤ) (a : ℕ) {s' : Stream}
      {needed' : ℤ} {rest : List ℕ}
      → use_window lib s needed (b ∷ bytes) available ≡ ok (part_sent s' needed' rest)
      → available ≡ pos a
      → s.available ≡ pos a
      → Part s a (b ∷ bytes) rest s'
  unfolding use_window
  use_window-Part s needed b bytes (pos zero) a h e p = cc
  use_window-Part s needed b bytes (pos (suc n)) a {s'} {rest} h e p =
      let amount = part_size (suc n) (b ∷ bytes) in
      let (s₁, q, q') = >>=-ok (send_part lib s amount (b ∷ bytes)) _ h in
      let (le, positive, size) = part_size_bounds n b bytes in
      let k = send_part-Sends s amount (b ∷ bytes) (suc n - amount) q (ground (arith, e, p, le)) in
      let same : s' ≡ s₁ = cc in
      let same' : rest ≡ drop amount (b ∷ bytes) = cc in
      record {
        left = suc n - amount;
        part = take amount (b ∷ bytes);
        whole = rw same' (take-append-drop amount (b ∷ bytes));
        some_bytes = positive;
        balance = ground (arith, size, le, e);
        after = rw same k;
      }
  use_window-Part s needed b bytes (negsuc n) a h e p = cc

  use_window-idle :
      (s : Stream) (needed : ℤ) (bytes : List ℕ) (available : ℤ) {s' : Stream} {needed' : ℤ}
      → use_window lib s needed bytes available ≡ ok (idle s' needed')
      → account s' ≡ account s
  unfolding use_window
  use_window-idle s needed bytes (pos zero) h = ground arith
  use_window-idle s needed bytes (pos (suc n)) h = ground arith
  use_window-idle s needed bytes (negsuc n) h = ground arith

  pub send_round-Part :
      (s : Stream) (needed : ℤ) (b : ℕ) (bytes : List ℕ) (a : ℕ) {s' : Stream} {needed' : ℤ}
      {rest : List ℕ}
      → send_round lib s needed (b ∷ bytes) ≡ ok (part_sent s' needed' rest)
      → s.available ≡ pos a
      → Part s a (b ∷ bytes) rest s'
  unfolding send_round
  send_round-Part s needed b bytes a h p =
      let (r, q, q') = >>=-ok (ask_for_window s needed) _ h in
      let e = ask_for_window-quiet s needed q in
      let o =
        use_window-Part r.0 r.1 b bytes (r.0).available a q' (ap (λ (k : ℤ × List ℕ). k.0) e ∙ p)
          (ap (λ (k : ℤ × List ℕ). k.0) e ∙ p) in
      record {
        left = o.left;
        part = o.part;
        whole = o.whole;
        some_bytes = o.some_bytes;
        balance = o.balance;
        after = ground (arith, e, o.after);
      }

  pub send_round-idle :
      (s : Stream) (needed : ℤ) (bytes : List ℕ) {s' : Stream} {needed' : ℤ}
      → send_round lib s needed bytes ≡ ok (idle s' needed')
      → account s' ≡ account s
  unfolding send_round
  send_round-idle s needed bytes h =
      let (r, q, q') = >>=-ok (ask_for_window s needed) _ h in
      use_window-idle r.0 r.1 bytes (r.0).available q' ∙ ask_for_window-quiet s needed q
