-- ===== src/Ws/Messages.antt =====
-- ws.go: `ReadMessage` on what a client sends.
use iolbox.Common.{
  ℕ, suc, ◌<◌, ◌≤◌, ◌≡◌, ◌≢◌, ◌⊎◌, inl, refl, ap, ◌∙◌, Bool, true, List, ◌++◌, length, All, arith,
}
use iolbox.Common.Bytes.{IsByte}
use iolbox.Ws.{
  Result, ok, err, WsError, FrameHeader, read_one, Partial, Next, after_frame, start, frame_loop,
  read_frame, Conn, Message, write_frame, message_loop, read_message, op_pong, op_ping, op_text,
  op_binary, op_continuation, max_frame_size,
}
use iolbox.Ws.Frames.{Key, client_frame, read_one-client_frame}

-- One more round of `readFrame`.
pub frame_loop_step :
    (fuel : ℕ) (p : Partial) (input : List ℕ) {hdr : FrameHeader} {bytes rest : List ℕ}
    → read_one input ≡ ok (hdr, bytes, rest)
    → frame_loop (suc fuel) p input ≡ elim (after_frame p hdr bytes) [
      | Next.deliver op payload ↦ ok (op, payload, rest)
      | Next.fail e ↦ err e
      | Next.again q ↦ frame_loop fuel q rest
    ]
unfolding frame_loop
frame_loop_step fuel p input h = rw (h, frame_loop)

-- A client's unfragmented frame is a message of `readFrame`.
pub read_frame-client_frame :
    (op : ℕ) (key : Key) (p rest : List ℕ)
    → op < 16
    → op ≢ op_continuation
    → All IsByte p
    → length p ≤ max_frame_size
    → read_frame (client_frame true op key p ++ rest) ≡ ok (op, p, rest)
unfolding read_frame after_frame
read_frame-client_frame op key p rest ho hc hb hl =
    frame_loop_step _ start _ (read_one-client_frame true op key p rest ho hb hl) ∙ ground arith

-- One round of `ReadMessage` on a control frame that lets the loop go on.
message_loop_ping :
    (fuel : ℕ) (c : Conn) {p rest : List ℕ}
    → read_frame c.input ≡ ok (op_ping, p, rest)
    → (write_frame (record c { input = rest }) op_pong p).1 ≡ ok tt
    → message_loop (suc fuel) c
      ≡ message_loop fuel (write_frame (record c { input = rest }) op_pong p).0
unfolding message_loop
message_loop_ping fuel c h k = rw (h, k, message_loop)

message_loop_data :
    (fuel op : ℕ) (c : Conn) {p rest : List ℕ}
    → (op ≡ op_text) ⊎ (op ≡ op_binary)
    → read_frame c.input ≡ ok (op, p, rest)
    → message_loop (suc fuel) c ≡ (record c { input = rest }, ok (Message.message op p))
unfolding message_loop
message_loop_data fuel op c t h = rw (h, message_loop) (ground arith)

pub message_loop_error :
    (fuel : ℕ) (c : Conn) {e : WsError}
    → read_frame c.input ≡ err e
    → message_loop (suc fuel) c ≡ (c, err e)
unfolding message_loop
message_loop_error fuel c h = rw (h, message_loop)

-- A text or binary frame that a client sends whole is the next message, unmasked; nothing is
-- written, and what follows the frame is left to be read.
pub read_message-client_frame :
    (c : Conn) (op : ℕ) (key : Key) (p rest : List ℕ)
    → (op ≡ op_text) ⊎ (op ≡ op_binary)
    → All IsByte p
    → length p ≤ max_frame_size
    → c.input ≡ client_frame true op key p ++ rest
    → read_message c ≡ (record c { input = rest }, ok (Message.message op p))
unfolding read_message
read_message-client_frame c op key p rest t hb hl e =
    message_loop_data (length c.input) op c t
      (ap read_frame e ∙ read_frame-client_frame op key p rest (ground arith) (ground arith) hb hl)

pub client_frame-ne-nil :
    (fin : Bool) (op : ℕ) (key : Key) (p rest : List ℕ)
    → (n : ℕ) × (length (client_frame fin op key p ++ rest) ≡ suc n)
unfolding client_frame
client_frame-ne-nil fin op key p rest = (_, refl)

pub write_frame-input :
    (c : Conn) (i : List ℕ) (op : ℕ) (p : List ℕ)
    → write_frame (record c { input = i }) op p
      ≡ (record (write_frame c op p).0 { input = i }, (write_frame c op p).1)
unfolding write_frame
write_frame-input c i op p = ground arith

-- The round on a ping whose pong is written: the next round has fuel left.
pub after_ping :
    (c : Conn) (n : ℕ) (p rest : List ℕ)
    → length c.input ≡ suc n
    → read_frame c.input ≡ ok (op_ping, p, rest)
    → (write_frame c op_pong p).1 ≡ ok tt
    → read_message c ≡ message_loop (suc n) (record (write_frame c op_pong p).0 { input = rest })
unfolding read_message
after_ping c n p rest len first w =
    let sent : (write_frame (record c { input = rest }) op_pong p).1 ≡ ok tt =
      rw (write_frame-input c rest op_pong p) w in
    message_loop_ping (length c.input) c first sent
    ∙ ap (λ (k : ℕ). message_loop k (write_frame (record c { input = rest }) op_pong p).0) len
    ∙ ap (λ (r : Conn × Result (Unit {0})). message_loop (suc n) r.0)
        (write_frame-input c rest op_pong p)

-- A ping is answered by a pong with its payload before the message behind it is returned, if the
-- pong can be written.
pub read_message-ping :
    (c : Conn) (key key' : Key) (p q rest : List ℕ)
    → All IsByte p
    → All IsByte q
    → length p ≤ max_frame_size
    → length q ≤ max_frame_size
    → c.input ≡ client_frame true op_ping key p ++ (client_frame true op_text key' q ++ rest)
    → (write_frame c op_pong p).1 ≡ ok tt
    → read_message c
      ≡ (record (write_frame c op_pong p).0 { input = rest }, ok (Message.message op_text q))
read_message-ping c key key' p q rest hp hq lp lq e w =
    let behind = client_frame true op_text key' q ++ rest in
    let (n, len) = client_frame-ne-nil true op_ping key p behind in
    after_ping c n p behind (ap length e ∙ len)
      (ap read_frame e
        ∙ read_frame-client_frame op_ping key p behind (omega arith) (omega arith) hp lp)
      w
    ∙ message_loop_data n op_text _ (inl refl)
        (read_frame-client_frame op_text key' q rest (omega arith) (omega arith) hq lq)
