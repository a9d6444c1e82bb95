-- ===== src/Ws.antt =====
-- supervisor/internal/ws/ws.go: the frames of a server-side WebSocket connection.
-- The buffered reader is the list of bytes that the peer will have sent when it closes. The net.Conn
-- that is written to is a parameter, the field `accepts`: whether `Write` takes these bytes behind
-- those written so far. `written` holds what it took; after an error it is not looked at. A deadline
-- that cannot be set counts as such an error. The opening handshake is not modelled.
pub mod Progress
pub mod Frames
pub mod Messages
pub mod Fragments
mod Runs
use Prim.Native.Nat.{bit_xor}
use iolbox.Common.{
  ℕ, zero, suc, ◌+◌, ◌-◌, ◌*◌, ◌/◌, ◌%◌, ◌^◌, Bool, true, false, not, ◌||◌, ltb, leb, ◌==◌,
  if◌then◌else◌, List, [], ◌∷◌, ◌++◌, length, take, drop,
}
use iolbox.Common.Bytes.{be16, be32, bytes16, bytes32}

abbrev pub op_continuation : ℕ
op_continuation = 0x0

abbrev pub op_text : ℕ
op_text = 0x1

abbrev pub op_binary : ℕ
op_binary = 0x2

abbrev pub op_close : ℕ
op_close = 0x8

abbrev pub op_ping : ℕ
op_ping = 0x9

abbrev pub op_pong : ℕ
op_pong = 0xa

abbrev pub max_frame_size : ℕ
max_frame_size = 16777216

pub data WsError : Type 0 where
  eof rsv_bits not_masked frame_too_large unexpected_continuation message_too_large : WsError
  unexpected_opcode closed write_failed : WsError

-- `stuck` is no Go value: a loop ran out of fuel.
pub data Result {ℓ} (A : Type ℓ) : Type ℓ where
  ok : A → Result A
  err : WsError → Result A
  stuck : Result A

infixl 5 ◌>>=◌
abbrev pub ◌>>=◌ {ℓ κ} : {A : Type ℓ} {B : Type κ} → Result A → (A → Result B) → Result B
ok a >>= f = f a
err e >>= f = err e
stuck >>= f = stuck

-- io.ReadFull
pub read_full : ℕ → List ℕ → Result (List ℕ × List ℕ)
read_full n input =
    if ltb (length input) n then err WsError.eof else ok (take n input, drop n input)

pub record FrameHeader : Type 0 where
  pub fin : Bool
  pub opcode : ℕ
  pub masked : Bool
  pub len : ℕ
  pub mask_key : List ℕ

-- binary.BigEndian.Uint16 and Uint64
abbrev value16 : List ℕ → ℕ
value16 (a ∷ b ∷ _) = be16 a b
value16 _ = 0

abbrev value64 : List ℕ → ℕ
value64 (a ∷ b ∷ c ∷ d ∷ e ∷ f ∷ g ∷ h ∷ _) = be32 a b c d * 2 ^ 32 + be32 e f g h
value64 _ = 0

read_ext16 : List ℕ → Result (ℕ × List ℕ)
read_ext16 input = do (ext, rest) ← read_full 2 input; ok (value16 ext, rest)

read_ext64 : List ℕ → Result (ℕ × List ℕ)
read_ext64 input = do (ext, rest) ← read_full 8 input; ok (value64 ext, rest)

-- `switch length`
pub read_length : ℕ → List ℕ → Result (ℕ × List ℕ)
unfolding read_ext16 read_ext64
read_length l input =
    if l == 126 then read_ext16 input else if l == 127 then read_ext64 input else ok (l, input)

pub read_key : Bool → List ℕ → Result (List ℕ × List ℕ)
read_key masked input = if masked then read_full 4 input else ok (0 ∷ 0 ∷ 0 ∷ 0 ∷ [], input)

-- `b[0]&0x80 != 0`, `b[0]&0x70`, `b[0]&0x0F`: the top bit, the next three, the low nibble.
abbrev top_bit : ℕ → Bool
top_bit b = not (b / 128 % 2 == 0)

pub header_from : ℕ → ℕ → List ℕ → Result (FrameHeader × List ℕ)
header_from b0 b1 input = if not (b0 / 16 % 8 == 0) then err WsError.rsv_bits else do
  (len, r1) ← read_length (b1 % 128) input
  (key, r2) ← read_key (top_bit b1) r1
  ok (
    record { fin = top_bit b0; opcode = b0 % 16; masked = top_bit b1; len = len; mask_key = key },
    r2,
  )

pub read_frame_header : List ℕ → Result (FrameHeader × List ℕ)
read_frame_header (b0 ∷ b1 ∷ input) = header_from b0 b1 input
read_frame_header _ = err WsError.eof

abbrev key_byte : List ℕ → ℕ → ℕ
key_byte [] i = 0
key_byte (k ∷ ks) zero = k
key_byte (k ∷ ks) (suc i) = key_byte ks i

-- `for i := range data { data[i] ^= key[i%4] }`, from index `i` on.
pub unmask_from : ℕ → List ℕ → List ℕ → List ℕ
unmask_from i [] key = []
unmask_from i (x ∷ xs) key = bit_xor x (key_byte key (i % 4)) ∷ unmask_from (i + 1) xs key

pub unmask : List ℕ → List ℕ → List ℕ
unmask bytes key = unmask_from 0 bytes key

-- One round of `readFrame` up to the unmasking: the header, the data and what is left to read.
pub read_one : List ℕ → Result (FrameHeader × List ℕ × List ℕ)
read_one input = do
  (hdr, r1) ← read_frame_header input
  if not hdr.masked
      then err WsError.not_masked
      else if ltb max_frame_size hdr.len
      then err WsError.frame_too_large
      else do (bytes, r2) ← read_full hdr.len r1; ok (hdr, unmask bytes hdr.mask_key, r2)

-- The loop variables of `readFrame`.
pub record Partial : Type 0 where
  pub first : Bool
  pub message_op : ℕ
  pub payload : List ℕ

pub data Next : Type 0 where
  deliver : ℕ → List ℕ → Next
  fail : WsError → Next
  again : Partial → Next

abbrev is_control : ℕ → Bool
is_control op = op == op_ping || op == op_pong || op == op_close

-- `payload = append(payload, data...)` and the tests behind it.
extend : Bool → ℕ → List ℕ → Next
extend fin op payload =
    if ltb max_frame_size (length payload)
    then Next.fail WsError.message_too_large
    else if fin
    then Next.deliver op payload
    else Next.again (record { first = false; message_op = op; payload = payload })

pub after_frame : Partial → FrameHeader → List ℕ → Next
unfolding extend
after_frame p hdr bytes =
    if is_control hdr.opcode
    then Next.deliver hdr.opcode bytes
    else if p.first
    then (if hdr.opcode == op_continuation
        then Next.fail WsError.unexpected_continuation
        else extend hdr.fin hdr.opcode (p.payload ++ bytes))
    else extend hdr.fin p.message_op (p.payload ++ bytes)

abbrev start : Partial
start = record { first = true; message_op = 0; payload = [] }

-- The rounds of `readFrame`.
pub frame_loop : ℕ → Partial → List ℕ → Result (ℕ × List ℕ × List ℕ)
frame_loop zero p input = stuck
frame_loop (suc fuel) p input = do
  (hdr, bytes, rest) ← read_one input
  elim (after_frame p hdr bytes) [
    | Next.deliver op payload ↦ ok (op, payload, rest)
    | Next.fail e ↦ err e
    | Next.again q ↦ frame_loop fuel q rest
  ]

-- A round takes two bytes at least.
pub read_frame : List ℕ → Result (ℕ × List ℕ × List ℕ)
read_frame input = frame_loop (suc (length input)) start input

pub record Conn : Type 0 where
  pub input : List ℕ
  pub written : List ℕ
  pub accepts : List ℕ → List ℕ → Bool
  pub closed : Bool

-- `c.nc.Write`
nc_write : Conn → List ℕ → Conn × Bool
nc_write c bytes =
    if c.accepts c.written bytes
    then (record c { written = c.written ++ bytes }, true)
    else (c, false)

-- `0x80 | byte(op)` of an opcode below 128, and the length in its shortest form.
pub write_header : ℕ → ℕ → List ℕ
write_header op n =
    (128 + op)
    ∷ (if ltb n 126
        then n % 256 ∷ []
        else if leb n 0xffff
        then 126 ∷ bytes16 n
        else 127 ∷ (bytes32 (n / 2 ^ 32) ++ bytes32 n))

pub write_frame : Conn → ℕ → List ℕ → Conn × Result (Unit {0})
unfolding nc_write
write_frame c op payload =
    if c.closed
    then (c, err WsError.closed)
    else (let (c1, ok1) = nc_write c (write_header op (length payload)) in
        if not ok1
        then (c1, err WsError.write_failed)
        else if length payload == 0
        then (c1, ok tt)
        else (let (c2, ok2) = nc_write c1 payload in
            if ok2 then (c2, ok tt) else (c2, err WsError.write_failed)))

-- A message, or the end: `io.EOF` with the payload of the peer's close frame.
pub data Message : Type 0 where
  message : ℕ → List ℕ → Message
  close : List ℕ → Message

-- The rounds of `ReadMessage`. After an error the reader is not used again.
pub message_loop : ℕ → Conn → Conn × Result Message
message_loop zero c = (c, stuck)
message_loop (suc fuel) c = elim (read_frame c.input) [
  | ok (op, payload, rest) ↦ elim (op == op_ping) [
    | true ↦
        let (c1, sent) = write_frame (record c { input = rest }) op_pong payload in
        elim sent [ ok _ ↦ message_loop fuel c1 | err e ↦ (c1, err e) | stuck ↦ (c1, stuck) ]
    | false ↦ elim (op == op_pong) [
      | true ↦ message_loop fuel (record c { input = rest })
      | false ↦
          if op == op_close
          then (
            (write_frame (record c { input = rest }) op_close payload).0,
            ok (Message.close payload),
          )
          else if op == op_text || op == op_binary
          then (record c { input = rest }, ok (Message.message op payload))
          else (record c { input = rest }, err WsError.unexpected_opcode)
    ]
  ]
  | err e ↦ (c, err e)
  | stuck ↦ (c, stuck)
]

pub read_message : Conn → Conn × Result Message
read_message c = message_loop (suc (length c.input)) c

pub write_message : Conn → ℕ → List ℕ → Conn × Result (Unit {0})
unfolding write_frame
write_message c op payload = if c.closed then (c, err WsError.closed) else write_frame c op payload

pub write_close : Conn → ℕ → List ℕ → Conn × Result (Unit {0})
unfolding write_frame
write_close c code reason =
    if c.closed then (c, err WsError.closed) else write_frame c op_close (bytes16 code ++ reason)
