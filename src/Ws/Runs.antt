-- ===== src/Ws/Runs.antt =====
-- The frames of RFC 6455's examples, and the connection's theorems at concrete inputs.
use iolbox.Common.{ℕ, zero, suc, ◌<◌, ◌≡◌, ◌≢◌, inl, refl, true, false, List, [], ◌∷◌, ◌++◌, arith}
use iolbox.Ws.{
  ok, err, stuck, WsError, unmask, unmask_from, key_byte, read_frame, Conn, Message, write_frame,
  read_message, op_pong, op_ping, op_text, op_continuation,
}
use iolbox.Ws.Progress.{read_message-ne-stuck}
use iolbox.Ws.Frames.{Key, client_frame}
use iolbox.Ws.Messages.{read_message-client_frame}
use iolbox.Ws.Fragments.{continued, joined, read_frame-fragmented, read_message-interrupted}

rfc_key_bytes : (i : ℕ) → key_byte (0x37 ∷ 0xfa ∷ 0x21 ∷ 0x3d ∷ []) i < 256
rfc_key_bytes zero = omega arith
rfc_key_bytes (suc zero) = omega arith
rfc_key_bytes (suc (suc zero)) = omega arith
rfc_key_bytes (suc (suc (suc zero))) = omega arith
rfc_key_bytes (suc (suc (suc (suc i)))) = omega arith

abbrev key : Key
key = record { bytes = 0x37 ∷ 0xfa ∷ 0x21 ∷ 0x3d ∷ []; four = refl; each = rfc_key_bytes }

abbrev hello : List ℕ
hello = b'H' ∷ b'e' ∷ b'l' ∷ b'l' ∷ b'o' ∷ []

-- A masked "Hello", RFC 6455 section 5.7.
hello_frame :
    client_frame true op_text key hello
    ≡ 0x81 ∷ 0x85 ∷ 0x37 ∷ 0xfa ∷ 0x21 ∷ 0x3d ∷ 0x7f ∷ 0x9f ∷ 0x4d ∷ 0x51 ∷ 0x58 ∷ []
unfolding client_frame unmask unmask_from
hello_frame = refl

abbrev conn_on : List ℕ → Conn
conn_on input = record {
  input = input;
  written = [];
  accepts = λ written bytes. true;
  closed = false;
}

read_message-ne-stuck_example : (read_message (conn_on (0x81 ∷ 0x85 ∷ []))).1 ≢ stuck
read_message-ne-stuck_example = read_message-ne-stuck (conn_on (0x81 ∷ 0x85 ∷ []))

read_message-client_frame_example :
    read_message (conn_on (client_frame true op_text key hello ++ (7 ∷ [])))
    ≡ (conn_on (7 ∷ []), ok (Message.message op_text hello))
read_message-client_frame_example =
    read_message-client_frame (conn_on (client_frame true op_text key hello ++ (7 ∷ []))) op_text
      key hello (7 ∷ []) (inl refl) (omega arith) (omega arith) refl

abbrev pinged : Conn
pinged =
    conn_on (client_frame true op_ping key (1 ∷ []) ++ (client_frame true op_text key hello ++ []))

pong_written : (write_frame pinged op_pong (1 ∷ [])).1 ≡ ok tt
unfolding write_frame
pong_written = refl

zero_key_bytes : (i : ℕ) → key_byte (0 ∷ 0 ∷ 0 ∷ 0 ∷ []) i < 256
zero_key_bytes zero = omega arith
zero_key_bytes (suc zero) = omega arith
zero_key_bytes (suc (suc zero)) = omega arith
zero_key_bytes (suc (suc (suc zero))) = omega arith
zero_key_bytes (suc (suc (suc (suc i)))) = omega arith

abbrev other_key : Key
other_key = record { bytes = 0 ∷ 0 ∷ 0 ∷ 0 ∷ []; four = refl; each = zero_key_bytes }

read_frame-fragmented_example :
    read_frame (
      client_frame false op_text key hello
      ++ (continued ((other_key, 1 ∷ []) ∷ []) key (2 ∷ []) ++ (9 ∷ [])))
    ≡ ok (op_text, hello ++ joined ((other_key, 1 ∷ []) ∷ []) (2 ∷ []), 9 ∷ [])
read_frame-fragmented_example =
    read_frame-fragmented op_text key hello ((other_key, 1 ∷ []) ∷ []) key (2 ∷ []) (9 ∷ [])
      (omega arith) (omega arith) refl (omega arith) (omega arith) (omega arith)
      (unfold joined in (omega arith))

abbrev interrupted : Conn
interrupted = conn_on (
    client_frame false op_text key hello
    ++ (client_frame true op_ping key (1 ∷ [])
        ++ (client_frame true op_continuation other_key (2 ∷ []) ++ [])))

interrupted_pong : (write_frame interrupted op_pong (1 ∷ [])).1 ≡ ok tt
unfolding write_frame
interrupted_pong = refl

read_message-interrupted_example :
    ((read_message interrupted).0.written ≡ (write_frame interrupted op_pong (1 ∷ [])).0.written)
    × ((read_message interrupted).1 ≡ err WsError.unexpected_continuation)
read_message-interrupted_example =
    read_message-interrupted interrupted key key other_key hello (1 ∷ []) (2 ∷ []) [] (omega arith)
      (omega arith) (omega arith) (omega arith) (omega arith) (omega arith) refl interrupted_pong
