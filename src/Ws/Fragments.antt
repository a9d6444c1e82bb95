-- ===== src/Ws/Fragments.antt =====
-- ws.go: a message sent in fragments, and one with a ping between its fragments.
use iolbox.Common.{
  ℕ, zero, suc, ◌+◌, ◌<◌, ◌≤◌, ◌≡◌, ◌≢◌, refl, ap, ◌∙◌, true, false, List, [], ◌∷◌, ◌++◌,
  append_assoc, length, length-append, All, arith,
}
use iolbox.Common.Bytes.{IsByte}
use iolbox.Ws.{
  Result, ok, err, WsError, after_frame, start, frame_loop, read_frame, Conn, Message, write_frame,
  read_message, op_pong, op_ping, op_text, op_continuation, max_frame_size, is_control,
}
use iolbox.Ws.Frames.{Key, client_frame, read_one-client_frame}
use iolbox.Ws.Messages.{frame_loop_step, message_loop_error, after_ping, client_frame-ne-nil}

-- A fragment, with the key that it is masked with.
abbrev pub Fragment : Type 0
Fragment = Key × List ℕ

-- The continuation frames of a message, each masked with its own key, the last of them final.
unfoldable pub continued : List Fragment → Key → List ℕ → List ℕ
continued [] key last = client_frame true op_continuation key last
continued ((k, p) ∷ ps) key last = client_frame false op_continuation k p ++ continued ps key last

unfoldable pub joined : List Fragment → List ℕ → List ℕ
joined [] last = last
joined ((k, p) ∷ ps) last = p ++ joined ps last

-- The payload of a fragment is made of bytes.
abbrev pub IsBytes : Fragment → Type 0
IsBytes (k, p) = All IsByte p

frame_loop-continued :
    (ps : List Fragment) (fuel : ℕ) (key : Key) (acc last rest : List ℕ) (op : ℕ)
    → length ps < fuel
    → All IsBytes ps
    → All IsByte last
    → length acc + length (joined ps last) ≤ max_frame_size
    → frame_loop fuel
        (record { first = false; message_op = op; payload = acc })
        (continued ps key last ++ rest)
      ≡ ok (op, acc ++ joined ps last, rest)
unfolding continued joined after_frame
frame_loop-continued ps zero key acc last rest op h b bl l = elim h [ ]
frame_loop-continued [] (suc fuel) key acc last rest op h b bl l =
    frame_loop_step fuel _ _
      (read_one-client_frame true op_continuation key last rest (omega arith) bl (omega arith))
    ∙ ground (arith, length-append acc last)
frame_loop-continued ((k, p) ∷ ps) (suc fuel) key acc last rest op h (bp, bs) bl l =
    let more = continued ps key last in
    let sizes = length-append p (joined ps last) in
    let small : length (acc ++ p) ≤ max_frame_size = omega (arith, length-append acc p, sizes) in
    ap (frame_loop (suc fuel) _) (append_assoc (client_frame false op_continuation k p) more rest)
    ∙ frame_loop_step fuel _ _ (
        read_one-client_frame false op_continuation k p (more ++ rest) (omega arith) bp
          (omega (arith, sizes)))
    ∙ ground (arith, small)
    ∙ frame_loop-continued ps fuel key (acc ++ p) last rest op (omega arith) bs bl
        (omega (arith, length-append acc p, sizes))
    ∙ ap (λ (t : List ℕ). ok (op, t, rest)) (append_assoc acc p (joined ps last))

length-continued :
    (ps : List Fragment) (key : Key) (last rest : List ℕ)
    → length ps < length (continued ps key last ++ rest)
unfolding continued
length-continued [] key last rest =
    let (n, e) = client_frame-ne-nil true op_continuation key last rest in omega (arith, e)
length-continued ((k, p) ∷ ps) key last rest =
    let more = continued ps key last in
    let (n, e) = client_frame-ne-nil false op_continuation k p [] in
    omega (
      arith,
      e,
      length-append (client_frame false op_continuation k p) [],
      length-append (client_frame false op_continuation k p ++ more) rest,
      length-append (client_frame false op_continuation k p) more,
      length-append more rest,
      length-continued ps key last rest,
    )

-- The first fragment opens the message.
frame_loop-opened :
    (fuel op : ℕ) (key : Key) (p more : List ℕ)
    → op < 16
    → op ≢ op_continuation
    → is_control op ≡ false
    → All IsByte p
    → length p ≤ max_frame_size
    → frame_loop (suc fuel) start (client_frame false op key p ++ more)
      ≡ frame_loop fuel (record { first = false; message_op = op; payload = p }) more
unfolding after_frame
frame_loop-opened fuel op key p more ho hc hctl bp lp =
    frame_loop_step fuel start _ (read_one-client_frame false op key p more ho bp lp) ∙ ground arith

-- A message in fragments, each masked with its own key and nothing between them, is put together in
-- order: its opcode is that of the first fragment, which is neither a control frame nor a continuation,
-- and its payload all the fragments', if that is at most 16 MiB.
pub read_frame-fragmented :
    (op : ℕ) (first : Key) (p : List ℕ) (ps : List Fragment) (key : Key) (last rest : List ℕ)
    → op < 16
    → op ≢ op_continuation
    → is_control op ≡ false
    → All IsByte p
    → All IsBytes ps
    → All IsByte last
    → length p + length (joined ps last) ≤ max_frame_size
    → read_frame (client_frame false op first p ++ (continued ps key last ++ rest))
      ≡ ok (op, p ++ joined ps last, rest)
unfolding read_frame
read_frame-fragmented op first p ps key last rest ho hc hctl bp bs bl l =
    let more = continued ps key last ++ rest in
    frame_loop-opened _ op first p more ho hc hctl bp (omega arith)
    ∙ frame_loop-continued ps (length (client_frame false op first p ++ more)) key p last rest op
        (omega (
          arith,
          length-continued ps key last rest,
          length-append (client_frame false op first p) more,
        ))
        bs bl l

-- A ping between two fragments is delivered, and the fragment in front of it is forgotten.
read_frame-interrupted :
    (key ping : Key) (p q behind : List ℕ)
    → All IsByte p
    → All IsByte q
    → length p ≤ max_frame_size
    → length q ≤ max_frame_size
    → read_frame (client_frame false op_text key p ++ (client_frame true op_ping ping q ++ behind))
      ≡ ok (op_ping, q, behind)
unfolding read_frame after_frame
read_frame-interrupted key ping p q behind bp bq lp lq =
    let (n, e) =
      client_frame-ne-nil false op_text key p (client_frame true op_ping ping q ++ behind) in
    ap
      (λ (k : ℕ).
        frame_loop (suc k) start
          (client_frame false op_text key p ++ (client_frame true op_ping ping q ++ behind)))
      e
    ∙ frame_loop-opened (suc n) op_text key p _ (omega arith) (omega arith) refl bp lp
    ∙ frame_loop_step n _ _ (read_one-client_frame true op_ping ping q behind (omega arith) bq lq)

read_frame-orphan :
    (key : Key) (r rest : List ℕ)
    → All IsByte r
    → length r ≤ max_frame_size
    → read_frame (client_frame true op_continuation key r ++ rest)
      ≡ err WsError.unexpected_continuation
unfolding read_frame after_frame
read_frame-orphan key r rest br lr =
    frame_loop_step _ start _
      (read_one-client_frame true op_continuation key r rest (omega arith) br lr)

-- A text message in two fragments with a ping between them, which RFC 6455 allows, is not read: the
-- ping is answered, and then the second fragment is refused as an unexpected continuation.
pub read_message-interrupted :
    (c : Conn) (key ping next : Key) (p q r rest : List ℕ)
    → All IsByte p
    → All IsByte q
    → All IsByte r
    → length p ≤ max_frame_size
    → length q ≤ max_frame_size
    → length r ≤ max_frame_size
    → c.input
      ≡ client_frame false op_text key p
        ++ (client_frame true op_ping ping q ++ (client_frame true op_continuation next r ++ rest))
    → (write_frame c op_pong q).1 ≡ ok tt
    → ((read_message c).0.written ≡ (write_frame c op_pong q).0.written)
      × ((read_message c).1 ≡ err WsError.unexpected_continuation)
read_message-interrupted c key ping next p q r rest bp bq br lp lq lr e w =
    let orphan = client_frame true op_continuation next r ++ rest in
    let (n, len) =
      client_frame-ne-nil false op_text key p (client_frame true op_ping ping q ++ orphan) in
    let whole =
      after_ping c n q orphan (ap length e ∙ len)
        (ap read_frame e ∙ read_frame-interrupted key ping p q orphan bp bq lp lq) w
      ∙ message_loop_error n _ (read_frame-orphan next r rest br lr) in
    (
      ap (λ (s : Conn × Result Message). s.0.written) whole,
      ap (λ (s : Conn × Result Message). s.1) whole,
    )
