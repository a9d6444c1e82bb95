-- ===== src/Node/ConsoleHub/Attach/Keyboard.antt =====
-- console_hub.go: the keys of a telnet client, however TCP cuts its stream.
use iolbox.Common.{
  ℕ, suc, ◌+◌, ◌≤◌, ◌≡◌, refl, sym, ap, ◌∙◌, inl, inr, Bool, true, false, not, ◌&&◌, ==_refl,
  if◌then◌else◌, List, [], ◌∷◌, ◌++◌, length, length-append, append-nil, append_assoc, Bool-cases,
  arith,
}
use mathlib.Core.List.{flatten}
use mathlib.Core.Path.{subst}
use iolbox.Telnet.{Negotiator, new_negotiator, feed, take_reply}
use iolbox.Telnet.Streams.{escaped, feed-append, feed-escaped}
use iolbox.Telnet.Replies.{decoded, decoded-feed, feed-reply}
use iolbox.Node.ConsoleHub.{HubClient, ConsoleHub, update}
use iolbox.Node.ConsoleHub.Nvt.{
  normalize_nvt, normalize_nvt-append, Key, sent, meant, normalize_nvt-sent,
}
use iolbox.Node.ConsoleHub.Input.{PtyWrite, is_empty, is_err}
use iolbox.Node.ConsoleHub.Input.Turns.{Accepts}
use iolbox.Node.ConsoleHub.Input.Arbitration.{gated_write-accepted}
use iolbox.Node.ConsoleHub.Output.{
  enqueue_client, hub_client_queue, detach, register_locked, preamble,
}
use iolbox.Node.ConsoleHub.Attach.{Reading, attach, forward, read_once, read_all}

-- The room in the client's queue that a read takes, by whether its reply is empty.
abbrev needs : Bool → ℕ → ℕ
needs true room = room
needs false room = suc room

-- The reads that are answered.
answers : Negotiator → List (List ℕ) → ℕ
answers neg [] = 0
answers neg (buf ∷ bufs) =
    let (neg2, reply) = take_reply (feed neg buf).0 in needs (is_empty reply) (answers neg2 bufs)

append-nil_left : (s t : List ℕ) → s ++ t ≡ [] → (s ≡ []) × (t ≡ [])
append-nil_left [] t h = (refl, h)
append-nil_left (x ∷ s) t h = cc h

-- A stream that one read would not answer is not answered in any reads.
answers-none :
    (neg : Negotiator) (bufs : List (List ℕ))
    → (feed neg (flatten bufs)).0.reply ≡ []
    → answers neg bufs ≡ 0
unfolding answers flatten
answers-none neg [] h = refl
answers-none neg (buf ∷ bufs) h =
    let m = (feed neg buf).0 in
    let whole : (feed neg (buf ++ flatten bufs)).0.reply ≡ (feed m (flatten bufs)).0.reply =
      ap (λ (x : Negotiator × List ℕ). x.0.reply) (feed-append neg buf (flatten bufs)) in
    let (none_yet, none_later) =
      append-nil_left (take_reply m).1 _ (sym (whole ∙ feed-reply m (flatten bufs)) ∙ h) in
    rw none_yet (answers-none (take_reply m).0 bufs none_later)

-- Nobody holds the turn, and client `c` can take `room` more chunks.
record IsQuiet (c room : ℕ) (h : ConsoleHub) : Type 0 where
  idle : h.turn.active ≡ false
  up : h.done ≡ false
  registered : (h.client c).closed ≡ false
  fits : length (h.client c).out + room ≤ hub_client_queue

module _ (pty : ℕ → List ℕ → PtyWrite) (accepts : Accepts pty) (c : ℕ) where
  -- What a read does.
  abbrev Forwarded : ℕ → ConsoleHub → List ℕ → Reading → Type 0
  Forwarded room h clean r =
      IsQuiet c room r.hub
      × (r.going ≡ true)
      × (r.hub.written ≡ h.written ++ (normalize_nvt clean (h.client c).cr_pending).0)
      × ((r.hub.client c).cr_pending ≡ (normalize_nvt clean (h.client c).cr_pending).1)

  forward-Forwarded :
      (room : ℕ) (h : ConsoleHub) (neg : Negotiator) (clean : List ℕ)
      → IsQuiet c room h
      → Forwarded room h clean (forward pty c h neg clean) × ((forward pty c h neg clean).neg ≡ neg)
  unfolding forward
  forward-Forwarded room h neg clean q =
      let keys = (normalize_nvt clean (h.client c).cr_pending).0 in
      let pending = (normalize_nvt clean (h.client c).cr_pending).1 in
      let h1 : ConsoleHub = record h {
        client = update h.client c (record (h.client c) { cr_pending = pending });
      } in
      let (writes', wrote) = gated_write-accepted pty accepts h1 keys q.idle q.up in
      let h2 : ConsoleHub = record h1 { writes = writes'; written = h.written ++ keys } in
      let went : forward pty c h neg clean ≡ record { hub = h2; neg = neg; going = true } = λ i.
        if is_err (wrote i).1
        then record { hub = detach (wrote i).0 c; neg = neg; going = false }
        else record { hub = (wrote i).0; neg = neg; going = true } in
      let quiet : IsQuiet c room h2 = record {
        idle = q.idle;
        up = q.up;
        registered = rw (==_refl c) q.registered;
        fits = rw (==_refl c) q.fits;
      } in
      subst (λ (r : Reading). Forwarded room h clean r × (r.neg ≡ neg)) (sym went)
        ((quiet, refl, refl, rw (==_refl c)), refl)

  Forwarded-from :
      (room : ℕ) (h k : ConsoleHub) (clean : List ℕ) (r : Reading)
      → k.written ≡ h.written
      → (k.client c).cr_pending ≡ (h.client c).cr_pending
      → Forwarded room k clean r
      → Forwarded room h clean r
  Forwarded-from room h k clean r e f (quiet, going, out, pending) = (
    quiet,
    going,
    out
        ∙ ap (λ (l : List ℕ). l ++ (normalize_nvt clean (k.client c).cr_pending).0) e
        ∙ ap (λ (b : Bool). h.written ++ (normalize_nvt clean b).0) f,
    pending ∙ ap (λ (b : Bool). (normalize_nvt clean b).1) f,
  )

  -- A reply takes a place in the client's queue.
  replied-IsQuiet :
      (room : ℕ) (h : ConsoleHub) (reply : List ℕ)
      → IsQuiet c (suc room) h
      → IsQuiet c room (record h {
        client = update h.client c (record (h.client c) { out = (h.client c).out ++ (reply ∷ []) });
      })
  replied-IsQuiet room h reply q = record {
    idle = q.idle;
    up = q.up;
    registered = rw (==_refl c) q.registered;
    fits = rw (==_refl c) (omega (arith, q.fits, length-append {0} (h.client c).out (reply ∷ [])));
  }

  enqueue_client_quiet :
      (room : ℕ) (h : ConsoleHub) (reply : List ℕ)
      → IsQuiet c (suc room) h
      → enqueue_client (h.client c) reply
        ≡ (record (h.client c) { out = (h.client c).out ++ (reply ∷ []) }, true)
  unfolding enqueue_client
  enqueue_client_quiet room h reply q = ground (arith, q.registered, q.fits)

  -- What `read_once` goes on with, by whether there is a reply and what its queueing gives.
  abbrev branch : ConsoleHub → Negotiator → List ℕ → Bool → HubClient × Bool → Reading
  branch h neg clean no_reply (client', queued) =
      if not no_reply && not queued
      then record { hub = detach h c; neg = neg; going = false }
      else forward pty c (if no_reply then h else record h { client = update h.client c client' })
          neg clean

  read_once-Forwarded :
      (room : ℕ) (h : ConsoleHub) (neg : Negotiator) (buf : List ℕ)
      → IsQuiet c (needs (is_empty (take_reply (feed neg buf).0).1) room) h
      → Forwarded room h (feed neg buf).1 (read_once pty c h neg buf)
        × ((read_once pty c h neg buf).neg ≡ (take_reply (feed neg buf).0).0)
  unfolding read_once
  read_once-Forwarded room h neg buf q =
      let clean = (feed neg buf).1 in
      let neg2 = (take_reply (feed neg buf).0).0 in
      let reply = (take_reply (feed neg buf).0).1 in
      let client' : HubClient = record (h.client c) { out = (h.client c).out ++ (reply ∷ []) } in
      let h' : ConsoleHub = record h { client = update h.client c client' } in
      elim (Bool-cases (is_empty reply)) [
        | inl e ↦
            subst
              (λ (b : Bool).
                Forwarded room h clean (branch h neg2 clean b (enqueue_client (h.client c) reply))
                × ((branch h neg2 clean b (enqueue_client (h.client c) reply)).neg ≡ neg2))
              (sym e)
              (forward-Forwarded room h neg2 clean
                (subst (λ (b : Bool). IsQuiet c (needs b room) h) e q))
        | inr e ↦
            let room_left = subst (λ (b : Bool). IsQuiet c (needs b room) h) e q in
            subst
              (λ (b : Bool).
                Forwarded room h clean (branch h neg2 clean b (enqueue_client (h.client c) reply))
                × ((branch h neg2 clean b (enqueue_client (h.client c) reply)).neg ≡ neg2))
              (sym e)
              (subst
                (λ (x : HubClient × Bool).
                  Forwarded room h clean (branch h neg2 clean false x)
                  × ((branch h neg2 clean false x).neg ≡ neg2))
                (sym (enqueue_client_quiet room h reply room_left))
                (let (did, same) =
                    forward-Forwarded room h' neg2 clean (replied-IsQuiet room h reply room_left) in
                  (
                    Forwarded-from room h h' clean (forward pty c h' neg2 clean) refl
                        (rw (==_refl c)) did,
                    same,
                  )))
      ]

  both_reads :
      (h k : ConsoleHub) (first second : List ℕ) (r : Reading)
      → k.written ≡ h.written ++ (normalize_nvt first (h.client c).cr_pending).0
      → (k.client c).cr_pending ≡ (normalize_nvt first (h.client c).cr_pending).1
      → Forwarded 0 k second r
      → Forwarded 0 h (first ++ second) r
  both_reads h k first second r out pending (quiet, going, more, after) =
      let p = (h.client c).cr_pending in
      let n1 = normalize_nvt first p in
      let whole = normalize_nvt-append first second p in
      (
        quiet,
        going,
        more
            ∙ ap (λ (b : Bool). k.written ++ (normalize_nvt second b).0) pending
            ∙ ap (λ (l : List ℕ). l ++ (normalize_nvt second n1.1).0) out
            ∙ append_assoc h.written n1.0 (normalize_nvt second n1.1).0
            ∙ ap (λ (x : List ℕ × Bool). h.written ++ x.0) (sym whole),
        after
            ∙ ap (λ (b : Bool). (normalize_nvt second b).1) pending
            ∙ ap (λ (x : List ℕ × Bool). x.1) (sym whole),
      )

  read_all-Forwarded :
      (h : ConsoleHub) (neg : Negotiator) (bufs : List (List ℕ))
      → IsQuiet c (answers neg bufs) h
      → Forwarded 0 h (decoded neg bufs) (read_all pty c h neg bufs)
  unfolding read_all decoded normalize_nvt answers
  read_all-Forwarded h neg [] q = (q, refl, sym (append-nil h.written), refl)
  read_all-Forwarded h neg (buf ∷ bufs) q =
      let r = read_once pty c h neg buf in
      let ((quiet, going, out, pending), same) =
        read_once-Forwarded (answers (take_reply (feed neg buf).0).0 bufs) h neg buf q in
      let rest =
        read_all-Forwarded r.hub r.neg bufs
          (subst (λ (n : Negotiator). IsQuiet c (answers n bufs) r.hub) (sym same) quiet) in
      subst
        (λ (b : Bool).
          Forwarded 0 h (decoded neg (buf ∷ bufs))
            (if b then read_all pty c r.hub r.neg bufs else r))
        (sym going)
        (both_reads h r.hub (feed neg buf).1 (decoded (take_reply (feed neg buf).0).0 bufs)
          (read_all pty c r.hub r.neg bufs) out pending
          (subst
            (λ (n : Negotiator).
              Forwarded 0 r.hub (decoded n bufs) (read_all pty c r.hub r.neg bufs))
            same rest))

attach-IsQuiet :
    (h : ConsoleHub) (room : ℕ)
    → h.closed ≡ false
    → h.done ≡ false
    → h.turn.active ≡ false
    → room ≤ 61
    → IsQuiet h.made room (attach h).0
unfolding attach register_locked preamble
attach-IsQuiet h room live up idle fits = record {
  idle = ground (arith, live, idle);
  up = ground (arith, live, up);
  registered = ground (arith, live);
  fits = ground (arith, live, fits);
}

attach_lem :
    (h : ConsoleHub)
    → h.closed ≡ false
    → (((attach h).0.client h.made).cr_pending ≡ false) × ((attach h).0.written ≡ h.written)
unfolding attach register_locked
attach_lem h live = (ground (arith, live), ground (arith, live))

module _ (pty : ℕ → List ℕ → PtyWrite) (accepts : Accepts pty) where
  -- A client that has just attached to a live hub types keys and nothing else, with every 0xFF doubled and
  -- Enter as CR LF or CR NUL, so that its stream has no telnet commands. Nobody holds the turn, the pty
  -- takes every write, and TCP delivers the stream in any number of reads, cut anywhere. Then the reader
  -- goes on, and what the pty gets is exactly the keys, with a bare CR for each Enter.
  pub read_all-keys :
      (h : ConsoleHub) (ks : List Key) (bufs : List (List ℕ))
      → h.closed ≡ false
      → h.done ≡ false
      → h.turn.active ≡ false
      → flatten bufs ≡ escaped (sent ks)
      → let r = read_all pty h.made (attach h).0 new_negotiator bufs in
        (r.going ≡ true) × (r.hub.written ≡ h.written ++ meant ks)
  unfolding new_negotiator
  read_all-keys h ks bufs live up idle stream =
      let h1 = (attach h).0 in
      let silent : answers new_negotiator bufs ≡ 0 = answers-none new_negotiator bufs (
        ap (λ (l : List ℕ). (feed new_negotiator l).0.reply) stream
        ∙ ap (λ (x : Negotiator × List ℕ). x.0.reply)
            (feed-escaped new_negotiator (sent ks) refl)) in
      let (_, going, out, _) =
        read_all-Forwarded pty accepts h.made h1 new_negotiator bufs
          (attach-IsQuiet h (answers new_negotiator bufs) live up idle (omega (arith, silent))) in
      let (fresh, same) = attach_lem h live in
      let bytes : decoded new_negotiator bufs ≡ sent ks =
        decoded-feed new_negotiator bufs
        ∙ ap (λ (l : List ℕ). (feed new_negotiator l).1) stream
        ∙ ap (λ (x : Negotiator × List ℕ). x.1) (feed-escaped new_negotiator (sent ks) refl) in
      (
        going,
        out
            ∙ ap (λ (b : Bool). h1.written ++ (normalize_nvt (decoded new_negotiator bufs) b).0)
                fresh
            ∙ ap (λ (l : List ℕ). h1.written ++ (normalize_nvt l false).0) bytes
            ∙ ap (λ (x : List ℕ × Bool). h1.written ++ x.0) (normalize_nvt-sent ks)
            ∙ ap (λ (w : List ℕ). w ++ meant ks) same,
      )
