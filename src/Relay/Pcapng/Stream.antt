-- ===== src/Relay/Pcapng/Stream.antt =====
-- pcapng.go: a reader of a capture, and what it makes of the stream that is written.
use iolbox.Common.{
  ℕ, zero, suc, ◌^◌, ◌<◌, ◌≤◌, ◌≡◌, refl, sym, ap, ◌∙◌, Bool, true, false, ◌&&◌, if◌then◌else◌,
  ◌==◌, List, [], ◌∷◌, ◌++◌, length, All, Option, some, none, ◌>>=◌, arith, length-append,
  append_assoc, append-nil,
}
use iolbox.Common.Bytes.{zeros}
use iolbox.Relay.Pcapng.{
  epb, epb_total, pad_of, shb, idb, PcapngWriter, new_pcapng_writer, write_header, write_frame,
}
use iolbox.Relay.Pcapng.Blocks.{
  read_block, read_section, read_interface, read_epb, framed, epb_head, epb-framed, length-epb_body,
  read_block-framed, read_epb-body,
}

abbrev pub Capture : Type 0
Capture = List (List ℕ × ℕ)

-- The enhanced packet blocks up to the end of the input; the fuel bounds their number.
read_frames : ℕ → List ℕ → Option Capture
read_frames fuel [] = some []
read_frames zero (x ∷ xs) = none
read_frames (suc fuel) (x ∷ xs) = do
  ((kind, body), rest) ← read_block (x ∷ xs)
  frame ← read_epb body
  frames ← read_frames fuel rest
  if kind == 6 then some (frame ∷ frames) else none

-- A section header, an interface description, and packets: the link type and the snapshot length, and
-- the capture.
pub read_stream : List ℕ → Option ((ℕ × ℕ) × Capture)
unfolding read_frames
read_stream input = do
  ((section, header), input) ← read_block input
  ((interface, description), input) ← read_block input
  _ ← read_section header
  link ← read_interface description
  frames ← read_frames (length input) input
  if section == 0x0a0d0d0a && interface == 1 then some (link, frames) else none

-- What fits in the format: a timestamp of 64 bits, and a block length of 32.
abbrev pub Fits : List ℕ × ℕ → Type 0
Fits (frame, ts) = (epb_total (length frame) < 4294967296) × (ts < 2 ^ 64)

epbs : Capture → List ℕ
epbs [] = []
epbs ((frame, ts) ∷ frames) = epb frame ts ++ epbs frames

length-epbs : (frames : Capture) → length frames ≤ length (epbs frames)
unfolding epbs
length-epbs [] = omega arith
length-epbs ((frame, ts) ∷ frames) =
    let body = epb_head frame ts ++ (frame ++ zeros (pad_of (length frame))) in
    rw (epb-framed frame ts, length-append (framed 6 body) (epbs frames))
      (omega (arith, length-epbs frames))

read_frames-epb :
    (fuel : ℕ) (frame : List ℕ) (ts : ℕ) (rest : List ℕ)
    → Fits (frame, ts)
    → read_frames (suc fuel) (epb frame ts ++ rest)
      ≡ (do frames ← read_frames fuel rest; some ((frame, ts) ∷ frames))
unfolding read_frames
read_frames-epb fuel frame ts rest fits =
    let body = epb_head frame ts ++ (frame ++ zeros (pad_of (length frame))) in
    let total = length-epb_body frame ts in
    let block : read_block (framed 6 body ++ rest) ≡ some ((6, body), rest) =
      read_block-framed 6 body rest (omega arith) (omega (arith, total, fits.0))
        (omega (arith, total)) in
    rw (epb-framed frame ts, block, read_epb-body frame ts (omega (arith, fits.0)) fits.1)

read_frames-epbs :
    (fuel : ℕ) (frames : Capture)
    → length frames ≤ fuel
    → All Fits frames
    → read_frames fuel (epbs frames) ≡ some frames
unfolding epbs
read_frames-epbs fuel [] l fits = unfold read_frames in refl
read_frames-epbs zero (f ∷ frames) l fits = absurd (omega arith)
read_frames-epbs (suc fuel) ((frame, ts) ∷ frames) l (f, fits) =
    read_frames-epb fuel frame ts (epbs frames) f
    ∙ rw (read_frames-epbs fuel frames (omega arith) fits)

read_stream-header :
    (frames : Capture)
    → All Fits frames
    → read_stream (shb ++ idb ++ epbs frames) ≡ some ((1, 262144), frames)
unfolding read_stream shb idb read_block read_section read_interface
read_stream-header frames fits =
    ap (λ (o : Option Capture). do frames ← o; some ((1, 262144), frames))
      (read_frames-epbs (length (epbs frames)) frames (length-epbs frames) fits)

module _ {W : Type 0} (write : W → List ℕ → W × Bool) where
  -- Every frame in turn, and whether all were taken.
  pub write_frames : PcapngWriter W → Capture → PcapngWriter W × Bool
  write_frames p [] = (p, true)
  write_frames p ((frame, ts) ∷ frames) =
      let first = write_frame write p frame ts in
      let others = write_frames first.0 frames in (others.0, first.1 && others.1)

module _ {W : Type 0} (write : W → List ℕ → W × Bool) (out : W → List ℕ)
    (takes : (w : W) (b : List ℕ) → (write w b).1 ≡ true)
    (appends : (w : W) (b : List ℕ) → out (write w b).0 ≡ out w ++ b) where
  write_frame-later :
      (p : PcapngWriter W) (frame : List ℕ) (ts : ℕ)
      → p.wrote_hdr ≡ true
      → let sent = write_frame write p frame ts in
        (sent.0.wrote_hdr ≡ true) × (sent.1 ≡ true) × (out sent.0.w ≡ out p.w ++ epb frame ts)
  unfolding write_frame write_header
  write_frame-later p frame ts h = rw h (refl, takes p.w (epb frame ts), appends p.w (epb frame ts))

  write_frame-first :
      (p : PcapngWriter W) (frame : List ℕ) (ts : ℕ)
      → p.wrote_hdr ≡ false
      → let sent = write_frame write p frame ts in
        (sent.0.wrote_hdr ≡ true)
        × (sent.1 ≡ true)
        × (out sent.0.w ≡ out p.w ++ (shb ++ (idb ++ epb frame ts)))
  unfolding write_frame write_header
  write_frame-first p frame ts h =
      let w1 = (write p.w shb).0 in
      let w2 = (write w1 idb).0 in
      let e = epb frame ts in
      let sent : out (write w2 e).0 ≡ out p.w ++ (shb ++ (idb ++ e)) =
        rw (appends w2 e, appends w1 idb, appends p.w shb)
          (append_assoc (out p.w ++ shb) idb e ∙ append_assoc (out p.w) shb (idb ++ e)) in
      rw (h, takes p.w shb, takes w1 idb) (refl, takes w2 e, sent)

  write_frames-later :
      (p : PcapngWriter W) (frames : Capture)
      → p.wrote_hdr ≡ true
      → ((write_frames write p frames).1 ≡ true)
        × (out (write_frames write p frames).0.w ≡ out p.w ++ epbs frames)
  unfolding write_frames epbs
  write_frames-later p [] h = (refl, sym (append-nil (out p.w)))
  write_frames-later p ((frame, ts) ∷ frames) h =
      let first = write_frame-later p frame ts h in
      let others = write_frames-later (write_frame write p frame ts).0 frames first.0 in
      (
        rw (first.1, others.0),
        others.1 ∙ rw first.2 (append_assoc (out p.w) (epb frame ts) (epbs frames)),
      )

  -- With an io.Writer that takes every write and appends it to its output, which is empty at first:
  -- a new capture writer accepts any one or more frames that fit the format, and the output is a
  -- little-endian pcapng stream of version 1.0, from which a reader of the format gets the link type of
  -- Ethernet, the snapshot length 262144, and these frames, byte for byte, with their timestamps, in
  -- their order.
  pub read_stream-write_frames :
      (w : W) (frame : List ℕ) (ts : ℕ) (frames : Capture)
      → out w ≡ []
      → All Fits ((frame, ts) ∷ frames)
      → let sent = write_frames write (new_pcapng_writer w) ((frame, ts) ∷ frames) in
        (sent.1 ≡ true) × (read_stream (out sent.0.w) ≡ some ((1, 262144), (frame, ts) ∷ frames))
  unfolding write_frames epbs
  read_stream-write_frames w frame ts frames h fits =
      let p = new_pcapng_writer w in
      let start : out p.w ≡ [] = unfold new_pcapng_writer in h in
      let first = write_frame-first p frame ts (unfold new_pcapng_writer in refl) in
      let others = write_frames-later (write_frame write p frame ts).0 frames first.0 in
      let all : out (write_frames write (write_frame write p frame ts).0 frames).0.w
          ≡ shb ++ idb ++ epbs ((frame, ts) ∷ frames) =
        others.1
        ∙ rw (first.2, start)
            (append_assoc shb (idb ++ epb frame ts) (epbs frames)
              ∙ ap (λ (l : List ℕ). shb ++ l) (append_assoc idb (epb frame ts) (epbs frames))
              ∙ sym (append_assoc shb idb (epb frame ts ++ epbs frames))) in
      (rw (first.1, others.0), rw all (read_stream-header ((frame, ts) ∷ frames) fits))
