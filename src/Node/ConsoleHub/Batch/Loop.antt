-- ===== src/Node/ConsoleHub/Batch/Loop.antt =====
-- console_hub.go: the reader of the pty broadcasts the stream, in order and whole, until the pty is gone.
use iolbox.Common.{
  ℕ, zero, suc, ◌-◌, ◌≤◌, ◌<◌, ◌≡◌, refl, ap, ◌∙◌, Bool, false, not, ◌&&◌, ◌||◌, leb, if◌then◌else◌,
  List, [], ◌∷◌, ◌++◌, length, take, drop, All, length-append, length-take, take-drop, append_assoc,
  if_lem, arith,
}
use Prim.Native.Nat.{min}
use mathlib.Core.List.{flatten}
use iolbox.Node.ConsoleHub.{ConsoleHub}
use iolbox.Node.ConsoleHub.Input.{is_empty}
use iolbox.Node.ConsoleHub.Output.{broadcast, shutdown}
use iolbox.Node.ConsoleHub.Output.Broadcasts.{broadcast-Frame}
use iolbox.Node.ConsoleHub.Batch.{
  PtyRead, Batch, read_more, read_console_batch, read_limit, read_loop,
}

-- A batch is the beginning of the stream and no longer than the limit.
abbrev Cut : ℕ → List ℕ → Batch → Type 0
Cut limit stream b = (b.chunk ++ b.stream ≡ stream) × (length b.chunk ≤ limit)

read_more-Cut :
    (limit : ℕ) (so_far stream : List ℕ) (reads : List PtyRead)
    → length so_far ≤ limit
    → Cut limit (so_far ++ stream) (read_more limit so_far stream reads)
unfolding read_more
read_more-Cut limit so_far stream [] fits = (refl, fits)
read_more-Cut limit so_far stream (r ∷ reads) fits =
    let n = min r.size (limit - length so_far) in
    let whole = so_far ++ take n stream in
    let joined : whole ++ drop n stream ≡ so_far ++ stream =
      append_assoc so_far (take n stream) (drop n stream)
      ∙ ap (λ (l : List ℕ). so_far ++ l) (take-drop n stream) in
    let small : length whole ≤ limit =
      omega (arith, length-append so_far (take n stream), length-take n stream, fits) in
    let C = Cut limit (so_far ++ stream) in
    if_lem C (leb limit (length so_far) || r.late) (λ _. (refl, fits))
      (λ _.
        if_lem C r.timed_out (λ _. (joined, small))
          (λ _.
            if_lem C r.failed (λ _. (joined, small))
              (λ _.
                if_lem C (is_empty (take n stream)) (λ _. (joined, small))
                  (λ _.
                    let rest = read_more-Cut limit whole (drop n stream) reads small in
                    (rest.0 ∙ joined, rest.1)))))

read_console_batch-Cut :
    (deadline : Bool) (limit : ℕ) (stream : List ℕ) (reads : List PtyRead)
    → Cut limit stream (read_console_batch deadline limit stream reads)
unfolding read_console_batch
read_console_batch-Cut deadline limit stream [] = (refl, omega arith)
read_console_batch-Cut deadline limit stream (r ∷ reads) =
    let n = min r.size limit in
    let first = take n stream in
    let small : length first ≤ limit = omega (arith, length-take n stream) in
    let C = Cut limit stream in
    if_lem C (deadline && r.clear_fails) (λ _. (refl, omega arith))
      (λ _.
        if_lem C
          (is_empty first || (r.timed_out || r.failed) || not deadline || leb limit (length first))
          (λ _. (take-drop n stream, small))
          (λ _.
            if_lem C r.set_fails (λ _. (take-drop n stream, small))
              (λ _.
                let rest = read_more-Cut limit first (drop n stream) reads small in
                (rest.0 ∙ take-drop n stream, rest.1))))

read_more-length :
    (limit : ℕ) (so_far stream : List ℕ) (reads : List PtyRead)
    → length (read_more limit so_far stream reads).reads ≤ length reads
unfolding read_more
read_more-length limit so_far stream [] = omega arith
read_more-length limit so_far stream (r ∷ reads) =
    let n = min r.size (limit - length so_far) in
    let ih = read_more-length limit (so_far ++ take n stream) (drop n stream) reads in
    ground (arith, ih)

-- A batch that ends without an error has taken a read.
read_console_batch-length :
    (deadline : Bool) (limit : ℕ) (stream : List ℕ) (reads : List PtyRead)
    → (read_console_batch deadline limit stream reads).error ≡ false
    → length (read_console_batch deadline limit stream reads).reads < length reads
unfolding read_console_batch
read_console_batch-length deadline limit stream [] h = cc h
read_console_batch-length deadline limit stream (r ∷ reads) h =
    let n = min r.size limit in
    let ih = read_more-length limit (take n stream) (drop n stream) reads in ground (arith, ih)

unfoldable pub broadcast_each : ConsoleHub → List (List ℕ) → ConsoleHub
broadcast_each h [] = h
broadcast_each h (chunk ∷ chunks) = broadcast_each (broadcast h chunk) chunks

-- The stream cut into chunks of at most `limit` bytes, and the end of the hub.
abbrev Pumped : ℕ → ConsoleHub → List ℕ → ConsoleHub × List ℕ → Type 0
Pumped limit h stream (k, rest) =
    (chunks : List (List ℕ)) × (k ≡ shutdown (broadcast_each h chunks))
    × (flatten chunks ++ rest ≡ stream)
    × All (λ (chunk : List ℕ). length chunk ≤ limit) chunks

Pumped-batch :
    (limit : ℕ) (h : ConsoleHub) (stream chunk rest : List ℕ) (end : ConsoleHub × List ℕ)
    → chunk ++ rest ≡ stream
    → length chunk ≤ limit
    → Pumped limit (if is_empty chunk then h else broadcast h chunk) rest end
    → Pumped limit h stream end
unfolding flatten broadcast_each
Pumped-batch limit h stream [] rest end cut fits (chunks, hub, all, small) =
    (chunks, hub, all ∙ cut, small)
Pumped-batch limit h stream (b ∷ chunk) rest end cut fits (chunks, hub, all, small) = (
  (b ∷ chunk) ∷ chunks,
  hub,
  append_assoc (b ∷ chunk) (flatten chunks) end.1 ∙ ap (λ (l : List ℕ). (b ∷ chunk) ++ l) all ∙ cut,
  (fits, small),
)

batch_done :
    (h : ConsoleHub) (chunk : List ℕ)
    → h.done ≡ false
    → (if is_empty chunk then h else broadcast h chunk).done ≡ false
batch_done h [] up = up
batch_done h (b ∷ chunk) up = (broadcast-Frame h (b ∷ chunk)).3 ∙ up

read_loop-Pumped :
    (fuel : ℕ) (deadline : Bool) (h : ConsoleHub) (stream : List ℕ) (reads : List PtyRead)
    → length reads < fuel
    → h.done ≡ false
    → Pumped (read_limit deadline) h stream (read_loop fuel deadline h stream reads)
unfolding read_loop flatten broadcast_each
read_loop-Pumped zero deadline h stream reads enough up = absurd (omega arith)
read_loop-Pumped (suc fuel) deadline h stream reads enough up =
    let limit = read_limit deadline in
    let b = read_console_batch deadline limit stream reads in
    let h' = if is_empty b.chunk then h else broadcast h b.chunk in
    let cut = read_console_batch-Cut deadline limit stream reads in
    let still = batch_done h b.chunk up in
    if_lem (Pumped limit h stream) h.done (λ down. absurd (cc (up, down)))
      (λ _.
        if_lem (Pumped limit h stream) b.error
          (λ _.
            Pumped-batch limit h stream b.chunk b.stream (shutdown h', b.stream) cut.0 cut.1
              ([], refl, refl, tt))
          (λ fine.
            Pumped-batch limit h stream b.chunk b.stream
              (read_loop fuel deadline h' b.stream b.reads) cut.0 cut.1
              (read_loop-Pumped fuel deadline h' b.stream b.reads
                (omega (arith, read_console_batch-length deadline limit stream reads fine)) still)))

-- While the hub is not ended from outside, the read loop ends, whatever the reads give and whenever they
-- stop: a hub that broadcasts some chunks and shuts down. The chunks are the beginning of what the pty
-- had to give, in order and with no byte lost or doubled, and none is longer than the limit.
pub read_loop_lem :
    (deadline : Bool) (h : ConsoleHub) (stream : List ℕ) (reads : List PtyRead)
    → h.done ≡ false
    → let (k, rest) = read_loop (suc (length reads)) deadline h stream reads in
      (chunks : List (List ℕ)) × (k ≡ shutdown (broadcast_each h chunks))
      × (flatten chunks ++ rest ≡ stream)
      × All (λ (chunk : List ℕ). length chunk ≤ read_limit deadline) chunks
read_loop_lem deadline h stream reads up =
    read_loop-Pumped (suc (length reads)) deadline h stream reads (omega arith) up
