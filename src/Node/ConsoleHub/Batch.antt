-- ===== src/Node/ConsoleHub/Batch.antt =====
-- console_hub.go: readConsoleBatch and readLoop, the one reader of the pty. The pty is the stream of bytes
-- that it has still to give; each read has a size at which it stops short, and a length of time that
-- shows in what it says about the deadline.
pub mod Loop
mod Runs
use iolbox.Common.{
  ℕ, zero, suc, ◌-◌, Bool, true, false, not, ◌&&◌, ◌||◌, leb, if◌then◌else◌, List, [], ◌∷◌, ◌++◌,
  length, take, drop,
}
use Prim.Native.Nat.{min}
use iolbox.Node.ConsoleHub.{ConsoleHub}
use iolbox.Node.ConsoleHub.Input.{is_empty}
use iolbox.Node.ConsoleHub.Output.{broadcast, shutdown}

-- One read: whether the window is over before it, how many bytes it gives at most, whether it ends by the
-- deadline or fails, and whether the calls of SetReadDeadline around it fail.
pub record PtyRead : Type 0 where
  pub late : Bool
  pub size : ℕ
  pub timed_out : Bool
  pub failed : Bool
  pub clear_fails : Bool
  pub set_fails : Bool

-- The bytes of a batch, whether it ends with an error, and what is left of the pty.
pub record Batch : Type 0 where
  pub chunk : List ℕ
  pub error : Bool
  pub stream : List ℕ
  pub reads : List PtyRead

abbrev pub console_read_batch_limit : ℕ
console_read_batch_limit = 16384

-- The loop of a batch, from the bytes read so far. Behind the last read the pty is gone.
pub read_more : ℕ → List ℕ → List ℕ → List PtyRead → Batch
read_more limit so_far stream [] = record {
  chunk = so_far;
  error = not (leb limit (length so_far));
  stream = stream;
  reads = [];
}
read_more limit so_far stream (r ∷ reads) =
    let n = min r.size (limit - length so_far) in
    let whole = so_far ++ take n stream in
    let rest = read_more limit whole (drop n stream) reads in
    if leb limit (length so_far) || r.late
    then record { chunk = so_far; error = false; stream = stream; reads = r ∷ reads }
    else if r.timed_out
    then record { chunk = whole; error = false; stream = drop n stream; reads = reads }
    else if r.failed
    then record { chunk = whole; error = true; stream = drop n stream; reads = reads }
    else if is_empty (take n stream)
    then record { chunk = whole; error = false; stream = drop n stream; reads = reads }
    else rest

-- `deadline` says that the pty has deadlines.
pub read_console_batch : Bool → ℕ → List ℕ → List PtyRead → Batch
unfolding read_more
read_console_batch deadline limit stream [] = record {
  chunk = [];
  error = true;
  stream = stream;
  reads = [];
}
read_console_batch deadline limit stream (r ∷ reads) =
    let n = min r.size limit in
    let first = take n stream in
    let error = r.timed_out || r.failed in
    if deadline && r.clear_fails
    then record { chunk = []; error = true; stream = stream; reads = reads }
    else if is_empty first || error || not deadline || leb limit (length first)
    then record { chunk = first; error = error; stream = drop n stream; reads = reads }
    else if r.set_fails
    then record { chunk = first; error = true; stream = drop n stream; reads = reads }
    else read_more limit first (drop n stream) reads

abbrev pub read_limit : Bool → ℕ
read_limit deadline = if deadline then console_read_batch_limit else 4096

-- `readLoop`, with the hub and what is left of the pty at its end. A batch takes one read at least, so
-- one unit of fuel more than there are reads is enough.
pub read_loop : ℕ → Bool → ConsoleHub → List ℕ → List PtyRead → ConsoleHub × List ℕ
unfolding read_console_batch
read_loop zero deadline h stream reads = (h, stream)
read_loop (suc fuel) deadline h stream reads =
    let b = read_console_batch deadline (read_limit deadline) stream reads in
    let h' = if is_empty b.chunk then h else broadcast h b.chunk in
    let rest = read_loop fuel deadline h' b.stream b.reads in
    if h.done then (h, stream) else if b.error then (shutdown h', b.stream) else rest
