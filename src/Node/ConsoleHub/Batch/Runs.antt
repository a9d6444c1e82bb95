-- ===== src/Node/ConsoleHub/Batch/Runs.antt =====
-- console_hub.go: a prompt that comes in two reads of one batch, and the end of the node.
use iolbox.Common.{◌≡◌, ◌≤◌, ℕ, refl, true, false, List, [], ◌∷◌, ◌++◌, suc, length, All}
use mathlib.Core.List.{flatten}
use iolbox.Common.Texts.{codes}
use iolbox.Node.ConsoleHub.{new_console_hub}
use iolbox.Node.ConsoleHub.Output.{shutdown}
use iolbox.Node.ConsoleHub.Batch.{PtyRead, read_console_batch, read_loop, read_limit}
use iolbox.Node.ConsoleHub.Batch.Loop.{broadcast_each, read_loop_lem}

abbrev sound : ℕ → PtyRead
sound n = record {
  late = false;
  size = n;
  timed_out = false;
  failed = false;
  clear_fails = false;
  set_fails = false;
}

abbrev reads : List PtyRead
reads = sound 1 ∷ sound 1 ∷ record (sound 0) { timed_out = true } ∷ sound 5 ∷ []

two_reads : (read_console_batch true 16384 (codes "R>en") reads).chunk ≡ codes "R>"
unfolding read_console_batch
two_reads = refl

read_loop_lem_example :
    let h = new_console_hub (codes "R1") in
    let (k, rest) = read_loop (suc (length reads)) true h (codes "R>en") reads in
    (chunks : List (List ℕ)) × (k ≡ shutdown (broadcast_each h chunks))
    × (flatten chunks ++ rest ≡ codes "R>en")
    × All (λ (chunk : List ℕ). length chunk ≤ read_limit true) chunks
unfolding new_console_hub
read_loop_lem_example = read_loop_lem true (new_console_hub (codes "R1")) (codes "R>en") reads refl
