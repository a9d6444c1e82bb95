-- ===== src/Node/ConsoleHub/Input/Runs.antt =====
-- console_hub.go: a painter that runs a command while students type.
use iolbox.Common.{ℕ, ◌≡◌, refl, true, false, List, [], ◌∷◌, ◌++◌, length, keep_last, arith}
use mathlib.Core.List.{flatten}
use iolbox.Common.Texts.{codes}
use iolbox.Node.ConsoleHub.{new_console_hub}
use iolbox.Node.ConsoleHub.Input.{
  PtyWrite, claimed, claim_turn, gated_write, write_turn, release_once, turn_queue_cap,
}
use iolbox.Node.ConsoleHub.Input.Turns.{
  Request, typed, driven, claims, released, driven_bytes, typed_chunks, Accepts, run, step,
}
use iolbox.Node.ConsoleHub.Input.Arbitration.{turn_exclusive}

abbrev sound_pty : ℕ → List ℕ → PtyWrite
sound_pty i p = record { late = false; no_deadline = false; taken = length p; failed = false }

sound_pty-Accepts : Accepts sound_pty
sound_pty-Accepts i p = refl

abbrev earlier : List Request
earlier = claims false (codes "a") ∷ typed (codes "x") ∷ released 0 true ∷ []

abbrev meanwhile : List Request
meanwhile =
    typed (codes "ping")
    ∷ driven false 2 (codes "show ver")
    ∷ typed []
    ∷ driven false 1 (codes "stale")
    ∷ claims false (codes "b")
    ∷ released 0 true
    ∷ typed (codes "!")
    ∷ []

turn_exclusive_example :
    let h = run sound_pty (new_console_hub (codes "R1")) earlier in
    let w = run sound_pty (claim_turn sound_pty h false (codes "painter")).0 meanwhile in
    ((claim_turn sound_pty h false (codes "painter")).1 ≡ claimed 1 2)
    × (w.written ≡ h.written ++ driven_bytes 2 meanwhile)
    × ((release_once sound_pty w 1 true).written
        ≡ w.written ++ flatten (keep_last turn_queue_cap (typed_chunks meanwhile)))
unfolding run step gated_write write_turn claim_turn release_once new_console_hub
turn_exclusive_example =
    turn_exclusive sound_pty sound_pty-Accepts (codes "R1") (codes "painter") earlier meanwhile refl
      (tt, (tt, (tt, (tt, (tt, ((λ p. absurd (omega (arith, p))), (tt, tt)))))))

-- The painter's command is not cut, the students' input comes after it, and the stale write is refused.
painter_runs :
    let h = run sound_pty (new_console_hub (codes "R1")) earlier in
    let w = run sound_pty (claim_turn sound_pty h false (codes "painter")).0 meanwhile in
    (release_once sound_pty w 1 true).written ≡ codes "xshow verping!"
unfolding run step gated_write write_turn claim_turn release_once new_console_hub
painter_runs = refl
