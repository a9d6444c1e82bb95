-- ===== src/Node/ConsoleHub/Attach/Runs.antt =====
-- console_hub.go: a telnet client that types two keys, cut inside the Enter key.
use iolbox.Common.{ℕ, ◌≡◌, refl, true, false, List, [], ◌∷◌, ◌++◌, length, arith}
use iolbox.Common.Texts.{codes}
use iolbox.Telnet.{new_negotiator}
use iolbox.Telnet.Streams.{escaped}
use mathlib.Core.List.{flatten}
use iolbox.Node.ConsoleHub.{new_console_hub}
use iolbox.Node.ConsoleHub.Nvt.{Key, enter_lf, enter_nul, plain, sent, meant}
use iolbox.Node.ConsoleHub.Input.{PtyWrite}
use iolbox.Node.ConsoleHub.Attach.{read_all, attach}
use iolbox.Node.ConsoleHub.Attach.Keyboard.{read_all-keys}

abbrev sound_pty : ℕ → List ℕ → PtyWrite
sound_pty i p = record { late = false; no_deadline = false; taken = length p; failed = false }

abbrev keys : List Key
keys =
    plain 97 (λ p. absurd (omega (arith, p)))
    ∷ enter_lf
    ∷ plain 255 (λ p. absurd (omega (arith, p)))
    ∷ enter_nul
    ∷ []

abbrev reads : List (List ℕ)
reads = (97 ∷ 13 ∷ []) ∷ (10 ∷ 255 ∷ []) ∷ (255 ∷ 13 ∷ 0 ∷ []) ∷ []

read_all-keys_example :
    let h = new_console_hub (codes "R1") in
    let r = read_all sound_pty h.made (attach h).0 new_negotiator reads in
    (r.going ≡ true) × (r.hub.written ≡ h.written ++ meant keys)
unfolding new_console_hub sent meant escaped flatten
read_all-keys_example =
    read_all-keys sound_pty (λ i p. refl) (new_console_hub (codes "R1")) keys reads refl refl refl
      refl
