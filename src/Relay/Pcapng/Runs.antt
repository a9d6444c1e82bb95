-- ===== src/Relay/Pcapng/Runs.antt =====
-- pcapng.go: a capture of two frames into a buffer.
use iolbox.Common.{ℕ, ◌≡◌, refl, Bool, true, List, [], ◌∷◌, ◌++◌, length, some, arith}
use iolbox.Relay.Pcapng.{epb, new_pcapng_writer}
use iolbox.Relay.Pcapng.Stream.{write_frames, read_stream, read_stream-write_frames}

-- A buffer that takes every write, as bytes.Buffer does.
abbrev buffer_write : List ℕ → List ℕ → List ℕ × Bool
buffer_write w b = (w ++ b, true)

epb_padded : length (epb (1 ∷ 2 ∷ 3 ∷ []) 0) ≡ 36
unfolding epb
epb_padded = refl

read_stream-write_frames_example :
    let sent =
      write_frames buffer_write
        (new_pcapng_writer [])
        ((1 ∷ 2 ∷ 3 ∷ [], 5000000000) ∷ ([], 1) ∷ []) in
    (sent.1 ≡ true)
    × (read_stream sent.0.w ≡ some ((1, 262144), (1 ∷ 2 ∷ 3 ∷ [], 5000000000) ∷ ([], 1) ∷ []))
read_stream-write_frames_example =
    read_stream-write_frames buffer_write (λ w. w) (λ w b. refl) (λ w b. refl) [] (1 ∷ 2 ∷ 3 ∷ [])
      5000000000 (([], 1) ∷ []) refl ((omega arith, omega arith), ((omega arith, omega arith), tt))
