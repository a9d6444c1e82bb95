-- ===== src/Relay/Classify/Ports.antt =====
-- classify.go: the well-known ports.
use iolbox.Common.{
  ℕ, ◌+◌, ◌≡◌, refl, false, List, ◌∷◌, ◌++◌, some, arith, length, ltb, length-append, ge→ltb,
}
use iolbox.Common.Bytes.{be16}
use iolbox.Relay.Classify.{port_label, classify_ports, word}
use iolbox.Relay.Classify.Vlan.{at_behind}

port_label_comm : (proto src dst : ℕ) → port_label proto src dst ≡ port_label proto dst src
unfolding port_label
port_label_comm proto src dst = ground arith

-- What `classifyPorts` reads from a segment whose first four bytes are its ports.
ports_of :
    (proto a b c d : ℕ) (pre body : List ℕ)
    → classify_ports proto (pre ++ (a ∷ b ∷ c ∷ d ∷ body)) (length pre)
      ≡ some (port_label proto (be16 a b) (be16 c d))
unfolding classify_ports word
ports_of proto a b c d pre body =
    let frame = pre ++ (a ∷ b ∷ c ∷ d ∷ body) in
    let n = length pre in
    let enough : ltb (length frame) (n + 4) ≡ false =
      rw length-append (ge→ltb (n + length (a ∷ b ∷ c ∷ d ∷ body)) (n + 4) (omega arith)) in
    rw (
      enough,
      at_behind pre (a ∷ b ∷ c ∷ d ∷ body) n n 0 refl (omega arith),
      at_behind pre (a ∷ b ∷ c ∷ d ∷ body) n (n + 1) 1 refl refl,
      at_behind pre (a ∷ b ∷ c ∷ d ∷ body) n (n + 2) 2 refl refl,
      at_behind pre (a ∷ b ∷ c ∷ d ∷ body) n (n + 3) 3 refl refl,
    )

-- A TCP or UDP segment and one with the two port fields exchanged get the same label, behind any
-- headers and whatever follows the ports.
pub classify_ports_comm :
    (proto a b c d : ℕ) (pre body body' : List ℕ)
    → classify_ports proto (pre ++ (a ∷ b ∷ c ∷ d ∷ body)) (length pre)
      ≡ classify_ports proto (pre ++ (c ∷ d ∷ a ∷ b ∷ body')) (length pre)
classify_ports_comm proto a b c d pre body body' = rw (
  ports_of proto a b c d pre body,
  ports_of proto c d a b pre body',
  port_label_comm proto (be16 a b) (be16 c d),
)
