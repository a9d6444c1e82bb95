-- ===== src/Relay/Classify/Runs.antt =====
-- classify.go: the theorems at an ARP request, a short IPv4 frame and a BGP segment.
use iolbox.Common.{ℕ, ◌≡◌, ◌≢◌, refl, true, List, [], ◌∷◌, ◌++◌, some, none, length, ◌>>=◌, arith}
use iolbox.Relay.Classify
use iolbox.Relay.Classify.Total.{classify_detailed_total}
use iolbox.Relay.Classify.Vlan.{tag, classify_detailed-tag}
use iolbox.Relay.Classify.Ports.{classify_ports_comm}

abbrev two_macs : List ℕ
two_macs = 255 ∷ 255 ∷ 255 ∷ 255 ∷ 255 ∷ 255 ∷ 2 ∷ 0 ∷ 0 ∷ 0 ∷ 0 ∷ 1 ∷ []

abbrev arp_body : List ℕ
arp_body = 0 ∷ 1 ∷ 8 ∷ 0 ∷ 6 ∷ 4 ∷ 0 ∷ 1 ∷ []

classify_detailed_total_example :
    Classify.classify_detailed (two_macs ++ (8 ∷ 0 ∷ 0x45 ∷ [])) ≢ none
classify_detailed_total_example = classify_detailed_total (two_macs ++ (8 ∷ 0 ∷ 0x45 ∷ []))

classify_detailed-tag_example :
    Classify.classify_detailed (tag two_macs 0 10 (8 ∷ 6 ∷ arp_body)) ≡ (do
      (label, subtype, _) ← Classify.classify_detailed (two_macs ++ (8 ∷ 6 ∷ arp_body))
      some (label, subtype, true))
classify_detailed-tag_example =
    classify_detailed-tag two_macs 0 10 8 6 arp_body refl (λ e. absurd (omega (arith, e)))

classify_ports_comm_example :
    Classify.classify_ports 6 (two_macs ++ (200 ∷ 1 ∷ 0 ∷ 179 ∷ [])) (length two_macs)
    ≡ Classify.classify_ports 6 (two_macs ++ (0 ∷ 179 ∷ 200 ∷ 1 ∷ [])) (length two_macs)
classify_ports_comm_example = classify_ports_comm 6 200 1 0 179 two_macs [] []
