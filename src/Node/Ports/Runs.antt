-- ===== src/Node/Ports/Runs.antt =====
-- ports.go: an allocator of three ports.
use iolbox.Common.{ℕ, ◌<◌, ◌≤◌, ◌≡◌, refl, true, false, some, none, arith, ◌==◌, if◌then◌else◌}
use iolbox.Node.Ports.{PortAllocator, new_port_allocator, scan, next, reserve, release, mark}
use iolbox.Node.Ports.Lowest.{Lowest, next_lem, next-release}

abbrev three : PortAllocator
three = record { base = 32000; max_port = 32003; taken = mark (λ _. false) 32000 true }

new_three : (new_port_allocator 32000 3).max_port ≡ 32003
unfolding new_port_allocator
new_three = refl

next-three : (next three).1 ≡ some 32001
unfolding next scan
next-three = refl

reserve_twice : (reserve (reserve three 32002).0 32002).1 ≡ false
unfolding reserve
reserve_twice = refl

next_lem_example :
    ((r : ℕ)
      → (next three).1 ≡ some r
      → Lowest three.taken 32000 32003 r
        × ((q : ℕ) → (next three).0.taken q ≡ (if q == r then true else three.taken q)))
    × ((next three).1 ≡ none
        → ((next three).0 ≡ three) × ((q : ℕ) → 32000 ≤ q → q < 32003 → three.taken q ≡ true))
next_lem_example = next_lem three (omega arith)

next-release_example : (r : ℕ) × ((next (release three 32000)).1 ≡ some r) × (r ≤ 32000)
next-release_example = next-release three 32000 (omega arith) (omega arith)
