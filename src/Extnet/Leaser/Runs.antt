-- ===== src/Extnet/Leaser/Runs.antt =====
-- dhcp.go: a pool of three addresses and two clients, one of which asks twice.
use iolbox.Common.{ℕ, ◌+◌, ◌≤◌, ◌≡◌, refl, [], ◌∷◌, some, arith}
use iolbox.Extnet.Leaser.{Leaser, new_leaser, lease}
use iolbox.Extnet.Leaser.Bindings.{serve, lease-serve}
use iolbox.Extnet.Leaser.Distinct.{newcomers, serve_lem}

abbrev pool : Leaser
pool = new_leaser 100 102

third : (lease (serve pool (7 ∷ 8 ∷ 7 ∷ [])) 9).1 ≡ 102
unfolding serve lease new_leaser
third = refl

lease-serve_example : (lease (serve (lease pool 7).0 (8 ∷ [])) 7).1 ≡ (lease pool 7).1
lease-serve_example = lease-serve pool 7 (8 ∷ [])

two_newcomers : 100 + newcomers pool (7 ∷ 8 ∷ 7 ∷ []) ≤ 103
unfolding newcomers lease new_leaser
two_newcomers = omega arith

serve_lem_example :
    ((m u : ℕ) → (serve pool (7 ∷ 8 ∷ 7 ∷ [])).by_mac m ≡ some u → (100 ≤ u) × (u ≤ 102))
    × ((m m' u : ℕ)
        → (serve pool (7 ∷ 8 ∷ 7 ∷ [])).by_mac m ≡ some u
        → (serve pool (7 ∷ 8 ∷ 7 ∷ [])).by_mac m' ≡ some u
        → m ≡ m')
serve_lem_example = serve_lem 100 102 (7 ∷ 8 ∷ 7 ∷ []) two_newcomers
