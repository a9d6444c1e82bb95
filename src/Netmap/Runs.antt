-- ===== src/Netmap/Runs.antt =====
-- netmap.go: a pool with two real instances in it, and a node with three groups.
use iolbox.Common.{
  ℕ, ◌<◌, ◌≡◌, refl, Bool, true, false, ◌||◌, ◌==◌, List, [], ◌∷◌, length, All, some, none,
}
use iolbox.Netmap.{IfaceType, index, alloc_loop, alloc_pseudo_instances, validate_instance}
use iolbox.Netmap.Pool.{free_ids, IsAscending, alloc_pseudo_instances_lem}

abbrev two_real : ℕ → Bool
two_real id = id == 500 || id == 502

skips_real : alloc_loop 5 two_real 2 500 [] ≡ 501 ∷ 503 ∷ []
unfolding alloc_loop
skips_real = refl

instances : (validate_instance 0 ≡ true) × (validate_instance 1024 ≡ false)
unfolding validate_instance
instances = (refl, refl)

serial_index : index (record { type = IfaceType.serial; adapter = 1; port = 2 }) ≡ 18
unfolding index
serial_index = refl

alloc_pseudo_instances_lem_example :
    ((out : List ℕ)
      → alloc_pseudo_instances two_real 2 ≡ some out
      → (length out ≡ 2) × IsAscending 500 1025 out × All (λ x. two_real x ≡ false) out)
    × (alloc_pseudo_instances two_real 2 ≡ none → length (free_ids two_real 525 500) < 2)
alloc_pseudo_instances_lem_example = alloc_pseudo_instances_lem two_real 2
