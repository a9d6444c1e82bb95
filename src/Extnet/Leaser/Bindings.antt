-- ===== src/Extnet/Leaser/Bindings.antt =====
-- dhcp.go: a lease stays in the pool, and a client keeps its address.
use iolbox.Common.{ℕ, ◌≡◌, inl, inr, ◌==◌, Bool-cases, Option-cases, List, [], ◌∷◌, some, arith}
use iolbox.Extnet.Leaser.{Leaser, lease}

-- The requests of a list of clients, in order.
unfoldable pub serve : Leaser → List ℕ → Leaser
serve l [] = l
serve l (mac ∷ macs) = serve (lease l mac).0 macs

-- A binding is never changed.
pub lease_keeps :
    (l : Leaser) (mac m u : ℕ) → l.by_mac m ≡ some u → (lease l mac).0.by_mac m ≡ some u
unfolding lease
lease_keeps l mac m u h = elim (Option-cases (l.by_mac mac)) [
  | inl e ↦ rw e (elim (Bool-cases (m == mac)) [ inl d ↦ absurd (ground arith) | inr d ↦ rw d h ])
  | inr (v, e) ↦ rw e h
]

serve_keeps :
    (l : Leaser) (macs : List ℕ) (m u : ℕ) → l.by_mac m ≡ some u → (serve l macs).by_mac m ≡ some u
unfolding serve
serve_keeps l [] m u h = h
serve_keeps l (mac ∷ macs) m u h = serve_keeps (lease l mac).0 macs m u (lease_keeps l mac m u h)

pub lease_binds : (l : Leaser) (mac : ℕ) → (lease l mac).0.by_mac mac ≡ some (lease l mac).1
unfolding lease
lease_binds l mac = elim (Option-cases (l.by_mac mac)) [
  | inl e ↦ rw e (ground arith)
  | inr (v, e) ↦ rw e e
]

pub lease_again : (l : Leaser) (mac u : ℕ) → l.by_mac mac ≡ some u → (lease l mac).1 ≡ u
unfolding lease
lease_again l mac u h = rw h

-- A client that asks again is given the address that it was given before, whoever has asked since.
pub lease-serve :
    (l : Leaser) (mac : ℕ) (macs : List ℕ)
    → (lease (serve (lease l mac).0 macs) mac).1 ≡ (lease l mac).1
lease-serve l mac macs =
    lease_again (serve (lease l mac).0 macs) mac (lease l mac).1
      (serve_keeps (lease l mac).0 macs mac (lease l mac).1 (lease_binds l mac))
