-- ===== src/Netmap/Interfaces.antt =====
-- netmap.go: the interfaces of a node, in their order.
use iolbox.Common.{
  ℕ, zero, suc, ◌+◌, ◌*◌, ◌<◌, ◌≡◌, refl, ◌∙◌, List, [], ◌++◌, length, length-append, append-nil,
  get_elem?, get_elem?-append_length, some, arith,
}
use iolbox.Netmap.{IfaceType, Iface, group_ports, groups, ifaces_for_counts}

length-groups : (t : IfaceType) (n a : ℕ) → length (groups t n a) ≡ 4 * n
unfolding groups group_ports
length-groups t zero a = refl
length-groups t (suc n) a = omega (arith, length-groups t n (a + 1))

-- Where the loops put the port `p` of the group `a + k`.
get_elem?-groups :
    (t : IfaceType) (n a k p : ℕ) (rest : List Iface)
    → k < n
    → p < 4
    → get_elem? (groups t n a ++ rest) (4 * k + p)
      ≡ some (record { type = t; adapter = a + k; port = p })
unfolding groups group_ports
get_elem?-groups t zero a k p rest h l = absurd (omega arith)
get_elem?-groups t (suc n) a zero zero rest h l = let e : a + 0 ≡ a = omega arith in rw e
get_elem?-groups t (suc n) a zero (suc zero) rest h l = let e : a + 0 ≡ a = omega arith in rw e
get_elem?-groups t (suc n) a zero (suc (suc zero)) rest h l =
    let e : a + 0 ≡ a = omega arith in rw e
get_elem?-groups t (suc n) a zero (suc (suc (suc zero))) rest h l =
    let e : a + 0 ≡ a = omega arith in rw e
get_elem?-groups t (suc n) a zero (suc (suc (suc (suc p)))) rest h l = absurd (omega arith)
get_elem?-groups t (suc n) a (suc k) p rest h l =
    let shift : 4 * suc k + p ≡ suc (suc (suc (suc (4 * k + p)))) = omega arith in
    let e : a + suc k ≡ a + 1 + k = omega arith in
    rw (shift, e) (get_elem?-groups t n (a + 1) k p rest (omega arith) l)

-- A node has four interfaces for each Ethernet and each Serial group and no others, and they stand in
-- order: the ports 0 to 3 of each Ethernet group, then those of each Serial group.
pub ifaces_for_counts_lem :
    (eth ser : ℕ)
    → (length (ifaces_for_counts eth ser) ≡ 4 * eth + 4 * ser)
      × ((a p : ℕ)
          → a < eth
          → p < 4
          → get_elem? (ifaces_for_counts eth ser) (4 * a + p)
            ≡ some (record { type = IfaceType.ethernet; adapter = a; port = p }))
      × ((a p : ℕ)
          → a < ser
          → p < 4
          → get_elem? (ifaces_for_counts eth ser) (4 * eth + (4 * a + p))
            ≡ some (record { type = IfaceType.serial; adapter = a; port = p }))
unfolding ifaces_for_counts
ifaces_for_counts_lem eth ser =
    let e = groups IfaceType.ethernet eth 0 in
    let s = groups IfaceType.serial ser 0 in
    let e_len = length-groups IfaceType.ethernet eth 0 in
    (
      omega (arith, length-append e s, e_len, length-groups IfaceType.serial ser 0),
      λ a p h l.
          let z : 0 + a ≡ a = omega arith in
          rw z at (get_elem?-groups IfaceType.ethernet eth 0 a p s h l),
      λ a p h l.
          let z : 0 + a ≡ a = omega arith in
          let whole : s ++ [] ≡ s = append-nil s in
          rw (← e_len) (get_elem?-append_length e s (4 * a + p))
          ∙ rw (z, whole) at (get_elem?-groups IfaceType.serial ser 0 a p [] h l),
    )
