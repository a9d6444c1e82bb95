-- ===== src/Lab/Validate/NodeMaps.antt =====
-- validate.go: the loop over the nodes, and the map of the nodes by id that it makes.
use iolbox.Common.{◌≡◌, ◌≢◌, refl, sym, ap, ◌∙◌, ◌↔◌, ◌⊎◌, inl, inr, List, [], ◌∷◌, none, some, All}
use mathlib.Core.List.{Memᴰ}
use mathlib.Core.Path.{subst}
use iolbox.Common.Ints.{ℤ, eq_int-cases, eq_int_refl}
use iolbox.Lab.{Node}
use iolbox.Lab.WellFormed.{NodeOk, Distinct, node_ids}
use iolbox.Lab.Validate.{ok, NodeMap, put_node, check_node, check_nodes}
use iolbox.Lab.Validate.Steps.{>>=-ok}
use iolbox.Lab.Validate.Nodes.{check_node-Accepts}

-- The map after all the nodes of a list.
unfoldable pub put_all : NodeMap → List Node → NodeMap
put_all nodes [] = nodes
put_all nodes (n ∷ rest) = put_all (put_node nodes n) rest

Fresh : NodeMap → List Node → Type 0
Fresh nodes ns = All (λ k. nodes k.id ≡ none) ns

put_node-none :
    (nodes : NodeMap) (n : Node) (z : ℤ)
    → (put_node nodes n z ≡ none) ↔ ((nodes z ≡ none) × (z ≢ n.id))
put_node-none nodes n z = elim (eq_int-cases z n.id) [
  | inl (e, p) ↦ rw e (λ h. absurd (cc h), λ h. absurd (h.1 p))
  | inr (e, p) ↦ rw e (λ h. (h, p), λ h. h.0)
]

Fresh-put_node :
    (nodes : NodeMap) (n : Node) (ns : List Node)
    → Fresh (put_node nodes n) ns ↔ (Fresh nodes ns × All (λ z. z ≢ n.id) (node_ids ns))
unfolding Fresh
Fresh-put_node nodes n [] = (λ _. (tt, tt), λ _. tt)
Fresh-put_node nodes n (k ∷ ns) =
    let first = put_node-none nodes n k.id in
    let rest = Fresh-put_node nodes n ns in
    (
      λ (h, t). (((first.0 h).0, (rest.0 t).0), ((first.0 h).1, (rest.0 t).1)),
      λ ((a, s), (b, t)). (first.1 (a, b), rest.1 (s, t)),
    )

-- What the loop asks of the nodes.
pub AcceptedNodes : NodeMap → List Node → Type 0
AcceptedNodes nodes ns = Fresh nodes ns × All NodeOk ns × Distinct (node_ids ns)

AcceptedNodes-cons :
    (nodes : NodeMap) (n : Node) (ns : List Node)
    → AcceptedNodes nodes (n ∷ ns)
      ↔ (((nodes n.id ≡ none) × NodeOk n) × AcceptedNodes (put_node nodes n) ns)
unfolding AcceptedNodes Fresh
AcceptedNodes-cons nodes n ns =
    let f = Fresh-put_node nodes n ns in
    (
      λ ((a, s), (o, os), (d, ds)). ((a, o), (f.1 (s, d), os, ds)),
      λ ((a, o), (t, os, ds)). ((a, (f.0 t).0), (o, os), ((f.0 t).1, ds)),
    )

pub check_nodes-ok :
    (nodes : NodeMap) (ns : List Node) {m : NodeMap}
    → check_nodes nodes ns ≡ ok m
    → AcceptedNodes nodes ns × (m ≡ put_all nodes ns)
unfolding check_nodes put_all AcceptedNodes Fresh
check_nodes-ok nodes [] h = ((tt, tt, tt), cc h)
check_nodes-ok nodes (n ∷ ns) h =
    let (_, e, k) = >>=-ok (check_node nodes n) _ h in
    let (rest, p) = check_nodes-ok (put_node nodes n) ns k in
    ((AcceptedNodes-cons nodes n ns).1 ((check_node-Accepts nodes n).0 e, rest), p)

pub ok-check_nodes :
    (nodes : NodeMap) (ns : List Node)
    → AcceptedNodes nodes ns
    → check_nodes nodes ns ≡ ok (put_all nodes ns)
unfolding check_nodes put_all
ok-check_nodes nodes [] h = refl
ok-check_nodes nodes (n ∷ ns) h =
    let (first, rest) = (AcceptedNodes-cons nodes n ns).0 h in
    rw ((check_node-Accepts nodes n).1 first) (ok-check_nodes (put_node nodes n) ns rest)

Fresh-start : (ns : List Node) → Fresh (λ _. none) ns
unfolding Fresh
Fresh-start [] = tt
Fresh-start (k ∷ ns) = (refl, Fresh-start ns)

pub AcceptedNodes-start :
    (ns : List Node) → AcceptedNodes (λ _. none) ns ↔ (All NodeOk ns × Distinct (node_ids ns))
unfolding AcceptedNodes
AcceptedNodes-start ns = (λ (_, os, d). (os, d), λ (os, d). (Fresh-start ns, os, d))

put_all-other :
    (nodes : NodeMap) (ns : List Node) (z : ℤ)
    → All (λ y. y ≢ z) (node_ids ns)
    → put_all nodes ns z ≡ nodes z
unfolding put_all
put_all-other nodes [] z h = refl
put_all-other nodes (n ∷ ns) z h =
    put_all-other (put_node nodes n) ns z h.1
    ∙ elim (eq_int-cases z n.id) [ inl (e, p) ↦ absurd (h.0 (sym p)) | inr (e, p) ↦ rw e ]

pub put_all-member :
    (nodes : NodeMap) (ns : List Node) (n : Node)
    → Distinct (node_ids ns)
    → Memᴰ n ns
    → put_all nodes ns n.id ≡ some n
unfolding put_all
put_all-member nodes [] n d m = elim m [ ]
put_all-member nodes (k ∷ ns) n d (Memᴰ.head e) =
    put_all-other (put_node nodes k) ns n.id
      (subst (λ z. All (λ y. y ≢ z) (node_ids ns)) (ap (λ (m : Node). m.id) (sym e)) d.0)
    ∙ rw (e, eq_int_refl k.id)
put_all-member nodes (k ∷ ns) n d (Memᴰ.tail m) = put_all-member (put_node nodes k) ns n d.1 m

put_node-some :
    (nodes : NodeMap) (k : Node) (z : ℤ) (n : Node)
    → put_node nodes k z ≡ some n
    → (nodes z ≡ some n) ⊎ ((n ≡ k) × (n.id ≡ z))
put_node-some nodes k z n = elim (eq_int-cases z k.id) [
  | inl (e, q) ↦
      rw e (λ h. let same : k ≡ n = cc h in inr (sym same, sym (q ∙ ap (λ (m : Node). m.id) same)))
  | inr (e, q) ↦ rw e (λ h. inl h)
]

pub put_all-found :
    (nodes : NodeMap) (ns : List Node) (z : ℤ) (n : Node)
    → put_all nodes ns z ≡ some n
    → (nodes z ≡ some n) ⊎ (Memᴰ n ns × (n.id ≡ z))
unfolding put_all
put_all-found nodes [] z n h = inl h
put_all-found nodes (k ∷ ns) z n h = elim (put_all-found (put_node nodes k) ns z n h) [
  | inr (m, e) ↦ inr (Memᴰ.tail m, e)
  | inl p ↦ elim (put_node-some nodes k z n p) [
    | inl old ↦ inl old
    | inr (e, q) ↦ inr (Memᴰ.head e, q)
  ]
]
