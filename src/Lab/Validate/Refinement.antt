-- ===== src/Lab/Validate/Refinement.antt =====
-- validate.go: the checks against the description of a well-formed document.
use iolbox.Common.{
  ◌+◌, ◌≤◌, ◌≡◌, refl, sym, ap, ◌∙◌, ◌↔◌, inl, inr, true, false, List, [], ◌∷◌, Option, none, some,
  All, arith,
}
use mathlib.Core.Path.{subst}
use mathlib.Core.List.{Memᴰ}
use iolbox.Common.Ints.{ℤ, eq_int, eq_int-eq, eq_int_refl}
use iolbox.Lab.{Kind, Node, Endpoint, Link, Lab, lab_version}
use iolbox.Lab.WellFormed.{
  NodeOk, Distinct, IsSingle, EndpointOk, LinkOk, WellFormed, node_ids, references, all_endpoints,
  link_ids,
}
use iolbox.Lab.Validate.{Checked, ok, unless, ◌>>=◌, NodeMap, check_nodes, check_links, validate}
use iolbox.Lab.Validate.NodeMaps.{
  AcceptedNodes, AcceptedNodes-start, check_nodes-ok, ok-check_nodes, put_all, put_all-member,
  put_all-found,
}
use iolbox.Lab.Validate.Endpoints.{is_single, InterfaceAt, single_node}
use iolbox.Lab.Validate.EndpointLoop.{CountsOk, Room}
use iolbox.Lab.Validate.Steps.{Accepts, unless-Accepts, >>-Accepts, >>=-ok}
use iolbox.Lab.Validate.Nodes.{is_empty_iff}
use iolbox.Lab.Validate.Links.{
  LinkAt, LinkBase, AcceptedLinks, AcceptedLinks-start, check_links-Accepts,
}

All-iff {ℓ} :
    {A : Type ℓ} (P Q : A → Type 0) → ((a : A) → P a ↔ Q a) → (xs : List A) → All P xs ↔ All Q xs
All-iff P Q h [] = (λ _. tt, λ _. tt)
All-iff P Q h (x ∷ xs) =
    let rest = All-iff P Q h xs in
    (λ (p, ps). ((h x).0 p, rest.0 ps), λ (q, qs). ((h x).1 q, rest.1 qs))

-- The map that the loop over the nodes makes.
node_map : List Node → NodeMap
node_map ns = put_all (λ _. none) ns

node_map_lem :
    (ns : List Node) (z : ℤ) (n : Node)
    → Distinct (node_ids ns)
    → (node_map ns z ≡ some n) ↔ (Memᴰ n ns × (n.id ≡ z))
unfolding node_map
node_map_lem ns z n d = (
  λ h. elim (put_all-found (λ _. none) ns z n h) [ inl e ↦ absurd (cc e) | inr found ↦ found ],
  λ (m, e).
      subst (λ (y : ℤ). put_all (λ _. none) ns y ≡ some n) e (put_all-member (λ _. none) ns n d m),
)

InterfaceAt-EndpointOk :
    (ns : List Node) (ep : Endpoint)
    → Distinct (node_ids ns)
    → InterfaceAt (node_map ns) ep ↔ EndpointOk ns ep
unfolding InterfaceAt
InterfaceAt-EndpointOk ns ep d = (
  λ (n, e, a, b). let (m, p) = (node_map_lem ns ep.node n d).0 e in (n, m, p, a, b),
  λ (n, m, p, a, b). (n, (node_map_lem ns ep.node n d).1 (m, p), a, b),
)

LinkAt-LinkOk :
    (ns : List Node) (l : Link) → Distinct (node_ids ns) → LinkAt (node_map ns) l ↔ LinkOk ns l
unfolding LinkAt LinkBase
LinkAt-LinkOk ns l d =
    let eps = All-iff _ _ (λ ep. InterfaceAt-EndpointOk ns ep d) l.endpoints in
    (λ ((a, b), c). (a, b, eps.0 c), λ (a, b, c). ((a, b), eps.1 c))

is_single_iff : (k : Kind) → (is_single k ≡ true) ↔ IsSingle k
is_single_iff Kind.iol = (λ h. cc h, λ h. absurd h)
is_single_iff Kind.vpcs = (λ h. cc h, λ h. absurd h)
is_single_iff Kind.nat = (λ _. tt, λ _. refl)
is_single_iff Kind.tool = (λ _. tt, λ _. refl)
is_single_iff Kind.pc = (λ _. tt, λ _. refl)
is_single_iff (Kind.other_kind t) = (λ h. cc h, λ h. absurd h)

single_node-some :
    (o : Option Node) → single_node o ≡ true → (n : Node) × (o ≡ some n) × IsSingle n.kind
single_node-some none h = cc h
single_node-some (some n) h = (n, refl, (is_single_iff n.kind).0 h)

Room-start :
    (ns : List Node) (eps : List Endpoint)
    → Distinct (node_ids ns)
    → Room (node_map ns) (λ _. 0) eps
      ↔ ((n : Node) → Memᴰ n ns → IsSingle n.kind → references n.id eps ≤ 1)
unfolding Room
Room-start ns eps d = (
  λ h n m s.
      let e = (node_map_lem ns n.id n d).1 (m, refl) in
      omega (arith, h n.id (rw e ((is_single_iff n.kind).1 s))),
  λ h z c.
      let (n, e, s) = single_node-some (node_map ns z) c in
      let (m, p) = (node_map_lem ns z n d).0 e in
      subst (λ (y : ℤ). 0 + references y eps ≤ 1) p (omega (arith, h n m s)),
)

-- The two loops.
rest_of : Lab → Checked (Unit {0})
rest_of l =
    check_nodes (λ _. none) l.nodes >>= λ nodes. check_links nodes (λ _. false) (λ _. 0) l.links

RestAccepted : Lab → Type 0
RestAccepted l =
    AcceptedNodes (λ _. none) l.nodes
    × AcceptedLinks (node_map l.nodes) (λ _. false) (λ _. 0) l.links

CountsOk-start : (nodes : NodeMap) → CountsOk nodes (λ _. 0)
unfolding CountsOk
CountsOk-start nodes z c = omega arith

rest_of-Accepts : (l : Lab) → Accepts (rest_of l) (RestAccepted l)
unfolding rest_of RestAccepted node_map
rest_of-Accepts l =
    let links =
      check_links-Accepts (node_map l.nodes) (λ _. false) (λ _. 0) l.links (CountsOk-start _) in
    (
      λ h.
          let (m, e, k) = >>=-ok (check_nodes (λ _. none) l.nodes) _ h in
          let (nodes, p) = check_nodes-ok (λ _. none) l.nodes e in
          (
            nodes,
            links.0 (ap (λ (x : NodeMap). check_links x (λ _. false) (λ _. 0) l.links) (sym p) ∙ k),
          ),
      λ (nodes, ls). rw (ok-check_nodes (λ _. none) l.nodes nodes) (links.1 ls),
    )

-- The same, in the words of the description.
RestOk : Lab → Type 0
RestOk l =
    All NodeOk l.nodes
    × Distinct (node_ids l.nodes)
    × All (LinkOk l.nodes) l.links
    × Distinct (link_ids l.links)
    × ((n : Node) → Memᴰ n l.nodes → IsSingle n.kind → references n.id (all_endpoints l.links) ≤ 1)

RestAccepted-RestOk : (l : Lab) → RestAccepted l ↔ RestOk l
unfolding RestAccepted RestOk
RestAccepted-RestOk l =
    let nodes = AcceptedNodes-start l.nodes in
    let links = AcceptedLinks-start (node_map l.nodes) (λ _. 0) l.links in
    (
      λ (a, b).
          let (ok_nodes, d) = nodes.0 a in
          let (ats, e, room) = links.0 b in
          (
            ok_nodes,
            d,
            (All-iff _ _ (λ k. LinkAt-LinkOk l.nodes k d) l.links).0 ats,
            e,
            (Room-start l.nodes _ d).0 room,
          ),
      λ (ok_nodes, d, ok_links, e, single). (
        nodes.1 (ok_nodes, d),
        links.1 (
          (All-iff _ _ (λ k. LinkAt-LinkOk l.nodes k d) l.links).1 ok_links,
          e,
          (Room-start l.nodes _ d).1 single,
        ),
      ),
    )

eq_int_iff : (a b : ℤ) → (eq_int a b ≡ true) ↔ (a ≡ b)
eq_int_iff a b = (eq_int-eq a b, λ e. rw e (eq_int_refl b))

-- `Validate` returns no error exactly for the documents that are well-formed: the format's version, an
-- id and a name, nodes with distinct ids and what their kinds need, links with distinct ids and the
-- ends that their types need, every end on a node of the document at an interface of its kind, and at
-- most one end on a node with one interface.
pub validate-WellFormed : (l : Lab) → (validate l ≡ ok tt) ↔ WellFormed l
unfolding validate rest_of RestOk
validate-WellFormed l =
    let rest = rest_of-Accepts l in
    let described = RestAccepted-RestOk l in
    let all : Accepts (validate l) _ =
      >>-Accepts (unless _ _) _ (unless-Accepts _ _ (eq_int_iff l.version lab_version)) (
        >>-Accepts (unless _ _) _ (unless-Accepts _ _ (is_empty_iff l.id))
          (>>-Accepts (unless _ _) _ (unless-Accepts _ _ (is_empty_iff l.name)) rest)) in
    (
      λ h.
          let (v, (i, (n, r))) = all.0 h in
          let (nodes, d, links, e, single) = described.0 r in
          record {
            version = v;
            lab_id = i;
            lab_name = n;
            nodes_ok = nodes;
            node_ids_distinct = d;
            links_ok = links;
            link_ids_distinct = e;
            single_interfaces = single;
          },
      λ w. all.1 (
        w.version,
        (
          w.lab_id,
          (
            w.lab_name,
            described.1 (
              w.nodes_ok, w.node_ids_distinct, w.links_ok, w.link_ids_distinct, w.single_interfaces,
            ),
          ),
        ),
      ),
    )
