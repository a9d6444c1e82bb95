-- ===== src/Lab/Validate/Endpoints.antt =====
-- validate.go: what the loop over the endpoints of a link accepts, and what it counts.
use iolbox.Common.{
  ◌≡◌, ◌≢◌, refl, ◌↔◌, Bool, true, false, not, ltb, if◌then◌else◌, [], Option, none, some, arith,
}
use mathlib.Core.Path.{subst}
use iolbox.Common.Ints.{ℤ, eq_int_refl}
use iolbox.Common.Texts.{Text, eq_text, eq_text-eq, eq_text_refl}
use iolbox.Netmap.Names.{parse_iface}
use iolbox.Lab.{Kind, Node, Endpoint}
use iolbox.Lab.WellFormed.{InterfaceOk}
use iolbox.Lab.Validate.{
  Violation, ok, ◌>>◌, unless, is_some, NodeMap, Counts, bump, count_endpoint, check_interface,
  check_endpoint_on,
}
use iolbox.Lab.Validate.Steps.{
  unless-Accepts, Yields, ok-Yields, refused-Yields, >>-Yields, Yields-iff,
}
use iolbox.Lab.Validate.Nodes.{is_empty_iff}

-- The kinds with one interface, as a test.
abbrev pub is_single : Kind → Bool
is_single Kind.nat = true
is_single Kind.tool = true
is_single Kind.pc = true
is_single _ = false

is_some_iff {ℓ} : {A : Type ℓ} (o : Option A) → (is_some o ≡ true) ↔ ((a : A) × (o ≡ some a))
is_some_iff none = (λ h. absurd (cc h), λ (a, e). absurd (cc e))
is_some_iff (some a) = (λ _. (a, refl), λ _. refl)

eq_text_iff : (s t : Text) → (eq_text s t ≡ true) ↔ (s ≡ t)
eq_text_iff s t = (eq_text-eq s t, λ e. rw e (eq_text_refl t))

count_endpoint-Yields :
    (counts : Counts) (id : ℤ) → Yields (count_endpoint counts id) (counts id ≡ 0) (bump counts id)
unfolding count_endpoint
count_endpoint-Yields counts id =
    let test : (not (ltb 1 (bump counts id id)) ≡ true) ↔ (counts id ≡ 0) =
      rw (eq_int_refl id) (ground arith) in
    Yields-iff (count_endpoint counts id) (λ h. h.0, λ h. (h, tt))
      (>>-Yields (unless _ _) _ (unless-Accepts _ _ test) (ok-Yields (bump counts id)))

-- What is asked of an interface on a node of the kind.
Asked : Kind → Counts → Endpoint → Type 0
Asked k counts ep = InterfaceOk k ep.interface × (is_single k ≡ true → counts ep.node ≡ 0)

after_endpoint : Kind → Counts → Endpoint → Counts
after_endpoint k counts ep = if is_single k then bump counts ep.node else counts

named-Yields :
    (s : Text) (e : Violation) (counts : Counts) (ep : Endpoint)
    → Yields
        (unless (eq_text ep.interface s) e >> count_endpoint counts ep.node)
        ((ep.interface ≡ s) × (true ≡ true → counts ep.node ≡ 0))
        (bump counts ep.node)
named-Yields s e counts ep =
    Yields-iff (unless (eq_text ep.interface s) e >> count_endpoint counts ep.node)
      (λ (a, b). (a, λ _. b), λ (a, b). (a, b refl))
      (>>-Yields (unless _ _) _ (unless-Accepts _ e (eq_text_iff ep.interface s))
        (count_endpoint-Yields counts ep.node))

free-Yields :
    (counts : Counts) (ep : Endpoint)
    → Yields (ok counts) (Unit {0} × (false ≡ true → counts ep.node ≡ 0)) counts
free-Yields counts ep =
    Yields-iff (ok counts) (λ _. (tt, λ c. absurd (cc c)), λ _. tt) (ok-Yields counts)

check_interface-Yields :
    (k : Kind) (link : ℤ) (counts : Counts) (ep : Endpoint)
    → Yields (check_interface k link counts ep) (Asked k counts ep) (after_endpoint k counts ep)
unfolding check_interface Asked after_endpoint
check_interface-Yields Kind.iol link counts ep =
    Yields-iff (check_interface Kind.iol link counts ep)
      (λ h. (h.0, λ c. absurd (cc c)), λ h. (h.0, tt))
      (>>-Yields (unless _ _) _ (unless-Accepts _ _ (is_some_iff (parse_iface ep.interface)))
        (ok-Yields counts))
check_interface-Yields Kind.vpcs link counts ep = free-Yields counts ep
check_interface-Yields Kind.nat link counts ep = named-Yields _ _ counts ep
check_interface-Yields Kind.tool link counts ep = named-Yields _ _ counts ep
check_interface-Yields Kind.pc link counts ep = named-Yields _ _ counts ep
check_interface-Yields (Kind.other_kind t) link counts ep = free-Yields counts ep

-- An endpoint on a known node, at an interface that it can have.
unfoldable pub InterfaceAt : NodeMap → Endpoint → Type 0
InterfaceAt nodes ep =
    (n : Node) × (nodes ep.node ≡ some n) × (ep.interface ≢ []) × InterfaceOk n.kind ep.interface

-- Whether the endpoints on a node are counted.
abbrev pub single_node : Option Node → Bool
single_node none = false
single_node (some n) = is_single n.kind

abbrev pub counts_at : NodeMap → ℤ → Bool
counts_at nodes z = single_node (nodes z)

unfoldable pub counted : NodeMap → Counts → Endpoint → Counts
counted nodes counts ep = if counts_at nodes ep.node then bump counts ep.node else counts

pub check_endpoint_on-Yields :
    (nodes : NodeMap) (o : Option Node) (link : ℤ) (counts : Counts) (ep : Endpoint)
    → nodes ep.node ≡ o
    → Yields
        (check_endpoint_on o link counts ep)
        (InterfaceAt nodes ep × (single_node o ≡ true → counts ep.node ≡ 0))
        (if single_node o then bump counts ep.node else counts)
unfolding check_endpoint_on InterfaceAt Asked after_endpoint
check_endpoint_on-Yields nodes none link counts ep p =
    Yields-iff (check_endpoint_on none link counts ep)
      (λ h. absurd h, λ ((n, e, _, _), _). absurd (cc (e, p))) (refused-Yields _ counts)
check_endpoint_on-Yields nodes (some n) link counts ep p =
    Yields-iff (check_endpoint_on (some n) link counts ep)
      (
        λ (a, (b, c)). ((n, p, a, b), c),
        λ ((m, e, a, b), c).
            let same : m ≡ n = cc (e, p) in
            (a, (subst (λ (x : Node). InterfaceOk x.kind ep.interface) same b, c)),
      )
      (>>-Yields (unless _ _) _ (unless-Accepts _ _ (is_empty_iff ep.interface))
        (check_interface-Yields n.kind link counts ep))
