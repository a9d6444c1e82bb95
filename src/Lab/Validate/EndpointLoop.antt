-- ===== src/Lab/Validate/EndpointLoop.antt =====
-- validate.go: the loop over the endpoints of a link, and the counts that it keeps.
use iolbox.Common.{
  ◌+◌, ◌≤◌, ◌≡◌, refl, sym, ap, ◌∙◌, ◌↔◌, inl, inr, true, Bool-cases, if◌then◌else◌, List, [], ◌∷◌,
  All, arith,
}
use mathlib.Core.Path.{subst}
use iolbox.Common.Ints.{ℤ, eq_int, eq_int-cases, eq_int_refl}
use iolbox.Lab.{Endpoint}
use iolbox.Lab.WellFormed.{references}
use iolbox.Lab.Validate.{ok, NodeMap, Counts, check_endpoint_on, check_endpoints}
use iolbox.Lab.Validate.Steps.{>>=-ok}
use iolbox.Lab.Validate.Endpoints.{InterfaceAt, counts_at, counted, check_endpoint_on-Yields}

-- Nothing is counted twice so far, and no more than once with the endpoints to come.
unfoldable pub CountsOk : NodeMap → Counts → Type 0
CountsOk nodes counts = (z : ℤ) → counts_at nodes z ≡ true → counts z ≤ 1

unfoldable pub Room : NodeMap → Counts → List Endpoint → Type 0
Room nodes counts eps = (z : ℤ) → counts_at nodes z ≡ true → counts z + references z eps ≤ 1

pub counted-value :
    (nodes : NodeMap) (counts : Counts) (ep : Endpoint) (z : ℤ)
    → counts_at nodes z ≡ true
    → counted nodes counts ep z ≡ counts z + (if eq_int z ep.node then 1 else 0)
unfolding counted
counted-value nodes counts ep z h = elim (eq_int-cases z ep.node) [
  | inl (e, p) ↦
      let c : counts_at nodes ep.node ≡ true = subst (λ (x : ℤ). counts_at nodes x ≡ true) p h in
      rw (c, e)
  | inr (e, p) ↦ elim (Bool-cases (counts_at nodes ep.node)) [
    | inl c ↦ rw (c, e) (omega arith)
    | inr c ↦ rw (c, e) (omega arith)
  ]
]

pub Room-cons :
    (nodes : NodeMap) (counts : Counts) (ep : Endpoint) (eps : List Endpoint)
    → Room nodes counts (ep ∷ eps) ↔ Room nodes (counted nodes counts ep) eps
unfolding Room
Room-cons nodes counts ep eps = (
  λ h z c. omega (arith, h z c, counted-value nodes counts ep z c),
  λ h z c. omega (arith, h z c, counted-value nodes counts ep z c),
)

-- Room for an endpoint means that its node is not counted yet.
Room-first :
    (nodes : NodeMap) (counts : Counts) (ep : Endpoint) (eps : List Endpoint)
    → Room nodes counts (ep ∷ eps)
    → counts_at nodes ep.node ≡ true
    → counts ep.node ≡ 0
unfolding Room
Room-first nodes counts ep eps h c =
    let one : references ep.node (ep ∷ eps) ≡ 1 + references ep.node eps =
      rw (eq_int_refl ep.node) in
    omega (arith, h ep.node c, one)

CountsOk-counted :
    (nodes : NodeMap) (counts : Counts) (ep : Endpoint)
    → CountsOk nodes counts
    → (counts_at nodes ep.node ≡ true → counts ep.node ≡ 0)
    → CountsOk nodes (counted nodes counts ep)
unfolding CountsOk
CountsOk-counted nodes counts ep h k z c = elim (eq_int-cases z ep.node) [
  | inl (e, p) ↦
      let none_yet = ap counts p ∙ k (subst (λ (x : ℤ). counts_at nodes x ≡ true) p c) in
      rw (counted-value nodes counts ep z c, e) (omega (arith, none_yet))
  | inr (e, p) ↦ rw (counted-value nodes counts ep z c, e) (omega (arith, h z c))
]

-- The counts after the endpoints of a link.
unfoldable pub counted_all : NodeMap → Counts → List Endpoint → Counts
counted_all nodes counts [] = counts
counted_all nodes counts (ep ∷ eps) = counted_all nodes (counted nodes counts ep) eps

pub check_endpoints-ok :
    (nodes : NodeMap) (link : ℤ) (counts : Counts) (eps : List Endpoint) (c' : Counts)
    → CountsOk nodes counts
    → check_endpoints nodes link counts eps ≡ ok c'
    → All (InterfaceAt nodes) eps × Room nodes counts eps × (c' ≡ counted_all nodes counts eps)
unfolding check_endpoints counted_all CountsOk Room counted
check_endpoints-ok nodes link counts [] c' v h = (tt, λ z c. omega (arith, v z c), cc h)
check_endpoints-ok nodes link counts (ep ∷ eps) c' v h =
    let (c1, e, k) = >>=-ok (check_endpoint_on (nodes ep.node) link counts ep) _ h in
    let ((at, test), p) =
      (check_endpoint_on-Yields nodes (nodes ep.node) link counts ep refl).0 c1 e in
    let after : check_endpoints nodes link (counted nodes counts ep) eps ≡ ok c' =
      ap (λ (x : Counts). check_endpoints nodes link x eps) (sym p) ∙ k in
    let (ats, room, q) =
      check_endpoints-ok nodes link (counted nodes counts ep) eps c'
        (CountsOk-counted nodes counts ep v test) after in
    ((at, ats), (Room-cons nodes counts ep eps).1 room, q)

pub ok-check_endpoints :
    (nodes : NodeMap) (link : ℤ) (counts : Counts) (eps : List Endpoint)
    → All (InterfaceAt nodes) eps
    → Room nodes counts eps
    → check_endpoints nodes link counts eps ≡ ok (counted_all nodes counts eps)
unfolding check_endpoints counted_all counted
ok-check_endpoints nodes link counts [] h r = refl
ok-check_endpoints nodes link counts (ep ∷ eps) (at, rest) r =
    let first =
      (check_endpoint_on-Yields nodes (nodes ep.node) link counts ep refl).1
        (at, Room-first nodes counts ep eps r) in
    rw first (
      ok-check_endpoints nodes link (counted nodes counts ep) eps rest
        ((Room-cons nodes counts ep eps).0 r))

-- What is counted on a node that has one interface.
pub counted_all-value :
    (nodes : NodeMap) (counts : Counts) (eps : List Endpoint) (z : ℤ)
    → counts_at nodes z ≡ true
    → counted_all nodes counts eps z ≡ counts z + references z eps
unfolding counted_all
counted_all-value nodes counts [] z c = omega arith
counted_all-value nodes counts (ep ∷ eps) z c = omega (
  arith,
  counted_all-value nodes (counted nodes counts ep) eps z c,
  counted-value nodes counts ep z c,
)
