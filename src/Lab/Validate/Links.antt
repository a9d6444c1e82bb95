-- ===== src/Lab/Validate/Links.antt =====
-- validate.go: what the loop over the links accepts.
use iolbox.Common.{
  ℕ, ◌+◌, ◌≡◌, ◌≢◌, refl, sym, ap, ◌∙◌, ◌↔◌, inl, inr, Bool, true, false, not, ◌&&◌, ◌==◌, ltb,
  List, [], ◌∷◌, ◌++◌, length, All, arith,
}
use iolbox.Common.Ints.{ℤ, eq_int-cases}
use iolbox.Lab.{LinkType, Endpoint, Link, effective_type}
use iolbox.Lab.WellFormed.{IsNat, EndsOk, Distinct, link_ids, references, all_endpoints}
use iolbox.Lab.Validate.{
  ok, unless, NodeMap, Counts, is_p2p, put_link, check_link, check_endpoints, check_links,
}
use iolbox.Lab.Validate.Steps.{Accepts, unless-Accepts, >>-Accepts, Accepts-iff, >>=-ok}
use iolbox.Lab.Validate.Nodes.{is_negative_iff}
use iolbox.Lab.Validate.Endpoints.{InterfaceAt}
use iolbox.Lab.Validate.EndpointLoop.{
  CountsOk, Room, counted_all, check_endpoints-ok, ok-check_endpoints, counted_all-value,
}

not-true_iff : (b : Bool) → (not b ≡ true) ↔ (b ≡ false)
not-true_iff true = (λ h. cc h, λ h. cc h)
not-true_iff false = (λ _. refl, λ _. refl)

ends_iff :
    (t : LinkType) (k : ℕ)
    → ((not (ltb k 2) ≡ true) × (not (is_p2p (effective_type t) && not (k == 2)) ≡ true))
      ↔ EndsOk t k
unfolding effective_type
ends_iff LinkType.unset k = ground arith
ends_iff LinkType.p2p k = ground arith
ends_iff LinkType.segment k = ground arith
ends_iff (LinkType.other_type t) k = ground arith

-- A link by itself.
unfoldable pub LinkBase : Link → Type 0
LinkBase l = IsNat l.id × EndsOk l.type (length l.endpoints)

same : (b : Bool) → (b ≡ true) ↔ (b ≡ true)
same b = (λ h. h, λ h. h)

check_link-Accepts :
    (ids : ℤ → Bool) (l : Link) → Accepts (check_link ids l) ((ids l.id ≡ false) × LinkBase l)
unfolding check_link LinkBase
check_link-Accepts ids l =
    let ends = ends_iff l.type (length l.endpoints) in
    Accepts-iff (check_link ids l)
      (
        λ (a, (b, (c, d))). (b, (a, ends.0 (c, d))),
        λ (b, (a, e)). (a, (b, ((ends.1 e).0, (ends.1 e).1))),
      )
      (>>-Accepts (unless _ _) _ (unless-Accepts _ _ (is_negative_iff l.id)) (
        >>-Accepts (unless _ _) _ (unless-Accepts _ _ (not-true_iff (ids l.id)))
          (>>-Accepts (unless _ _) _ (unless-Accepts _ _ (same _)) (unless-Accepts _ _ (same _)))))

FreshLinks : (ℤ → Bool) → List Link → Type 0
FreshLinks ids ls = All (λ l. ids l.id ≡ false) ls

put_link-false :
    (ids : ℤ → Bool) (id z : ℤ) → (put_link ids id z ≡ false) ↔ ((ids z ≡ false) × (z ≢ id))
put_link-false ids id z = elim (eq_int-cases z id) [
  | inl (e, p) ↦ rw e (λ h. absurd (cc h), λ h. absurd (h.1 p))
  | inr (e, p) ↦ rw e (λ h. (h, p), λ h. h.0)
]

FreshLinks-put_link :
    (ids : ℤ → Bool) (id : ℤ) (ls : List Link)
    → FreshLinks (put_link ids id) ls ↔ (FreshLinks ids ls × All (λ z. z ≢ id) (link_ids ls))
unfolding FreshLinks
FreshLinks-put_link ids id [] = (λ _. (tt, tt), λ _. tt)
FreshLinks-put_link ids id (l ∷ ls) =
    let first = put_link-false ids id l.id in
    let rest = FreshLinks-put_link ids id ls in
    (
      λ (h, t). (((first.0 h).0, (rest.0 t).0), ((first.0 h).1, (rest.0 t).1)),
      λ ((a, s), (b, t)). (first.1 (a, b), rest.1 (s, t)),
    )

references-append :
    (z : ℤ) (a b : List Endpoint) → references z (a ++ b) ≡ references z a + references z b
references-append z [] b = omega arith
references-append z (ep ∷ a) b = omega (arith, references-append z a b)

Room-append :
    (nodes : NodeMap) (counts : Counts) (a b : List Endpoint)
    → Room nodes counts (a ++ b) ↔ Room nodes (counted_all nodes counts a) b
unfolding Room
Room-append nodes counts a b = (
  λ h z c. omega (arith, h z c, counted_all-value nodes counts a z c, references-append z a b),
  λ h z c. omega (arith, h z c, counted_all-value nodes counts a z c, references-append z a b),
)

Room-CountsOk :
    (nodes : NodeMap) (counts : Counts) (eps : List Endpoint)
    → Room nodes counts eps
    → CountsOk nodes (counted_all nodes counts eps)
unfolding Room CountsOk
Room-CountsOk nodes counts eps h z c = omega (arith, h z c, counted_all-value nodes counts eps z c)

-- A link on the nodes of a map.
unfoldable pub LinkAt : NodeMap → Link → Type 0
unfolding LinkBase
LinkAt nodes l = LinkBase l × All (InterfaceAt nodes) l.endpoints

-- What the loop asks of the links.
pub AcceptedLinks : NodeMap → (ℤ → Bool) → Counts → List Link → Type 0
AcceptedLinks nodes ids counts ls =
    FreshLinks ids ls
    × All (LinkAt nodes) ls
    × Distinct (link_ids ls)
    × Room nodes counts (all_endpoints ls)

AcceptedLinks-cons :
    (nodes : NodeMap) (ids : ℤ → Bool) (counts : Counts) (l : Link) (ls : List Link)
    → AcceptedLinks nodes ids counts (l ∷ ls) ↔ (
        ((ids l.id ≡ false) × LinkAt nodes l)
        × AcceptedLinks nodes (put_link ids l.id) (counted_all nodes counts l.endpoints) ls)
unfolding AcceptedLinks FreshLinks
AcceptedLinks-cons nodes ids counts l ls =
    let f = FreshLinks-put_link ids l.id ls in
    let r = Room-append nodes counts l.endpoints (all_endpoints ls) in
    (
      λ ((a, s), (o, os), (d, ds), room). ((a, o), (f.1 (s, d), os, ds, r.0 room)),
      λ ((a, o), (t, os, ds, room)). ((a, (f.0 t).0), (o, os), ((f.0 t).1, ds), r.1 room),
    )

Room-none : (nodes : NodeMap) (counts : Counts) → CountsOk nodes counts → Room nodes counts []
unfolding Room CountsOk
Room-none nodes counts v z c = omega (arith, v z c)

LinkAt-parts :
    (nodes : NodeMap) (l : Link) → LinkAt nodes l → LinkBase l × All (InterfaceAt nodes) l.endpoints
unfolding LinkAt
LinkAt-parts nodes l h = h

AcceptedLinks-Room :
    (nodes : NodeMap) (ids : ℤ → Bool) (counts : Counts) (l : Link) (ls : List Link)
    → AcceptedLinks nodes ids counts (l ∷ ls)
    → Room nodes counts l.endpoints
unfolding AcceptedLinks Room
AcceptedLinks-Room nodes ids counts l ls (_, _, _, room) z c =
    omega (arith, room z c, references-append z l.endpoints (all_endpoints ls))

check_links-ok :
    (nodes : NodeMap) (ids : ℤ → Bool) (counts : Counts) (ls : List Link)
    → CountsOk nodes counts
    → check_links nodes ids counts ls ≡ ok tt
    → AcceptedLinks nodes ids counts ls
unfolding check_links
check_links-ok nodes ids counts [] v h =
    unfold AcceptedLinks FreshLinks in (tt, tt, tt, Room-none nodes counts v)
check_links-ok nodes ids counts (l ∷ ls) v h =
    let (_, e, k) = >>=-ok (check_link ids l) _ h in
    let (c1, e', k') = >>=-ok (check_endpoints nodes l.id counts l.endpoints) _ k in
    let (ats, room, p) = check_endpoints-ok nodes l.id counts l.endpoints c1 v e' in
    let (fresh, base) = (check_link-Accepts ids l).0 e in
    let after : check_links nodes (put_link ids l.id) (counted_all nodes counts l.endpoints) ls
        ≡ ok tt =
      ap (λ (x : Counts). check_links nodes (put_link ids l.id) x ls) (sym p) ∙ k' in
    let rest =
      check_links-ok nodes (put_link ids l.id) _ ls (Room-CountsOk nodes counts l.endpoints room)
        after in
    (AcceptedLinks-cons nodes ids counts l ls).1 ((fresh, unfold LinkAt in (base, ats)), rest)

ok-check_links :
    (nodes : NodeMap) (ids : ℤ → Bool) (counts : Counts) (ls : List Link)
    → AcceptedLinks nodes ids counts ls
    → check_links nodes ids counts ls ≡ ok tt
unfolding check_links
ok-check_links nodes ids counts [] h = refl
ok-check_links nodes ids counts (l ∷ ls) h =
    let ((fresh, at), rest) = (AcceptedLinks-cons nodes ids counts l ls).0 h in
    let (base, ats) = LinkAt-parts nodes l at in
    let first = (check_link-Accepts ids l).1 (fresh, base) in
    let second =
      ok-check_endpoints nodes l.id counts l.endpoints ats
        (AcceptedLinks-Room nodes ids counts l ls h) in
    rw (first, second) (ok-check_links nodes (put_link ids l.id) _ ls rest)

FreshLinks-start : (ls : List Link) → FreshLinks (λ _. false) ls
unfolding FreshLinks
FreshLinks-start [] = tt
FreshLinks-start (l ∷ ls) = (refl, FreshLinks-start ls)

-- No link is there twice at the start.
pub AcceptedLinks-start :
    (nodes : NodeMap) (counts : Counts) (ls : List Link)
    → AcceptedLinks nodes (λ _. false) counts ls
      ↔ (All (LinkAt nodes) ls × Distinct (link_ids ls) × Room nodes counts (all_endpoints ls))
unfolding AcceptedLinks
AcceptedLinks-start nodes counts ls =
    (λ (_, a, b, c). (a, b, c), λ (a, b, c). (FreshLinks-start ls, a, b, c))

pub check_links-Accepts :
    (nodes : NodeMap) (ids : ℤ → Bool) (counts : Counts) (ls : List Link)
    → CountsOk nodes counts
    → Accepts (check_links nodes ids counts ls) (AcceptedLinks nodes ids counts ls)
check_links-Accepts nodes ids counts ls v =
    (check_links-ok nodes ids counts ls v, ok-check_links nodes ids counts ls)
