-- ===== src/Lab/Validate/Nodes.antt =====
-- validate.go: what the loop over the nodes accepts, and the map that it makes.
use iolbox.Common.{◌≡◌, ◌≢◌, refl, ◌↔◌, true, not, [], ◌∷◌, Option, none, some, arith}
use iolbox.Common.Ints.{ℤ, pos, negsuc, is_negative}
use iolbox.Common.Texts.{Text, codes}
use iolbox.Netmap.{validate_instance, instance_id}
use iolbox.Lab.{Kind, RawMessage, ImageRef, Node}
use iolbox.Lab.WellFormed.{Within, IsNat, OptionalWithin, RamOk, KindOk, NodeOk}
use iolbox.Lab.Validate.{
  pack_not_string, unless, is_empty, is_some, has_image, valid_instance, is_pack_name, check_pack,
  check_kind, groups_in_range, enough_ram, NodeMap, check_node,
}
use iolbox.Lab.Validate.Steps.{
  Accepts, unless-Accepts, ok-Accepts, refused-Accepts, >>-Accepts, Accepts-iff,
}

pub is_negative_iff : (z : ℤ) → (not (is_negative z) ≡ true) ↔ IsNat z
is_negative_iff (pos n) = (λ _. tt, λ _. refl)
is_negative_iff (negsuc n) = (λ h. cc h, λ h. absurd h)

pub is_empty_iff : (s : Text) → (not (is_empty s) ≡ true) ↔ (s ≢ [])
is_empty_iff [] = (λ h. absurd (cc h), λ h. absurd (h refl))
is_empty_iff (c ∷ s) = (λ _ h. cc h, λ _. refl)

has_image_iff :
    (image : Option ImageRef)
    → (has_image image ≡ true) ↔ ((i : ImageRef) × (image ≡ some i) × (i.id ≢ []))
unfolding has_image
has_image_iff none = (λ h. absurd (cc h), λ (i, e, _). absurd (cc e))
has_image_iff (some i) = (
  λ h. (i, refl, (is_empty_iff i.id).0 h),
  λ (j, e, k). (is_empty_iff i.id).1 (λ q. k (cc (e, q))),
)

valid_instance_iff : (z : ℤ) → (valid_instance z ≡ true) ↔ Within 0 1023 z
unfolding valid_instance validate_instance instance_id
valid_instance_iff (pos n) = ground arith
valid_instance_iff (negsuc n) = (λ h. cc h, λ h. absurd h)

groups_in_range_iff : (z : Option ℤ) → (groups_in_range z ≡ true) ↔ OptionalWithin 0 16 z
unfolding groups_in_range
groups_in_range_iff none = (λ _. tt, λ _. refl)
groups_in_range_iff (some (pos n)) = ground arith
groups_in_range_iff (some (negsuc n)) = (λ h. cc h, λ h. absurd h)

enough_ram_iff : (z : ℤ) → (enough_ram z ≡ true) ↔ RamOk z
unfolding enough_ram
enough_ram_iff (pos n) = ground arith
enough_ram_iff (negsuc n) = (λ h. cc h, λ h. absurd h)

check_pack-Accepts :
    (id : ℤ) (pack : Option RawMessage)
    → Accepts
        (check_pack id pack)
        ((s : Text) × (pack ≡ some (RawMessage.json_string s)) × (s ≢ []))
unfolding check_pack is_pack_name
check_pack-Accepts id none = (λ h. absurd (cc h), λ (s, e, _). absurd (cc e))
check_pack-Accepts id (some (RawMessage.json_string s)) =
    let g = unless-Accepts (not (is_empty s)) (pack_not_string id) (is_empty_iff s) in
    (λ h. (s, refl, g.0 h), λ (t, e, k). g.1 (λ q. k (cc (e, q))))
check_pack-Accepts id (some RawMessage.json_null) = (λ h. absurd (cc h), λ (s, e, _). absurd (cc e))
check_pack-Accepts id (some RawMessage.other_json) =
    (λ h. absurd (cc h), λ (s, e, _). absurd (cc e))

check_kind-Accepts : (k : Kind) (n : Node) → Accepts (check_kind k n) (KindOk k n)
unfolding check_kind
check_kind-Accepts Kind.iol n =
    >>-Accepts (unless _ _) (unless _ _) (unless-Accepts _ _ (has_image_iff n.image))
      (unless-Accepts _ _ (valid_instance_iff n.id))
check_kind-Accepts Kind.vpcs n = ok-Accepts
check_kind-Accepts Kind.nat n = ok-Accepts
check_kind-Accepts Kind.tool n = check_pack-Accepts n.id (n.config (codes "pack"))
check_kind-Accepts Kind.pc n = ok-Accepts
check_kind-Accepts (Kind.other_kind k) n = refused-Accepts _

is_some_iff {ℓ} : {A : Type ℓ} (o : Option A) → (not (is_some o) ≡ true) ↔ (o ≡ none)
is_some_iff none = (λ _. refl, λ _. refl)
is_some_iff (some a) = (λ h. absurd (cc h), λ h. cc h)

pub check_node-Accepts :
    (nodes : NodeMap) (n : Node) → Accepts (check_node nodes n) ((nodes n.id ≡ none) × NodeOk n)
unfolding check_node
check_node-Accepts nodes n =
    Accepts-iff (check_node nodes n)
      (
        λ (a, (b, (c, (d, (e, (f, g)))))). (b, (a, c, d, e, f, g)),
        λ (b, (a, c, d, e, f, g)). (a, (b, (c, (d, (e, (f, g)))))),
      )
      (>>-Accepts (unless _ _) _ (unless-Accepts _ _ (is_negative_iff n.id)) (
        >>-Accepts (unless _ _) _ (unless-Accepts _ _ (is_some_iff (nodes n.id))) (
          >>-Accepts (unless _ _) _ (unless-Accepts _ _ (is_empty_iff n.name)) (
            >>-Accepts _ _ (check_kind-Accepts n.kind n) (
              >>-Accepts (unless _ _) _ (unless-Accepts _ _ (groups_in_range_iff n.ethernet)) (
                >>-Accepts (unless _ _) _ (unless-Accepts _ _ (groups_in_range_iff n.serial))
                  (unless-Accepts _ _ (enough_ram_iff n.ram))))))))
