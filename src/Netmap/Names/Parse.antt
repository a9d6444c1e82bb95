-- ===== src/Netmap/Names/Parse.antt =====
-- netmap.go: the way of an interface from its name back through `ParseIface`.
use iolbox.Common.{
  ℕ, ◌^◌, ◌≤◌, ◌<◌, ◌≡◌, refl, ap, ==_ne, ◌∙◌, ◌⊎◌, inl, inr, false, List, [], ◌∷◌, ◌++◌, map, some,
  All, arith,
}
use iolbox.Common.Ints.{ℤ, pos}
use iolbox.Common.Texts.{Text}
use iolbox.Netmap.{Iface, IfaceType}
use iolbox.Netmap.Names.{
  is_space, trim_left, trim_right, trim_space, to_lower, strip_prefix, split_type, cut_slash, atoi,
  checked_iface, parse_iface, decimal, type_prefix, iface_name,
}
use iolbox.Netmap.Names.Decimal.{IsDigit, IsDecimal, decimal-IsDecimal, atoi-decimal}

-- The characters of a name: `/`, a digit or a lower-case letter.
NameChar : ℕ → Type 0
NameChar c = ((47 ≤ c) × (c < 58)) ⊎ ((97 ≤ c) × (c < 123))

is_space-NameChar : (c : ℕ) → NameChar c → is_space c ≡ false
unfolding is_space NameChar
is_space-NameChar c h = ground arith

to_lower-NameChar : (c : ℕ) → NameChar c → to_lower c ≡ c
unfolding to_lower NameChar
to_lower-NameChar c h = ground arith

trim_left_lem : (s : Text) → All NameChar s → trim_left s ≡ s
unfolding trim_left
trim_left_lem [] h = refl
trim_left_lem (c ∷ s) h = rw (is_space-NameChar c h.0)

trim_right_lem : (s : Text) → All NameChar s → trim_right s ≡ s
unfolding trim_right
trim_right_lem [] h = refl
trim_right_lem (c ∷ []) h = rw (is_space-NameChar c h.0)
trim_right_lem (c ∷ x ∷ s) h = rw (trim_right_lem (x ∷ s) h.1)

map-to_lower_lem : (s : Text) → All NameChar s → map to_lower s ≡ s
map-to_lower_lem [] h = refl
map-to_lower_lem (c ∷ s) h = cc (to_lower-NameChar c h.0, map-to_lower_lem s h.1)

All-append {ℓ} : {A : Type ℓ} (P : A → Type 0) (s t : List A) → All P s → All P t → All P (s ++ t)
All-append P [] t h k = k
All-append P (c ∷ s) t h k = (h.0, All-append P s t h.1 k)

IsDigit-NameChar : (s : Text) → All IsDigit s → All NameChar s
unfolding NameChar
IsDigit-NameChar [] h = tt
IsDigit-NameChar (c ∷ s) h = (inl (omega arith, omega arith), IsDigit-NameChar s h.1)

cut_slash_digits : (s t : Text) → All IsDigit s → cut_slash (s ++ (47 ∷ t)) ≡ some (s, t)
unfolding cut_slash
cut_slash_digits [] t h = refl
cut_slash_digits (c ∷ s) t h = rw (==_ne c 47 (omega arith), cut_slash_digits s t h.1)

split_type_prefix :
    (t : IfaceType) (d : ℕ) (s : Text)
    → IsDigit d
    → split_type (type_prefix t ++ (d ∷ s)) ≡ some (t, d ∷ s)
unfolding split_type type_prefix strip_prefix
split_type_prefix IfaceType.ethernet d s h =
    rw (split_type, strip_prefix, ==_ne 116 d (omega arith))
split_type_prefix IfaceType.serial d s h = rw (split_type, strip_prefix, ==_ne 101 d (omega arith))

All-digits : (s : Text) → IsDecimal s → All IsDigit s
All-digits s d = rw d.shape (d.first_digit, d.rest_digits)

NameChars-prefix : (t : IfaceType) (s : Text) → All NameChar s → All NameChar (type_prefix t ++ s)
unfolding NameChar type_prefix
NameChars-prefix IfaceType.ethernet s h = (inr (omega arith, omega arith), h)
NameChars-prefix IfaceType.serial s h = (inr (omega arith, omega arith), h)

NameChars-iface_name : (i : Iface) → All NameChar (iface_name i)
unfolding iface_name NameChar
NameChars-iface_name i =
    let a = IsDigit-NameChar (decimal i.adapter) (All-digits _ (decimal-IsDecimal i.adapter)) in
    let p = IsDigit-NameChar (decimal i.port) (All-digits _ (decimal-IsDecimal i.port)) in
    NameChars-prefix i.type _ (
      All-append NameChar (decimal i.adapter) (47 ∷ decimal i.port) a
        (inl (omega arith, omega arith), p))

trim_space-iface_name : (i : Iface) → trim_space (iface_name i) ≡ iface_name i
unfolding trim_space
trim_space-iface_name i =
    let h = NameChars-iface_name i in ap trim_right (trim_left_lem _ h) ∙ trim_right_lem _ h

split_type-iface_name :
    (i : Iface)
    → split_type (iface_name i) ≡ some (i.type, decimal i.adapter ++ (47 ∷ decimal i.port))
unfolding iface_name
split_type-iface_name i =
    let d = decimal-IsDecimal i.adapter in
    rw d.shape (split_type_prefix i.type d.first _ d.first_digit)

parse_iface_parts :
    (s : Text) {t : IfaceType} {lower left right : Text} {adapter port : ℤ}
    → trim_space s ≡ s
    → map to_lower s ≡ s
    → split_type s ≡ some (t, lower)
    → cut_slash lower ≡ some (left, right)
    → atoi left ≡ some adapter
    → atoi right ≡ some port
    → parse_iface s ≡ checked_iface t adapter port
unfolding parse_iface split_type strip_prefix
parse_iface_parts [] e1 e2 e3 e4 e5 e6 = cc e3
parse_iface_parts (c ∷ s) e1 e2 e3 e4 e5 e6 = rw (parse_iface, e1, e2, e3, e4, e5, e6)

checked_iface_lem :
    (i : Iface) → i.port < 16 → checked_iface i.type (pos i.adapter) (pos i.port) ≡ some i
unfolding checked_iface
checked_iface_lem i h = ground arith

-- The name of an interface, as `String` writes it, is parsed to that interface, for every port that an
-- adapter has and every adapter number that Go's int holds.
pub parse_iface-iface_name :
    (i : Iface) → i.port < 16 → i.adapter < 2 ^ 63 → parse_iface (iface_name i) ≡ some i
parse_iface-iface_name i h k =
    parse_iface_parts (iface_name i) (trim_space-iface_name i)
      (map-to_lower_lem _ (NameChars-iface_name i)) (split_type-iface_name i)
      (cut_slash_digits _ (decimal i.port) (All-digits _ (decimal-IsDecimal i.adapter)))
      (atoi-decimal i.adapter k) (atoi-decimal i.port (omega (arith, h)))
    ∙ checked_iface_lem i h
