-- ===== src/Netmap/Names.antt =====
-- supervisor/internal/netmap/netmap.go: interface names. A text is its list of code points; the
-- source slices bytes, at places where both agree. `strings.ToLower` is written for the letters that
-- it takes into ASCII: any other letter is no digit before and after it, so `Atoi` refuses both.
pub mod Decimal
pub mod Parse
mod Runs
use iolbox.Common.{
  ℕ, zero, suc, ◌+◌, ◌-◌, ◌*◌, ◌/◌, ◌%◌, ◌^◌, ◌≤◌, Bool, true, false, ◌&&◌, ◌||◌, ◌==◌, ltb, leb,
  if◌then◌else◌, List, [], ◌∷◌, ◌++◌, map, Option, none, some, ◌>>=◌,
}
use iolbox.Common.Ints.{ℤ, pos, negsuc, is_negative, is_above}
use iolbox.Common.Texts.{Text, codes}
use iolbox.Netmap.{Iface, IfaceType, ports_per_adapter}

-- unicode.IsSpace
pub is_space : ℕ → Bool
is_space c =
    (leb 9 c && leb c 13)
    || c == 32
    || c == 0x85
    || c == 0xa0
    || c == 0x1680
    || (leb 0x2000 c && leb c 0x200a)
    || c == 0x2028
    || c == 0x2029
    || c == 0x202f
    || c == 0x205f
    || c == 0x3000

pub trim_left : Text → Text
trim_left [] = []
trim_left (c ∷ s) = if is_space c then trim_left s else c ∷ s

-- A character before the text that is left of the end.
keep_char : ℕ → Text → Text
unfolding is_space
keep_char c [] = if is_space c then [] else c ∷ []
keep_char c (x ∷ s) = c ∷ x ∷ s

pub trim_right : Text → Text
unfolding keep_char
trim_right [] = []
trim_right (c ∷ s) = keep_char c (trim_right s)

-- strings.TrimSpace
pub trim_space : Text → Text
unfolding trim_left trim_right
trim_space s = trim_right (trim_left s)

-- unicode.ToLower, on the letters that it takes into ASCII
pub to_lower : ℕ → ℕ
to_lower c =
    if leb 65 c && leb c 90
    then c + 32
    else if c == 0x130
    then 0x69
    else if c == 0x212a
    then 0x6b
    else c

-- The text behind a prefix.
pub strip_prefix : Text → Text → Option Text
strip_prefix [] s = some s
strip_prefix (p ∷ ps) [] = none
strip_prefix (p ∷ ps) (c ∷ s) = if p == c then strip_prefix ps s else none

-- The `switch` on the prefix.
pub split_type : Text → Option (IfaceType × Text)
unfolding strip_prefix
split_type lower = elim (strip_prefix (codes "ethernet") lower) [
  | some rest ↦ some (IfaceType.ethernet, rest)
  | none ↦ elim (strip_prefix (codes "serial") lower) [
    | some rest ↦ some (IfaceType.serial, rest)
    | none ↦ elim (strip_prefix (codes "e") lower) [
      | some rest ↦ some (IfaceType.ethernet, rest)
      | none ↦ elim (strip_prefix (codes "s") lower) [
        | some rest ↦ some (IfaceType.serial, rest)
        | none ↦ none
      ]
    ]
  ]
]

-- The two sides of the first `/`.
pub cut_slash : Text → Option (Text × Text)
cut_slash [] = none
cut_slash (c ∷ s) =
    if c == 47 then some ([], s) else (do (left, right) ← cut_slash s; some (c ∷ left, right))

pub is_digit : ℕ → Bool
is_digit c = leb 48 c && leb c 57

pub digits_value : ℕ → Text → Option ℕ
unfolding is_digit
digits_value n [] = some n
digits_value n (c ∷ s) = if is_digit c then digits_value (n * 10 + (c - 48)) s else none

-- The digits behind the sign: one at least, and a value that an int64 holds.
signed_value : ℕ → Text → Option ℕ
unfolding digits_value
signed_value max [] = none
signed_value max (c ∷ s) = do n ← digits_value 0 (c ∷ s); if ltb max n then none else some n

opposite : ℕ → ℤ
opposite zero = pos 0
opposite (suc n) = negsuc n

-- strconv.Atoi
pub atoi : Text → Option ℤ
unfolding signed_value opposite
atoi [] = none
atoi (c ∷ s) =
    if c == 45
    then (do n ← signed_value (2 ^ 63) s; some (opposite n))
    else if c == 43
    then (do n ← signed_value (2 ^ 63 - 1) s; some (pos n))
    else (do n ← signed_value (2 ^ 63 - 1) (c ∷ s); some (pos n))

-- The tests on the two coordinates.
checked_iface : IfaceType → ℤ → ℤ → Option Iface
checked_iface t (pos adapter) (pos port) =
    if leb ports_per_adapter port
    then none
    else some (record { type = t; adapter = adapter; port = port })
checked_iface t _ _ = none

-- `none` is the error.
unfoldable pub parse_iface : Text → Option Iface
unfolding trim_space to_lower split_type cut_slash atoi checked_iface
parse_iface s = elim (trim_space s) [
  | [] ↦ none
  | (c ∷ trimmed) ↦ do
    (t, lower) ← split_type (map to_lower (c ∷ trimmed))
    (left, right) ← cut_slash lower
    adapter ← atoi left
    port ← atoi right
    checked_iface t adapter port
]

-- `%d` of a value that is not negative, by its last digit; fuel `suc n` is always enough.
pub decimal_on : ℕ → ℕ → Text → Text
decimal_on zero n tail = tail
decimal_on (suc fuel) n tail =
    let rest = decimal_on fuel (n / 10) ((48 + n % 10) ∷ tail) in
    if ltb n 10 then (48 + n) ∷ tail else rest

pub decimal : ℕ → Text
unfolding decimal_on
decimal n = decimal_on (suc n) n []

pub type_prefix : IfaceType → Text
type_prefix IfaceType.ethernet = codes "e"
type_prefix IfaceType.serial = codes "s"

-- `String` of Iface
pub iface_name : Iface → Text
unfolding decimal type_prefix
iface_name i = type_prefix i.type ++ (decimal i.adapter ++ (47 ∷ decimal i.port))
