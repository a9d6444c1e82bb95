-- ===== src/Extnet/Dhcp/Options.antt =====
-- dhcp.go: the options field as RFC 2132 lays it out, and what the loop of `DecodePacket` makes of it.
use iolbox.Common.{
  ℕ, zero, suc, ◌<◌, ◌≡◌, ◌≢◌, refl, ap, ◌∙◌, false, ltb, ==_ne, ge→ltb, List, [], ◌∷◌, ◌++◌,
  length, All, length-append, append_assoc, take-length-append, drop-length-append, arith,
}
use iolbox.Extnet.Dhcp.{Packet, apply_option, parse_options, opt_end, opt_pad}

-- One entry of the field: a pad byte, or a code with its value.
pub data Item : Type 0 where
  pad : Item
  opt : ℕ → List ℕ → Item

abbrev pub item_bytes : Item → List ℕ
item_bytes pad = opt_pad ∷ []
item_bytes (opt code val) = code ∷ length val ∷ val

unfoldable pub field_bytes : List Item → List ℕ
field_bytes [] = []
field_bytes (i ∷ items) = item_bytes i ++ field_bytes items

-- A code that is neither of the two that stand alone.
abbrev pub IsItem : Item → Type 0
IsItem pad = Unit {0}
IsItem (opt code val) = (code ≢ opt_end) × (code ≢ opt_pad)

abbrev apply_item : Packet → Item → Packet
apply_item p pad = p
apply_item p (opt code val) = apply_option p code val

unfoldable pub apply_items : Packet → List Item → Packet
apply_items p [] = p
apply_items p (i ∷ items) = apply_items (apply_item p i) items

parse_options-end :
    (fuel : ℕ) (p : Packet) (rest : List ℕ) → parse_options (suc fuel) p (opt_end ∷ rest) ≡ p
unfolding parse_options
parse_options-end fuel p [] = refl
parse_options-end fuel p (x ∷ rest) = refl

parse_options-pad :
    (fuel : ℕ) (p : Packet) (before : List ℕ) (x : ℕ) (rest : List ℕ)
    → parse_options (suc fuel) p (opt_pad ∷ (before ++ (x ∷ rest)))
      ≡ parse_options fuel p (before ++ (x ∷ rest))
unfolding parse_options
parse_options-pad fuel p [] x rest = refl
parse_options-pad fuel p (y ∷ before) x rest = refl

parse_options-opt :
    (fuel : ℕ) (p : Packet) (code : ℕ) (val rest : List ℕ)
    → code ≢ opt_end
    → code ≢ opt_pad
    → parse_options (suc fuel) p (code ∷ length val ∷ (val ++ rest))
      ≡ parse_options fuel (apply_option p code val) rest
unfolding parse_options
parse_options-opt fuel p code val rest e d =
    let enough : ltb (length (val ++ rest)) (length val) ≡ false =
      ge→ltb _ _ (omega (arith, length-append val rest)) in
    rw (
      ==_ne code opt_end e,
      ==_ne code opt_pad d,
      enough,
      take-length-append val rest,
      drop-length-append val rest,
    )

-- The loop of `DecodePacket` applies the options in their order, up to the end mark, and looks at
-- nothing behind it: for any options, known or not, with pad bytes anywhere between them, and with
-- fuel of the field's length.
pub parse_options-field_bytes :
    (fuel : ℕ) (p : Packet) (items : List Item) (rest : List ℕ)
    → All IsItem items
    → length (field_bytes items) < fuel
    → parse_options fuel p (field_bytes items ++ (opt_end ∷ rest)) ≡ apply_items p items
unfolding field_bytes apply_items
parse_options-field_bytes zero p items rest ok l = absurd (omega arith)
parse_options-field_bytes (suc fuel) p [] rest ok l = parse_options-end fuel p rest
parse_options-field_bytes (suc fuel) p (pad ∷ items) rest ok l =
    parse_options-pad fuel p (field_bytes items) opt_end rest
    ∙ parse_options-field_bytes fuel p items rest ok.1 (omega (arith, l))
parse_options-field_bytes (suc fuel) p (opt code val ∷ items) rest (i, ok) l =
    let shape : (val ++ field_bytes items) ++ (opt_end ∷ rest)
        ≡ val ++ (field_bytes items ++ (opt_end ∷ rest)) =
      append_assoc val (field_bytes items) (opt_end ∷ rest) in
    ap (λ (t : List ℕ). parse_options (suc fuel) p (code ∷ length val ∷ t)) shape
    ∙ parse_options-opt fuel p code val (field_bytes items ++ (opt_end ∷ rest)) i.0 i.1
    ∙ parse_options-field_bytes fuel (apply_option p code val) items rest ok
        (omega (arith, length-append val (field_bytes items)))
