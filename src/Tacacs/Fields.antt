-- ===== src/Tacacs/Fields.antt =====
-- tacacs_wire.go: the fields of variable length that end a body. A read past the end, where Go panics,
-- is `none` as an error is; the tests before it rule it out.
pub mod Cut
use iolbox.Common.{
  ℕ, zero, suc, ◌+◌, ◌-◌, ◌*◌, ◌%◌, Bool, true, false, not, ◌||◌, ◌==◌, ltb, leb, if◌then◌else◌,
  List, [], ◌∷◌, ◌++◌, length, get_elem?, take, drop, Option, none, some, ◌>>=◌, ◌>>◌,
}
use iolbox.Common.Bytes.{be16}
use iolbox.Common.Texts.{Text}

-- `byteLengths`
unfoldable pub byte_lengths : List Text → Option (List ℕ)
byte_lengths [] = some []
byte_lengths (v ∷ values) =
    let rest = byte_lengths values in
    if ltb 255 (length v) then none else (do lengths ← rest; some (length v % 256 ∷ lengths))

-- The `switch` on the width of a length field; any other width is an error.
unfoldable pub field_length : List ℕ → ℕ → ℕ → Option ℕ
field_length body width start =
    if width == 1
    then get_elem? body start
    else if width == 2
    then (do hi ← get_elem? body start; lo ← get_elem? body (start + 1); some (be16 hi lo))
    else none

-- The loops that read a length and cut a field: `n` of them, the first length at `start`. The fields
-- and the offset behind them.
pub cut_fields : List ℕ → ℕ → ℕ → ℕ → ℕ → Option (List Text × ℕ)
unfolding field_length
cut_fields body width start zero offset = some ([], offset)
cut_fields body width start (suc n) offset = do
  len ← field_length body width start
  if ltb (length body - offset) len then none else some tt
  (values, behind) ← cut_fields body width (start + width) n (offset + len)
  some (take len (drop offset body) ∷ values, behind)

-- The fields, if they are all that is left of the body.
consumed : List ℕ → List Text × ℕ → Option (List Text)
consumed body (values, offset) = if offset == length body then some values else none

pub decode_fixed_length_strings : List ℕ → ℕ → ℕ → ℕ → ℕ → Option (List Text)
unfolding cut_fields consumed
decode_fixed_length_strings body lengths_offset width count data_offset =
    if width == 0 || count == 0 || ltb (length body) (lengths_offset + count * width)
    then none
    else if ltb data_offset (lengths_offset + count * width)
    then none
    else if ltb (length body) data_offset
    then none
    else do fields ← cut_fields body width lengths_offset count data_offset; consumed body fields

-- The loops that collect lengths of one byte: `n` of them from `start` on.
unfoldable pub read_lengths : List ℕ → ℕ → ℕ → Option (List ℕ)
read_lengths body start zero = some []
read_lengths body start (suc n) = do
  len ← get_elem? body start
  rest ← read_lengths body (start + 1) n
  some (len ∷ rest)

pub cut_lengths : List ℕ → List ℕ → ℕ → Option (List Text × ℕ)
cut_lengths body [] offset = some ([], offset)
cut_lengths body (len ∷ lengths) offset = do
  if ltb (length body - offset) len then none else some tt
  (values, behind) ← cut_lengths body lengths (offset + len)
  some (take len (drop offset body) ∷ values, behind)

pub decode_request_parts : List ℕ → ℕ → ℕ → ℕ → ℕ → Option (List Text)
unfolding read_lengths cut_lengths consumed
decode_request_parts body base_lengths_offset arg_count_offset arg_lengths_offset data_offset = do
  arg_count ← get_elem? body arg_count_offset
  if ltb (length body) (base_lengths_offset + 3)
        || ltb (length body) (arg_lengths_offset + arg_count)
        || ltb (length body) data_offset
      then none
      else some tt
  base ← read_lengths body base_lengths_offset 3
  args ← read_lengths body arg_lengths_offset arg_count
  fields ← cut_lengths body (base ++ args) data_offset
  consumed body fields

-- `for _, value := range parts { body = append(body, value...) }`
unfoldable pub all_parts : List Text → List ℕ
all_parts [] = []
all_parts (v ∷ values) = v ++ all_parts values
