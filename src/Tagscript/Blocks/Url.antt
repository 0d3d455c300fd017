-- ===== src/Tagscript/Blocks/Url.antt =====
-- src/tagscript/blocks.rs, `url_encode` and `url_decode`, on bytes: a text is its UTF-8 bytes, and the
-- last step of decoding, `from_utf8_lossy`, is left out.
pub mod RoundTrip
use benny_rs.Base.{
  ℕ, suc, ◌+◌, ◌-◌, ◌*◌, ◌/◌, ◌%◌, Bool, not, ◌&&◌, ◌||◌, Option, none, some, List, [], ◌∷◌, ◌++◌,
  leb, ◌==◌, if◌then◌else◌,
}

-- `is_ascii_alphanumeric`, or one of `-_.~`
abbrev pub unreserved : ℕ → Bool
unreserved b =
    (leb b'0' b && leb b b'9')
    || (leb b'A' b && leb b b'Z')
    || (leb b'a' b && leb b b'z')
    || b == b'-'
    || b == b'_'
    || b == b'.'
    || b == b'~'

-- A digit of `{:02X}`.
unfoldable pub hex_digit : ℕ → ℕ
hex_digit n = if leb n 9 then b'0' + n else b'A' + (n - 10)

unfoldable pub encode_byte : Bool → ℕ → List ℕ
encode_byte plus b =
    if unreserved b || (not plus && b == b'/')
    then b ∷ []
    else if plus && b == b' '
    then b'+' ∷ []
    else b'%' ∷ hex_digit (b / 16) ∷ hex_digit (b % 16) ∷ []

unfoldable pub url_encode : List ℕ → Bool → List ℕ
unfolding encode_byte
url_encode [] plus = []
url_encode (b ∷ bs) plus = encode_byte plus b ++ url_encode bs plus

unfoldable pub hex_value : ℕ → Option ℕ
hex_value c =
    if leb b'0' c && leb c b'9'
    then some (c - b'0')
    else if leb b'A' c && leb c b'F'
    then some (c - b'A' + 10)
    else if leb b'a' c && leb c b'f'
    then some (c - b'a' + 10)
    else none

-- `u8::from_str_radix(h, 16)` at two bytes, the first of which may be a plus sign.
unfoldable pub from_hex : ℕ → ℕ → Option ℕ
from_hex a b = elim (hex_value a) [
  | some hi ↦ elim (hex_value b) [ some lo ↦ some (16 * hi + lo) | none ↦ none ]
  | none ↦ if a == b'+' then hex_value b else none
]

abbrev pub decode_byte : Bool → ℕ → ℕ
decode_byte plus b = if plus && b == b'+' then b' ' else b

-- The loop at `%` with two bytes behind it takes all three, or the `%` alone.
unfoldable pub url_decode : List ℕ → Bool → List ℕ
url_decode [] plus = []
url_decode (x ∷ []) plus = decode_byte plus x ∷ []
url_decode (x ∷ y ∷ []) plus = decode_byte plus x ∷ url_decode (y ∷ []) plus
url_decode (x ∷ y ∷ z ∷ rest) plus =
    let taken = url_decode rest plus in
    let stepped = decode_byte plus x ∷ url_decode (y ∷ z ∷ rest) plus in
    if x == b'%' then elim (from_hex y z) [ some h ↦ h ∷ taken | none ↦ stepped ] else stepped
