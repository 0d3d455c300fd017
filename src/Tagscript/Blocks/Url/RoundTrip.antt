-- ===== src/Tagscript/Blocks/Url/RoundTrip.antt =====
-- src/tagscript/blocks.rs: `url_decode` after `url_encode`.
use benny_rs.Base.{
  ℕ, ◌/◌, ◌%◌, ◌<◌, ◌≡◌, refl, ap, ◌∙◌, Bool, false, not, ◌&&◌, ◌||◌, some, List, [], ◌∷◌, ◌++◌,
  arith, ◌==◌, Bool-cases, inl, inr,
}
use benny_rs.Tagscript.Blocks.Url.{
  unreserved, hex_digit, encode_byte, url_encode, hex_value, from_hex, decode_byte, url_decode,
}

abbrev pub IsBytes : List ℕ → Type 0
IsBytes [] = Unit
IsBytes (b ∷ bs) = (b < 256) × IsBytes bs

hex_value-hex_digit : (n : ℕ) → n < 16 → hex_value (hex_digit n) ≡ some n
unfolding hex_value hex_digit
hex_value-hex_digit n h = ground arith

from_hex-hex_digit : (b : ℕ) → b < 256 → from_hex (hex_digit (b / 16)) (hex_digit (b % 16)) ≡ some b
unfolding from_hex
from_hex-hex_digit b h =
    rw
      (
        hex_value-hex_digit (b / 16) (omega arith),
        from_hex,
        hex_value-hex_digit (b % 16) (omega arith),
      )
      (ap some (omega arith))

url_decode-plain :
    (x : ℕ) (rest : List ℕ) (plus : Bool)
    → (x == b'%') ≡ false
    → url_decode (x ∷ rest) plus ≡ decode_byte plus x ∷ url_decode rest plus
unfolding url_decode
url_decode-plain x [] plus h = refl
url_decode-plain x (y ∷ []) plus h = refl
url_decode-plain x (y ∷ z ∷ rest) plus h = rw h

url_decode-escaped :
    (y z h : ℕ) (rest : List ℕ) (plus : Bool)
    → from_hex y z ≡ some h
    → url_decode (b'%' ∷ y ∷ z ∷ rest) plus ≡ h ∷ url_decode rest plus
unfolding url_decode
url_decode-escaped y z h rest plus e = rw (e, url_decode)

url_decode-encode_byte :
    (plus : Bool) (b : ℕ) (rest : List ℕ)
    → b < 256
    → url_decode (encode_byte plus b ++ rest) plus ≡ b ∷ url_decode rest plus
unfolding encode_byte
url_decode-encode_byte plus b rest h = elim (Bool-cases (unreserved b || (not plus && b == b'/'))) [
  | inl kept ↦ rw kept (url_decode-plain b rest plus (ground arith) ∙ ground arith)
  | inr escaped ↦ elim (Bool-cases (plus && b == b' ')) [
    | inl space ↦ rw (escaped, space) (url_decode-plain b'+' rest plus refl ∙ ground arith)
    | inr other ↦
        rw (escaped, other)
          (url_decode-escaped (hex_digit (b / 16)) (hex_digit (b % 16)) b rest plus
            (from_hex-hex_digit b h))
  ]
]

-- Bytes, each below 256, that are percent-encoded are decoded to themselves, with + for a space or
-- without.
pub url_decode-url_encode :
    (bs : List ℕ) (plus : Bool) → IsBytes bs → url_decode (url_encode bs plus) plus ≡ bs
unfolding url_encode
url_decode-url_encode [] plus w = unfold url_decode in refl
url_decode-url_encode (b ∷ bs) plus w =
    url_decode-encode_byte plus b (url_encode bs plus) w.0
    ∙ ap (◌∷◌ b) (url_decode-url_encode bs plus w.1)
