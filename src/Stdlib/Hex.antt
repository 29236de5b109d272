-- ===== src/Stdlib/Hex.antt =====
-- Go's `encoding/hex`. A decoded text is a list of bytes; an encoded one is given by its bytes.
use Prim.Native.Char.{code}
use forward_stub.Prelude.{
  All, List, Option, String, [], ap, arith, if◌then◌else◌, leb, length, ltb, none, refl, some, ℕ,
  ◌%◌, ◌&&◌, ◌*◌, ◌+◌, ◌-◌, ◌/◌, ◌<◌, ◌∷◌, ◌≡◌,
}

abbrev pub Bytes : Type 0
Bytes = List ℕ

-- The code points of a text.
abbrev pub codes : String → List ℕ
codes String.[] = []
codes (String.◌∷◌ c s) = code c ∷ codes s

digit_value : ℕ → Option ℕ
digit_value c =
    if leb b'0' c && leb c b'9'
    then some (c - b'0')
    else if leb b'a' c && leb c b'f'
    then some (c - b'a' + 10)
    else if leb b'A' c && leb c b'F'
    then some (c - b'A' + 10)
    else none

digit_code : ℕ → ℕ
digit_code d = if ltb d 10 then b'0' + d else b'a' + (d - 10)

abbrev join_byte : Option ℕ → Option ℕ → Option Bytes → Option Bytes
join_byte (some h) (some l) (some rest) = some ((h * 16 + l) ∷ rest)
join_byte _ _ _ = none

-- An odd number of digits, or a character that is no digit, is an error.
unfoldable pub decode : List ℕ → Option Bytes
unfolding digit_value
decode [] = some []
decode (c ∷ []) = none
decode (c ∷ d ∷ rest) = join_byte (digit_value c) (digit_value d) (decode rest)

-- hex.DecodeString
unfoldable pub decode_string : String → Option Bytes
unfolding decode
decode_string s = decode (codes s)

-- hex.EncodeToString
unfoldable pub encode : Bytes → Bytes
unfolding digit_code
encode [] = []
encode (b ∷ bs) = digit_code (b / 16) ∷ digit_code (b % 16) ∷ encode bs

abbrev pub IsByte : ℕ → Type 0
IsByte b = b < 256

digit_value-digit_code : (d : ℕ) → d < 16 → digit_value (digit_code d) ≡ some d
unfolding digit_value digit_code
digit_value-digit_code d h = ground arith

pub length-encode : (bs : Bytes) → length (encode bs) ≡ 2 * length bs
unfolding encode
length-encode [] = refl
length-encode (b ∷ bs) = omega (arith, length-encode bs)

pub decode-encode : (bs : Bytes) → All IsByte bs → decode (encode bs) ≡ some bs
unfolding decode encode
decode-encode [] h = refl
decode-encode (b ∷ bs) h =
    rw
      (
        digit_value-digit_code (b / 16) (omega arith),
        digit_value-digit_code (b % 16) (omega arith),
        decode-encode bs h.1,
      )
      (ap (λ (x : ℕ). some (x ∷ bs)) (omega arith))

decodes : decode_string "0aFf" ≡ some (10 ∷ 255 ∷ [])
unfolding decode_string
decodes = refl
