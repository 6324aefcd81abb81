-- ===== src/Js/Hex.antt =====
-- Strings, and hexadecimal text ("0x", then two lower-case digits for each byte).
use Prim.Native.Char.{code}
use Prim.Native.String.{String}
use falcon_smart_account.Prelude.{
  ℕ, suc, ◌+◌, ◌-◌, ◌*◌, ◌/◌, ◌%◌, ◌^◌, suc, ◌<◌, ◌≡◌, refl, sym, ap, ◌∙◌, List, [], ◌∷◌, ◌++◌,
  Option, none, some, Bool, false, ◌&&◌, arith, ltb, leb, ◌==◌, if◌then◌else◌, length, take, drop,
  AllBytes,
}
use falcon_smart_account.Prelude.Digits.{be_value, be_bytes, be_bytes-AllBytes, be_value-be_bytes}

-- A string, as the codes of its characters.
abbrev pub Str : Type 0
Str = List ℕ

-- `s.slice(from, to)` and `s.slice(from)` at indices that are not negative.
abbrev pub slice : Str → ℕ → ℕ → Str
slice s from to = take (to - from) (drop from s)

abbrev pub slice_from : Str → ℕ → Str
slice_from s from = drop from s

-- `s.slice(-n)`: the last `n` characters, all of them if there are fewer.
abbrev pub slice_last : Str → ℕ → Str
slice_last s n = drop (length s - n) s

abbrev pub hex_prefix : Str
hex_prefix = b'0' ∷ b'x' ∷ []

-- `s.startsWith('0x')`
abbrev pub starts_with_0x : Str → Bool
starts_with_0x (a ∷ b ∷ s) = (a == b'0') && (b == b'x')
starts_with_0x _ = false

-- The character codes of an ASCII text.
abbrev pub codes : String → Str
codes String.[] = []
codes (String.◌∷◌ c s) = code c ∷ codes s

-- `s.toLowerCase()` of ASCII text.
abbrev pub to_lower_case : Str → Str
to_lower_case [] = []
to_lower_case (c ∷ s) = (if leb b'A' c && leb c b'Z' then c + 32 else c) ∷ to_lower_case s

unfoldable pub hex_digit : ℕ → ℕ
hex_digit d = if ltb d 10 then b'0' + d else b'a' + (d - 10)

-- The digits of a byte string, and the data string that ethers makes of it.
unfoldable pub hex_digits : List ℕ → Str
hex_digits [] = []
hex_digits (b ∷ bs) = hex_digit (b / 16) ∷ hex_digit (b % 16) ∷ hex_digits bs

abbrev pub data_hex : List ℕ → Str
data_hex bs = b'0' ∷ b'x' ∷ hex_digits bs

unfoldable pub digit_value : ℕ → Option ℕ
digit_value c =
    if leb b'0' c && leb c b'9'
    then some (c - b'0')
    else (if leb b'a' c && leb c b'f'
        then some (c - b'a' + 10)
        else (if leb b'A' c && leb c b'F' then some (c - b'A' + 10) else none))

-- The digits up to the first character that is none, behind `acc`; `none` (NaN) if there is none.
unfoldable pub read_digits : Str → Option ℕ → Option ℕ
read_digits [] acc = acc
read_digits (c ∷ s) acc = elim (digit_value c) [
  | none ↦ acc
  | some d ↦ read_digits s (some (elim acc [ none ↦ d | some n ↦ n * 16 + d ]))
]

abbrev pub strip_0x : Str → Str
strip_0x s = if starts_with_0x s then drop 2 s else s

-- `parseInt(s, 16)`, the exact whole number before it is rounded to a double; no sign and no
-- leading blank is read, since every text that the sources parse is hexadecimal data.
unfoldable pub parse_int_16 : Str → Option ℕ
unfolding read_digits digit_value
parse_int_16 s = read_digits (strip_0x s) none

pub length-hex_digits : (bs : List ℕ) → length (hex_digits bs) ≡ 2 * length bs
unfolding hex_digits
length-hex_digits [] = refl
length-hex_digits (b ∷ bs) = omega (arith, length-hex_digits bs)

pub hex_digits-append : (xs ys : List ℕ) → hex_digits (xs ++ ys) ≡ hex_digits xs ++ hex_digits ys
unfolding hex_digits
hex_digits-append [] ys = refl
hex_digits-append (x ∷ xs) ys =
    ap (λ (l : Str). hex_digit (x / 16) ∷ hex_digit (x % 16) ∷ l) (hex_digits-append xs ys)

pub digit_value-hex_digit : (d : ℕ) → d < 16 → digit_value (hex_digit d) ≡ some d
unfolding digit_value hex_digit
digit_value-hex_digit d h = ground arith

read_digits-hex_digits-some :
    (bs : List ℕ) (acc : ℕ)
    → AllBytes bs
    → read_digits (hex_digits bs) (some acc) ≡ some (be_value acc bs)
unfolding read_digits hex_digits be_value
read_digits-hex_digits-some [] acc h = refl
read_digits-hex_digits-some (b ∷ bs) acc h = ground (
  arith,
  digit_value-hex_digit (b / 16) (omega arith),
  digit_value-hex_digit (b % 16) (omega arith),
  read_digits-hex_digits-some bs (acc * 256 + b) h.1,
)

-- Reading the digits of one byte or more gives the number of the bytes.
pub read_digits-hex_digits :
    (b : ℕ) (bs : List ℕ)
    → AllBytes (b ∷ bs)
    → read_digits (hex_digits (b ∷ bs)) none ≡ some (be_value 0 (b ∷ bs))
unfolding read_digits hex_digits be_value
read_digits-hex_digits b bs h = ground (
  arith,
  digit_value-hex_digit (b / 16) (omega arith),
  digit_value-hex_digit (b % 16) (omega arith),
  read_digits-hex_digits-some bs (0 * 256 + b) h.1,
)

hex_digit-ne-x : (d : ℕ) → d < 16 → (hex_digit d == b'x') ≡ false
unfolding hex_digit
hex_digit-ne-x d h = ground arith

strip_0x-hex_digits : (bs : List ℕ) → AllBytes bs → strip_0x (hex_digits bs) ≡ hex_digits bs
unfolding hex_digits
strip_0x-hex_digits [] h = refl
strip_0x-hex_digits (b ∷ bs) h = ground (arith, hex_digit-ne-x (b % 16) (omega arith))

-- `parseInt` reads bare digits, of one byte or more, as the number of the bytes.
pub parse_int_16-hex_digits :
    (b : ℕ) (bs : List ℕ)
    → AllBytes (b ∷ bs)
    → parse_int_16 (hex_digits (b ∷ bs)) ≡ some (be_value 0 (b ∷ bs))
unfolding parse_int_16
parse_int_16-hex_digits b bs h =
    ap (λ (s : Str). read_digits s none) (strip_0x-hex_digits (b ∷ bs) h)
    ∙ read_digits-hex_digits b bs h

-- `parseInt` reads the padded digits of a number as that number.
pub parse_int_16-be_bytes :
    (k n : ℕ) → n < 256 ^ suc k → parse_int_16 (hex_digits (be_bytes (suc k) n)) ≡ some n
unfolding be_bytes
parse_int_16-be_bytes k n h =
    parse_int_16-hex_digits (n / 256 ^ k) (be_bytes k (n % 256 ^ k)) (be_bytes-AllBytes (suc k) n h)
    ∙ ap some (omega (arith, be_value-be_bytes (suc k) n 0 h))

-- The prefix "0x" is skipped before digits.
pub parse_int_16-prefix :
    (bs : List ℕ) → AllBytes bs → parse_int_16 (data_hex bs) ≡ parse_int_16 (hex_digits bs)
unfolding parse_int_16
parse_int_16-prefix bs h = ap (λ (s : Str). read_digits s none) (sym (strip_0x-hex_digits bs h))
