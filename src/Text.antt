-- ===== src/Text.antt =====
-- The operations of Rust's `str` and `u32`/`u64` that the crates call, on native texts.
pub mod Numbers
pub mod Words
use Prim.Native.Char.{Char, code}
use k8s_power_management.Base.{
  ℕ, zero, suc, ◌+◌, ◌-◌, ◌*◌, ◌/◌, ◌%◌, String, ◌≡◌, Bool, true, false, ◌&&◌, ◌||◌, Option, none,
  some, List, [], ◌∷◌, map, Result, ok, err, ltb, leb, ◌==◌, if◌then◌else◌, str_eq,
}

abbrev pub codes : String → List ℕ
codes String.[] = []
codes (String.◌∷◌ c s) = code c ∷ codes s

abbrev pub is_nil : String → Bool
is_nil String.[] = true
is_nil (String.◌∷◌ c s) = false

-- `strip_prefix`: the text behind a prefix.
unfoldable pub strip_prefix : String → String → Option String
strip_prefix s String.[] = some s
strip_prefix String.[] (String.◌∷◌ p ps) = none
strip_prefix (String.◌∷◌ c s) (String.◌∷◌ p ps) =
    if code c == code p then strip_prefix s ps else none

-- `trim_end_matches('\n')`
unfoldable pub trim_newlines : String → String
trim_newlines String.[] = String.[]
trim_newlines (String.◌∷◌ c s) =
    let rest = trim_newlines s in
    if (code c == 10) && is_nil rest then String.[] else String.◌∷◌ c rest

-- `char::is_whitespace`, the Unicode property White_Space.
unfoldable pub is_whitespace : ℕ → Bool
is_whitespace c =
    leb 9 c && leb c 13
    || c == 32
    || c == 0x85
    || c == 0xa0
    || c == 0x1680
    || leb 0x2000 c && leb c 0x200a
    || c == 0x2028
    || c == 0x2029
    || c == 0x202f
    || c == 0x205f
    || c == 0x3000

abbrev pub onto_first : Char → List String → List String
onto_first c [] = String.◌∷◌ c String.[] ∷ []
onto_first c (w ∷ ws) = String.◌∷◌ c w ∷ ws

-- `split(char::is_whitespace)`: empty pieces included.
unfoldable pub pieces : String → List String
pieces String.[] = String.[] ∷ []
pieces (String.◌∷◌ c s) =
    let rest = pieces s in if is_whitespace (code c) then String.[] ∷ rest else onto_first c rest

unfoldable pub drop_empty : List String → List String
drop_empty [] = []
drop_empty (w ∷ ws) = let rest = drop_empty ws in if is_nil w then rest else w ∷ rest

-- `split_whitespace`
unfoldable pub split_whitespace : String → List String
unfolding pieces drop_empty is_whitespace
split_whitespace s = drop_empty (pieces s)

abbrev lower : ℕ → ℕ
lower c = if leb b'A' c && leb c b'Z' then c + 32 else c

-- `to_ascii_lowercase`, as code points.
abbrev pub to_ascii_lowercase : String → List ℕ
to_ascii_lowercase s = map lower (codes s)

abbrev pub begins_with : List ℕ → List ℕ → Bool
begins_with s [] = true
begins_with [] (p ∷ ps) = false
begins_with (c ∷ s) (p ∷ ps) = c == p && begins_with s ps

-- `contains`
unfoldable pub contains : List ℕ → List ℕ → Bool
contains [] needle = begins_with [] needle
contains (c ∷ s) needle = begins_with (c ∷ s) needle || contains s needle

-- `std::num::IntErrorKind`, the kinds that an unsigned parse reports.
pub data ParseIntError : Type 0 where
  empty invalid_digit pos_overflow : ParseIntError

-- Its `Display`.
unfoldable pub parse_int_error_text : ParseIntError → String
parse_int_error_text empty = "cannot parse integer from empty string"
parse_int_error_text invalid_digit = "invalid digit found in string"
parse_int_error_text pos_overflow = "number too large to fit in target type"

-- The digits from the left, each with the checks of `checked_mul` and `checked_add`.
unfoldable pub parse_digits : ℕ → ℕ → String → Result ℕ ParseIntError
parse_digits limit acc String.[] = ok acc
parse_digits limit acc (String.◌∷◌ c s) =
    let next = acc * 10 + (code c - b'0') in
    let rest = parse_digits limit next s in
    if leb b'0' (code c) && leb (code c) b'9'
    then if ltb next limit then rest else err pos_overflow
    else err invalid_digit

-- `from_str` of an unsigned type whose values lie below `limit`.
unfoldable pub parse_uint : ℕ → String → Result ℕ ParseIntError
unfolding parse_digits
parse_uint limit String.[] = err empty
parse_uint limit (String.◌∷◌ c s) =
    if code c == b'+'
    then if is_nil s then err invalid_digit else parse_digits limit 0 s
    else parse_digits limit 0 (String.◌∷◌ c s)

abbrev pub u32_limit : ℕ
u32_limit = 4_294_967_296

abbrev pub u64_limit : ℕ
u64_limit = 18_446_744_073_709_551_616

abbrev digit : ℕ → Char
digit zero = "0"
digit (suc zero) = "1"
digit (suc (suc zero)) = "2"
digit (suc (suc (suc zero))) = "3"
digit (suc (suc (suc (suc zero)))) = "4"
digit (suc (suc (suc (suc (suc zero))))) = "5"
digit (suc (suc (suc (suc (suc (suc zero)))))) = "6"
digit (suc (suc (suc (suc (suc (suc (suc zero))))))) = "7"
digit (suc (suc (suc (suc (suc (suc (suc (suc zero)))))))) = "8"
digit _ = "9"

-- The decimal digits of `n` in front of `acc`; each round divides by ten.
unfoldable pub decimal_onto : ℕ → ℕ → String → String
decimal_onto zero n acc = acc
decimal_onto (suc fuel) n acc =
    let more = decimal_onto fuel (n / 10) (String.◌∷◌ (digit (n % 10)) acc) in
    if ltb n 10 then String.◌∷◌ (digit n) acc else more

-- `Display` of an unsigned integer. A number has fewer digits than `n + 1`.
unfoldable pub decimal : ℕ → String
unfolding decimal_onto
decimal n = decimal_onto (suc n) n ""
