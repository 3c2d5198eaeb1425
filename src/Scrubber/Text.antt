-- ===== src/Scrubber/Text.antt =====
-- What internal/provider/scrubber.go uses of Go's `strings`, `bytes` and `strconv`.
use http_broker.Base.{
  ℕ, zero, suc, ◌+◌, ◌-◌, ◌*◌, ◌^◌, Bool, true, false, ◌&&◌, Option, none, some, List, [], ◌∷◌,
  ◌++◌, Bytes, has_prefix, ltb, leb, ◌==◌, if◌then◌else◌, length, drop,
}

abbrev pub cr : ℕ
cr = 13

abbrev pub lf : ℕ
lf = 10

abbrev pub crlf : Bytes
crlf = cr ∷ lf ∷ []

-- `bytes.Index` and `strings.Index`: the first position of `sep`, `none` for -1.
unfoldable pub index : Bytes → Bytes → Option ℕ
index [] sep = if has_prefix [] sep then some 0 else none
index (c ∷ s) sep =
    let later = index s sep in
    if has_prefix (c ∷ s) sep then some 0 else elim later [ none ↦ none | some i ↦ some (suc i) ]

unfoldable pub contains : Bytes → Bytes → Bool
contains s sub = elim (index s sub) [ none ↦ false | some i ↦ true ]

unfoldable pub index_byte : Bytes → ℕ → Option ℕ
index_byte [] b = none
index_byte (c ∷ s) b =
    let later = index_byte s b in
    if c == b then some 0 else elim later [ none ↦ none | some i ↦ some (suc i) ]

-- `strings.Split(s, "\r\n")`: the first line and the others. The number counts the bytes of a
-- separator that are still to be passed over.
unfoldable pub cut : Bytes → ℕ → Bytes × List Bytes
cut [] k = ([], [])
cut (c ∷ s) (suc k) = cut s k
cut (c ∷ s) zero = elim (has_prefix (c ∷ s) crlf) [
  | true ↦ let r = cut s 1 in ([], r.0 ∷ r.1)
  | false ↦ let r = cut s 0 in (c ∷ r.0, r.1)
]

unfoldable pub split_lines : Bytes → List Bytes
unfolding cut
split_lines s = let r = cut s 0 in r.0 ∷ r.1

-- `strings.Join(lines, "\r\n")`.
unfoldable pub join_lines : List Bytes → Bytes
join_lines [] = []
join_lines (l ∷ []) = l
join_lines (l ∷ m ∷ ls) = l ++ crlf ++ join_lines (m ∷ ls)

-- Lower case of an ASCII letter; no letter outside ASCII has a lower case among the letters of the
-- words that the program looks for ("close", "http", "https").
unfoldable pub lower : ℕ → ℕ
lower c = if leb b'A' c && leb c b'Z' then c + 32 else c

unfoldable pub to_lower : Bytes → Bytes
to_lower [] = []
to_lower (c ∷ s) = lower c ∷ to_lower s

-- U+017F folds to "s" and U+212A to "k".
abbrev pub long_s : Bytes
long_s = 0xC5 ∷ 0xBF ∷ []

abbrev pub kelvin : Bytes
kelvin = 0xE2 ∷ 0x84 ∷ 0xAA ∷ []

-- Takes off the text a first character that equals the ASCII letter `t` under case folding.
unfoldable pub fold_head : Bytes → ℕ → Option Bytes
unfolding lower has_prefix
fold_head [] t = none
fold_head (c ∷ s) t =
    if lower c == lower t
    then some s
    else if has_prefix (c ∷ s) long_s && lower t == b's'
    then some (drop 1 s)
    else if has_prefix (c ∷ s) kelvin && lower t == b'k'
    then some (drop 2 s)
    else none

-- `strings.EqualFold(s, t)` for an ASCII text `t`.
unfoldable pub equal_fold : Bytes → Bytes → Bool
unfolding fold_head
equal_fold [] [] = true
equal_fold (c ∷ s) [] = false
equal_fold s (t ∷ ts) = elim (fold_head s t) [ none ↦ false | some rest ↦ equal_fold rest ts ]

-- `bytes.TrimRight(line, "\r")`.
unfoldable pub trim_right_cr : Bytes → Bytes
trim_right_cr [] = []
trim_right_cr (c ∷ s) =
    let t = trim_right_cr s in elim t [ [] ↦ if c == cr then [] else c ∷ [] | d ∷ r ↦ c ∷ d ∷ r ]

-- The characters that `unicode.IsSpace` accepts, as UTF-8.
abbrev pub spaces : List Bytes
spaces =
    (9 ∷ [])
    ∷ (10 ∷ [])
    ∷ (11 ∷ [])
    ∷ (12 ∷ [])
    ∷ (13 ∷ [])
    ∷ (32 ∷ [])
    ∷ (0xC2 ∷ 0x85 ∷ [])
    ∷ (0xC2 ∷ 0xA0 ∷ [])
    ∷ (0xE1 ∷ 0x9A ∷ 0x80 ∷ [])
    ∷ (0xE2 ∷ 0x80 ∷ 0x80 ∷ [])
    ∷ (0xE2 ∷ 0x80 ∷ 0x81 ∷ [])
    ∷ (0xE2 ∷ 0x80 ∷ 0x82 ∷ [])
    ∷ (0xE2 ∷ 0x80 ∷ 0x83 ∷ [])
    ∷ (0xE2 ∷ 0x80 ∷ 0x84 ∷ [])
    ∷ (0xE2 ∷ 0x80 ∷ 0x85 ∷ [])
    ∷ (0xE2 ∷ 0x80 ∷ 0x86 ∷ [])
    ∷ (0xE2 ∷ 0x80 ∷ 0x87 ∷ [])
    ∷ (0xE2 ∷ 0x80 ∷ 0x88 ∷ [])
    ∷ (0xE2 ∷ 0x80 ∷ 0x89 ∷ [])
    ∷ (0xE2 ∷ 0x80 ∷ 0x8A ∷ [])
    ∷ (0xE2 ∷ 0x80 ∷ 0xA8 ∷ [])
    ∷ (0xE2 ∷ 0x80 ∷ 0xA9 ∷ [])
    ∷ (0xE2 ∷ 0x80 ∷ 0xAF ∷ [])
    ∷ (0xE2 ∷ 0x81 ∷ 0x9F ∷ [])
    ∷ (0xE3 ∷ 0x80 ∷ 0x80 ∷ [])
    ∷ []

-- Takes one of the characters off the front.
unfoldable pub strip_space : List Bytes → Bytes → Option Bytes
unfolding has_prefix
strip_space [] s = none
strip_space (sp ∷ sps) s = if has_prefix s sp then some (drop (length sp) s) else strip_space sps s

unfoldable pub trim_left_with : List Bytes → ℕ → Bytes → Bytes
unfolding strip_space
trim_left_with sps zero s = s
trim_left_with sps (suc fuel) s = elim (strip_space sps s) [
  | none ↦ s
  | some r ↦ trim_left_with sps fuel r
]

unfoldable pub reverse : Bytes → Bytes
reverse [] = []
reverse (c ∷ s) = reverse s ++ c ∷ []

unfoldable pub reversed_spaces : List Bytes → List Bytes
unfolding reverse
reversed_spaces [] = []
reversed_spaces (sp ∷ sps) = reverse sp ∷ reversed_spaces sps

-- `bytes.TrimSpace`: a space has a byte at least, so the length is fuel enough.
unfoldable pub trim_space : Bytes → Bytes
unfolding trim_left_with reverse reversed_spaces
trim_space s =
    let t = trim_left_with spaces (length s) s in
    reverse (trim_left_with (reversed_spaces spaces) (length t) (reverse t))

-- The value of a run of digits read after `n`, `none` at a byte that is no digit.
unfoldable pub digits_value : Bytes → ℕ → Option ℕ
digits_value [] n = some n
digits_value (c ∷ s) n =
    if leb b'0' c && leb c b'9' then digits_value s (n * 10 + (c - b'0')) else none

unfoldable pub unsigned : Bytes → Option ℕ
unfolding digits_value
unsigned [] = none
unsigned (c ∷ s) = digits_value (c ∷ s) 0

-- `strconv.Atoi` on a 64-bit machine, where only a result that is no less than 0 is told from a
-- failure: `none` stands for an error and for a negative number.
unfoldable pub atoi_nonneg : Bytes → Option ℕ
unfolding unsigned
atoi_nonneg [] = none
atoi_nonneg (c ∷ s) =
    if c == b'-'
    then elim (unsigned s) [ none ↦ none | some n ↦ if n == 0 then some 0 else none ]
    else elim (unsigned (if c == b'+' then s else c ∷ s)) [
      | none ↦ none
      | some n ↦ if ltb n (2 ^ 63) then some n else none
    ]
