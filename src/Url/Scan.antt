-- ===== src/Url/Scan.antt =====
-- The searches and copies on C strings of lib/afp_url.c: `strchr`, `strrchr` and `strstr` of the C
-- library, `escape_strchr`, `escape_strrchr`, `escape_string`, and `strtol` in `check_port`.
-- A C string is the list of its bytes in front of the NUL. A search answers the bytes in front of
-- what it found, and those behind it.
use netatalk_client.Base.{
  ℕ, zero, suc, ◌+◌, ◌-◌, ◌*◌, ℤ, pos, negsuc, Bool, true, false, not, ◌&&◌, ◌||◌, Option, none,
  some, List, [], ◌∷◌, ltb, leb, ◌==◌, if◌then◌else◌, length, drop, get_or,
}

abbrev pub Found : Type 0
Found = Option (List ℕ × List ℕ)

abbrev pub before : ℕ → Found → Found
before x none = none
before x (some (front, back)) = some (x ∷ front, back)

-- `strchr(s, c)`
unfoldable pub find_char : ℕ → List ℕ → Found
find_char c [] = none
find_char c (x ∷ s) = if x == c then some ([], s) else before x (find_char c s)

abbrev next_index : Bool → Option ℕ → Option ℕ
next_index here (some i) = some (suc i)
next_index true none = some 0
next_index false none = none

-- The index that `strrchr(s, c)` points to.
unfoldable pub last_index : ℕ → List ℕ → Option ℕ
last_index c [] = none
last_index c (x ∷ s) = next_index (x == c) (last_index c s)

unfoldable pub starts_with : List ℕ → List ℕ → Bool
starts_with [] s = true
starts_with (p ∷ pattern_rest) [] = false
starts_with (p ∷ pattern_rest) (x ∷ s) = x == p && starts_with pattern_rest s

-- `strstr(s, text)` for a text that is not empty.
unfoldable pub find_text : List ℕ → List ℕ → Found
unfolding starts_with
find_text text [] = none
find_text text (x ∷ s) =
    if starts_with text (x ∷ s)
    then some ([], drop (length text) (x ∷ s))
    else before x (find_text text s)

unfoldable pub contains : ℕ → List ℕ → Bool
contains c [] = false
contains c (x ∷ s) = x == c || contains c s

-- `escape_strchr` for a `c` of `toescape`: a doubled `c` is passed over.
unfoldable pub unescaped : ℕ → List ℕ → Found
unescaped c [] = none
unescaped c (x ∷ []) = if x == c then some ([], []) else none
unescaped c (x ∷ y ∷ s) = elim (x == c) [
  | false ↦ before x (unescaped c (y ∷ s))
  | true ↦ elim (y == c) [ true ↦ before x (before y (unescaped c s)) | false ↦ some ([], y ∷ s) ]
]

-- `escape_strchr`
unfoldable pub escape_strchr : List ℕ → ℕ → List ℕ → Found
unfolding unescaped find_char contains
escape_strchr s c toescape = if not (contains c toescape) then find_char c s else unescaped c s

-- What a search from the end comes to: nothing, an index, a pointer in front of the string, or a
-- search that goes on.
pub data Search : Type 0 where
  absent : Search
  at : ℕ → Search
  in_front : Search
  unfinished : Search

abbrev search_of : ℕ → Option ℕ → Search
search_of from none = absent
search_of from (some k) = at (from + k)

-- `strrchr` from index `from` on has answered; `again` is the call on the pointer `p - 2`.
unfoldable pub judge_last : ℕ → List ℕ → ℕ → Option ℕ → (ℕ → Search) → Search
judge_last c s from none again = absent
judge_last c s from (some k) again =
    let p = from + k in
    if k == 0
    then at p
    else if not (get_or s (p - 1) 0 == c)
    then at p
    else if ltb p 2
    then in_front
    else again (p - 2)

-- `escape_strrchr` on the pointer to index `from` of `s`.
unfoldable pub escape_strrchr : ℕ → List ℕ → ℕ → List ℕ → ℕ → Search
unfolding judge_last last_index contains
escape_strrchr zero s c toescape from = unfinished
escape_strrchr (suc fuel) s c toescape from =
    if not (contains c toescape)
    then search_of from (last_index c (drop from s))
    else judge_last c s from (last_index c (drop from s)) (λ p. escape_strrchr fuel s c toescape p)

-- The loop of `escape_string`.
unfoldable pub escape_loop : ℕ → Bool → List ℕ → List ℕ
escape_loop c inescape [] = []
escape_loop c inescape (d ∷ s) =
    if inescape && d == c then escape_loop c false s else d ∷ escape_loop c (d == c || inescape) s

-- `escape_string`
unfoldable pub escape_string : List ℕ → ℕ → List ℕ
unfolding escape_loop
escape_string s c = escape_loop c false s

-- `isspace` in the C locale
unfoldable pub is_space : ℕ → Bool
is_space c = c == 32 || leb 9 c && leb c 13

unfoldable pub is_digit : ℕ → Bool
is_digit c = leb b'0' c && leb c b'9'

unfoldable pub digits_value : ℕ → List ℕ → ℕ
unfolding is_digit
digits_value acc [] = acc
digits_value acc (c ∷ s) =
    let rest = digits_value (acc * 10 + (c - b'0')) s in if is_digit c then rest else acc

abbrev pub minus : ℕ → ℤ
minus zero = pos 0
minus (suc n) = negsuc n

unfoldable pub signed_value : List ℕ → ℤ
unfolding digits_value
signed_value [] = pos 0
signed_value (c ∷ s) =
    if c == b'-'
    then minus (digits_value 0 s)
    else if c == b'+'
    then pos (digits_value 0 s)
    else pos (digits_value 0 (c ∷ s))

-- `strtol(s, NULL, 10)` and `atoi(s)`. A value that `long` cannot hold is left as it is: its bounds
-- are refused as well.
unfoldable pub parse_long : List ℕ → ℤ
unfolding signed_value is_space
parse_long [] = pos 0
parse_long (c ∷ s) = if is_space c then parse_long s else signed_value (c ∷ s)
