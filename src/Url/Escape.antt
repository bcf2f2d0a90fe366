-- ===== src/Url/Escape.antt =====
-- The searches and copies of lib/afp_url.c on texts that are put together.
use netatalk_client.Base.{
  codes, ◌<◌, ℕ, ◌+◌, ◌-◌, ◌*◌, ◌≡◌, ◌≢◌, ◌<◌, refl, ap, ◌∙◌, pos, true, false, none, some, List,
  [], ◌∷◌, ◌++◌, arith, ◌==◌, ==_self, ==_ne, if◌then◌else◌, length, drop, All, Bool-cases, inl,
  inr,
}
use netatalk_client.Url.Scan.{
  before, find_char, last_index, starts_with, find_text, unescaped, escape_loop, escape_string,
  is_digit, is_space, digits_value, signed_value, parse_long,
}

-- The text has no byte `c`.
abbrev pub Lacks : ℕ → List ℕ → Type 0
Lacks c = All (λ (x : ℕ). x ≢ c)

pub find_char-append : (c : ℕ) (a b : List ℕ) → Lacks c a → find_char c (a ++ (c ∷ b)) ≡ some (a, b)
unfolding find_char
find_char-append c [] b h = ground arith
find_char-append c (x ∷ a) b (hx, h) = ground (arith, find_char-append c a b h)

pub find_char_absent : (c : ℕ) (a : List ℕ) → Lacks c a → find_char c a ≡ none
unfolding find_char
find_char_absent c [] h = refl
find_char_absent c (x ∷ a) (hx, h) = ground (arith, find_char_absent c a h)

pub last_index_absent : (c : ℕ) (a : List ℕ) → Lacks c a → last_index c a ≡ none
unfolding last_index
last_index_absent c [] h = refl
last_index_absent c (x ∷ a) (hx, h) = rw (last_index_absent c a h, ==_ne x c hx)

pub last_index-append :
    (c : ℕ) (a b : List ℕ) → Lacks c b → last_index c (a ++ (c ∷ b)) ≡ some (length a)
unfolding last_index
last_index-append c [] b h = rw (last_index_absent c b h, ==_self c)
last_index-append c (x ∷ a) b h = rw (last_index-append c a b h)

-- A text that begins with another byte is not found at its head.
pub find_text_absent : (c : ℕ) (text a : List ℕ) → Lacks c a → find_text (c ∷ text) a ≡ none
unfolding find_text starts_with
find_text_absent c text [] h = refl
find_text_absent c text (x ∷ a) (hx, h) = ground (arith, find_text_absent c text a h)

pub starts_with-append : (a b : List ℕ) → starts_with a (a ++ b) ≡ true
unfolding starts_with
starts_with-append [] b = refl
starts_with-append (x ∷ a) b = ground (arith, starts_with-append a b)

pub drop-length : (a b : List ℕ) → drop (length a) (a ++ b) ≡ b
drop-length [] b = refl
drop-length (x ∷ a) b = drop-length a b

pub find_text-append :
    (c : ℕ) (text a b : List ℕ)
    → Lacks c a
    → find_text (c ∷ text) (a ++ ((c ∷ text) ++ b)) ≡ some (a, b)
unfolding find_text
find_text-append c text [] b h = rw (starts_with-append (c ∷ text) b, drop-length text b)
find_text-append c text (x ∷ a) b (hx, h) = rw (find_text-append c text a b h, starts_with_other)
  where
    starts_with_other : starts_with (c ∷ text) (x ∷ (a ++ ((c ∷ text) ++ b))) ≡ false
    starts_with_other = unfold starts_with in ground arith

-- Each `c` of the text doubled.
unfoldable pub double : ℕ → List ℕ → List ℕ
double c [] = []
double c (x ∷ s) = if x == c then c ∷ c ∷ double c s else x ∷ double c s

pub double_same : (c : ℕ) (s : List ℕ) → Lacks c s → double c s ≡ s
unfolding double
double_same c [] h = refl
double_same c (x ∷ s) (hx, h) = ground (arith, double_same c s h)

pub double-append : (c : ℕ) (a b : List ℕ) → double c (a ++ b) ≡ double c a ++ double c b
unfolding double
double-append c [] b = refl
double-append c (x ∷ a) b = ground (arith, double-append c a b)

pub escape_string-double : (s : List ℕ) (c : ℕ) → escape_string (double c s) c ≡ s
unfolding escape_string escape_loop double
escape_string-double s c = loop s
  where
    loop : (s : List ℕ) → escape_loop c false (double c s) ≡ s
    loop [] = refl
    loop (x ∷ s) = ground (arith, loop s)

-- The text does not begin with `c`.
abbrev pub OtherHead : ℕ → List ℕ → Type 0
OtherHead c [] = Unit
OtherHead c (x ∷ s) = x ≢ c

unescaped-cons : (c x : ℕ) (s : List ℕ) → x ≢ c → unescaped c (x ∷ s) ≡ before x (unescaped c s)
unfolding unescaped
unescaped-cons c x [] h = rw (==_ne x c h)
unescaped-cons c x (y ∷ s) h = rw (==_ne x c h, unescaped)

unescaped_here : (c : ℕ) (s : List ℕ) → OtherHead c s → unescaped c (c ∷ s) ≡ some ([], s)
unfolding unescaped
unescaped_here c [] h = rw (==_self c)
unescaped_here c (y ∷ s) h = rw (==_self c, ==_ne y c h, unescaped)

unescaped_pair :
    (c : ℕ) (s : List ℕ) → unescaped c (c ∷ c ∷ s) ≡ before c (before c (unescaped c s))
unfolding unescaped
unescaped_pair c s = rw (==_self c, unescaped, ==_self c)

pub unescaped-double :
    (c : ℕ) (u s : List ℕ)
    → OtherHead c s
    → unescaped c (double c u ++ (c ∷ s)) ≡ some (double c u, s)
unfolding double
unescaped-double c [] s h = unescaped_here c s h
unescaped-double c (x ∷ u) s h = elim (Bool-cases (x == c)) [
  | inl e ↦ rw (e, unescaped_pair c (double c u ++ (c ∷ s)), unescaped-double c u s h)
  | inr e ↦
      rw (e, unescaped-cons c x (double c u ++ (c ∷ s)) (ground arith), unescaped-double c u s h)
]

pub unescaped_absent : (c : ℕ) (s : List ℕ) → Lacks c s → unescaped c s ≡ none
unescaped_absent c [] h = unfold unescaped in refl
unescaped_absent c (x ∷ s) (hx, h) = unescaped-cons c x s hx ∙ rw (unescaped_absent c s h)

-- The value of a text of digits, read from its first digit on.
abbrev pub decimal : ℕ → List ℕ → ℕ
decimal acc [] = acc
decimal acc (d ∷ s) = decimal (acc * 10 + d) s

abbrev pub IsDigits : List ℕ → Type 0
IsDigits = All (λ (d : ℕ). d < 10)

abbrev pub digit_text : List ℕ → List ℕ
digit_text [] = []
digit_text (d ∷ s) = (b'0' + d) ∷ digit_text s

digits_value-digit_text :
    (acc : ℕ) (s : List ℕ) → IsDigits s → digits_value acc (digit_text s) ≡ decimal acc s
unfolding digits_value is_digit
digits_value-digit_text acc [] h = refl
digits_value-digit_text acc (d ∷ s) (hd, h) = ground (
  arith,
  digits_value-digit_text (acc * 10 + d) s h,
  ap (λ (t : ℕ). digits_value (acc * 10 + t) (digit_text s)) same,
)
  where
    same : b'0' + d - b'0' ≡ d
    same = omega arith

pub parse_long-digit_text :
    (d : ℕ) (s : List ℕ)
    → IsDigits (d ∷ s)
    → parse_long (digit_text (d ∷ s)) ≡ pos (decimal 0 (d ∷ s))
unfolding parse_long signed_value is_space
parse_long-digit_text d s (hd, h) = ground (arith, digits_value-digit_text 0 (d ∷ s) (hd, h))

pub scheme_found :
    (s : List ℕ) → find_text (codes "://") (codes "afp://" ++ s) ≡ some (codes "afp", s)
unfolding find_text starts_with
scheme_found s = refl

pub OtherHead-append : (c : ℕ) (s t : List ℕ) → 0 < length s → Lacks c s → OtherHead c (s ++ t)
OtherHead-append c [] t h k = elim h [ ]
OtherHead-append c (x ∷ s) t h (kx, k) = kx
