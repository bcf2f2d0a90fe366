-- ===== src/Path/Bounds.antt =====
-- The invariant of `struct afpc_path`: `len` measures the text, and stays under the bound.
use netatalk_client.Base.{
  ℕ, ◌+◌, ◌≤◌, ◌<◌, ◌≡◌, Bool, Option, some, none, List, length, arith, refl, ◌+◌,
}
use netatalk_client.Base.Errno.{Result, ok, err}
use netatalk_client.Path.{
  AfpcPath, size_max, join, join_value, join_sized, joined, separator_len, store, set, set_value,
  clear,
}
use netatalk_client.Path.Join.{length-joined, separator_len-le, validate_exact}

-- A path with no text has length 0.
abbrev pub Measures : Option (List ℕ) → ℕ → Type 0
Measures none n = n ≡ 0
Measures (some s) n = n ≡ length s

pub record IsBoundedPath (max_len : ℕ) (p : AfpcPath) : Type 0 where
  pub measured : Measures p.bytes p.len
  pub within : p.len ≤ max_len

abbrev OkBounded : ℕ → Result AfpcPath → Type 0
OkBounded max_len r = (q : AfpcPath) → r ≡ ok q → IsBoundedPath max_len q

store-IsBoundedPath :
    (max_len : ℕ) (r : Result AfpcPath) (dest : AfpcPath)
    → OkBounded max_len r
    → IsBoundedPath max_len dest
    → IsBoundedPath max_len (store r dest).1
unfolding store
store-IsBoundedPath max_len (ok p) dest h d = h p refl
store-IsBoundedPath max_len (err e) dest h d = d

-- A text that memory can hold with its NUL.
abbrev pub TextFits : Option (List ℕ) → Type 0
TextFits none = Unit {0}
TextFits (some s) = length s < size_max

set_value_bounded :
    (alloc : ℕ → Bool) (s : Option (List ℕ)) (max_len : ℕ)
    → TextFits s
    → OkBounded max_len (set_value alloc s max_len)
unfolding set_value
set_value_bounded alloc none max_len h q e = ground arith
set_value_bounded alloc (some s) max_len h q e = ground (arith, validate_exact s max_len h)

-- The four size checks keep the sum from wrapping, so the length that is stored is the text's.
join_sized_bounded :
    (alloc : ℕ → Bool) (p sep n : ℕ) (text : List ℕ) (max_len : ℕ)
    → length text ≡ p + sep + n
    → sep ≤ 1
    → p < size_max
    → n < size_max
    → OkBounded max_len (join_sized alloc p sep n text max_len)
unfolding join_sized
join_sized_bounded alloc p sep n text max_len e hs hp hn q j = ground arith

join_value_bounded :
    (alloc : ℕ → Bool) (parent name : List ℕ) (max_len : ℕ)
    → length parent < size_max
    → length name < size_max
    → OkBounded max_len (join_value alloc parent name max_len)
unfolding join_value
join_value_bounded alloc parent name max_len hp hn q j = ground (
  arith,
  validate_exact parent max_len,
  validate_exact name max_len,
  join_sized_bounded alloc (length parent) (separator_len parent name) (length name)
      (joined parent name) max_len (length-joined parent name) (separator_len-le parent name) hp hn
      q,
)

clear-IsBoundedPath : (max_len : ℕ) (p : AfpcPath) → IsBoundedPath max_len (clear p)
unfolding clear
clear-IsBoundedPath max_len p = ground arith

-- `set` keeps a bounded path bounded, whether it succeeds or fails, if the text and its NUL fit into
-- memory.
pub set-IsBoundedPath :
    (alloc : ℕ → Bool) (dest : AfpcPath) (s : Option (List ℕ)) (max_len : ℕ)
    → TextFits s
    → IsBoundedPath max_len dest
    → IsBoundedPath max_len (set alloc dest s max_len).1
unfolding set
set-IsBoundedPath alloc dest s max_len h d =
    store-IsBoundedPath max_len (set_value alloc s max_len) dest
      (set_value_bounded alloc s max_len h) d

-- `join` keeps a bounded path bounded, whether it succeeds or fails and whatever its arguments, if
-- each text that is no null pointer fits into memory with its NUL.
pub join-IsBoundedPath :
    (alloc : ℕ → Bool) (dest : AfpcPath) (parent name : Option (List ℕ)) (max_len : ℕ)
    → TextFits parent
    → TextFits name
    → IsBoundedPath max_len dest
    → IsBoundedPath max_len (join alloc dest parent name max_len).1
unfolding join
join-IsBoundedPath alloc dest none name max_len hp hn d = d
join-IsBoundedPath alloc dest (some parent) none max_len hp hn d = d
join-IsBoundedPath alloc dest (some parent) (some name) max_len hp hn d =
    store-IsBoundedPath max_len (join_value alloc parent name max_len) dest
      (join_value_bounded alloc parent name max_len hp hn) d
