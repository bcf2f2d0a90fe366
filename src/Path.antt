-- ===== src/Path.antt =====
-- lib/path.c: owned, NUL-terminated paths with a bound on their length.
-- A C string is the list of its bytes in front of the NUL; `none` is the null pointer. What `malloc`
-- answers is the argument `alloc`: `true` when a block of that many bytes is given out.
pub mod Join
pub mod Bounds
mod Tests
use netatalk_client.Base.{
  ℕ, zero, ◌+◌, ◌-◌, ◌%◌, ◌^◌, min, Bool, true, false, Option, none, some, List, [], ◌∷◌, ◌++◌, ltb,
  ◌==◌, if◌then◌else◌, length, get_or, not, ◌&&◌,
}
use netatalk_client.Base.Errno.{Result, ok, err, ◌>>=◌, einval, enametoolong, enomem}

-- `struct afpc_path`
pub record AfpcPath : Type 0 where
  pub bytes : Option (List ℕ)
  pub len : ℕ

abbrev pub size_max : ℕ
size_max = 2 ^ 64 - 1

abbrev pub path_unbounded : ℕ
path_unbounded = size_max

abbrev pub slash : ℕ
slash = b'/'

-- `strnlen(s, n)`
abbrev strnlen : List ℕ → ℕ → ℕ
strnlen s n = min (length s) n

pub validate : Option (List ℕ) → ℕ → Result ℕ
validate none max_len = err einval
validate (some s) max_len =
    if max_len == path_unbounded
    then ok (length s)
    else let measured = strnlen s (max_len + 1) in
      if ltb max_len measured then err enametoolong else ok measured

unfoldable pub clear : AfpcPath → AfpcPath
clear path = record { bytes = none; len = 0 }

-- A function that fills `dest` returns its status and what `dest` holds then.
store : Result AfpcPath → AfpcPath → Result (Unit {0}) × AfpcPath
store (ok p) dest = (ok tt, p)
store (err e) dest = (err e, dest)

-- The copy that `set` allocates, before it replaces the old one.
set_value : (ℕ → Bool) → Option (List ℕ) → ℕ → Result AfpcPath
unfolding validate clear
set_value alloc none max_len = ok (record { bytes = none; len = 0 })
set_value alloc (some s) max_len = do
  n ← validate (some s) max_len
  if alloc (n + 1) then ok (record { bytes = some s; len = n }) else err enomem

pub set : (ℕ → Bool) → AfpcPath → Option (List ℕ) → ℕ → Result (Unit {0}) × AfpcPath
unfolding store set_value
set alloc path s max_len = store (set_value alloc s max_len) path

unfoldable pub copy : (ℕ → Bool) → AfpcPath → AfpcPath → ℕ → Result (Unit {0}) × AfpcPath
copy alloc dest src max_len = set alloc dest src.bytes max_len

-- 1 where a slash must go between the two parts.
unfoldable pub separator_len : List ℕ → List ℕ → ℕ
separator_len parent name =
    if ltb 0 (length parent)
      && not (get_or parent (length parent - 1) 0 == slash)
      && ltb 0 (length name)
    then 1
    else 0

unfoldable pub separator : ℕ → List ℕ
separator n = if n == 0 then [] else slash ∷ []

-- The text that `join` writes into its block.
unfoldable pub joined : List ℕ → List ℕ → List ℕ
joined parent name = parent ++ (separator (separator_len parent name) ++ name)

-- The size checks of `join`, in `size_t`, and its block.
pub join_sized : (ℕ → Bool) → ℕ → ℕ → ℕ → List ℕ → ℕ → Result AfpcPath
join_sized alloc parent_len sep name_len text max_len =
    let with_sep = (parent_len + sep) % 2 ^ 64 in
    let total = (with_sep + name_len) % 2 ^ 64 in
    if ltb (size_max - sep) parent_len
    then err enametoolong
    else if ltb (size_max - name_len) with_sep
    then err enametoolong
    else if total == size_max
    then err enametoolong
    else if not (max_len == path_unbounded) && ltb max_len total
    then err enametoolong
    else if alloc (total + 1)
    then ok (record { bytes = some text; len = total })
    else err enomem

join_value : (ℕ → Bool) → List ℕ → List ℕ → ℕ → Result AfpcPath
unfolding validate join_sized
join_value alloc parent name max_len = do
  parent_len ← validate (some parent) max_len
  name_len ← validate (some name) max_len
  join_sized alloc parent_len (separator_len parent name) name_len (joined parent name) max_len

pub join :
    (ℕ → Bool) → AfpcPath → Option (List ℕ) → Option (List ℕ) → ℕ → Result (Unit {0}) × AfpcPath
unfolding store join_value joined separator_len separator
join alloc dest none name max_len = (err einval, dest)
join alloc dest (some parent) none max_len = (err einval, dest)
join alloc dest (some parent) (some name) max_len =
    store (join_value alloc parent name max_len) dest
