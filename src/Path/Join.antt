-- ===== src/Path/Join.antt =====
-- What `afpc_path_join` promises: the exact result on strings of any length, and that joining is
-- associative.
use netatalk_client.Base.{
  ◌≢◌, ℕ, suc, ◌+◌, ◌-◌, ◌≤◌, ◌<◌, ◌≡◌, refl, ◌∙◌, Bool, true, some, List, [], ◌∷◌, ◌++◌, arith,
  ltb, leb, if◌then◌else◌, length, length-append, get_or, ◌&&◌,
}
use netatalk_client.Base.Errno.{ok, err, enametoolong}
use netatalk_client.Path.{
  AfpcPath, size_max, slash, join, join_value, separator, separator_len, validate, joined,
  join_sized,
}
use mathlib.Core.List.{append_assoc, append-nil}

pub length-joined : (a b : List ℕ) → length (joined a b) ≡ length a + separator_len a b + length b
unfolding joined separator separator_len
length-joined a b = ground (arith, length-append a b, length-append a (slash ∷ b))

pub separator_len-le : (a b : List ℕ) → separator_len a b ≤ 1
unfolding separator_len
separator_len-le a b = ground arith

-- Whether a text of `n` bytes fits a bound, with room for its NUL.
abbrev pub fits : ℕ → ℕ → Bool
fits n max_len = ltb n size_max && leb n max_len

-- Measuring with `strnlen` under the bound finds every text that fits.
pub validate_exact :
    (s : List ℕ) (max_len : ℕ)
    → length s < size_max
    → validate (some s) max_len
      ≡ (if leb (length s) max_len then ok (length s) else err enametoolong)
unfolding validate
validate_exact s max_len h = ground arith

pub join_sized_exact :
    (alloc : ℕ → Bool) (p sep n total : ℕ) (text : List ℕ) (max_len : ℕ)
    → alloc (total + 1) ≡ true
    → total ≡ p + sep + n
    → sep ≤ 1
    → p < size_max
    → n < size_max
    → max_len ≤ size_max
    → join_sized alloc p sep n text max_len ≡ (
        if fits total max_len
        then ok (record { bytes = some text; len = total })
        else err enametoolong)
unfolding join_sized
join_sized_exact alloc p sep n total text max_len gives e hs hp hn hm = ground arith

join_value_exact :
    (alloc : ℕ → Bool) (parent name : List ℕ) (max_len : ℕ)
    → ((n : ℕ) → alloc n ≡ true)
    → length parent < size_max
    → length name < size_max
    → max_len ≤ size_max
    → join_value alloc parent name max_len ≡ (
        if fits (length (joined parent name)) max_len
        then ok (record { bytes = some (joined parent name); len = length (joined parent name) })
        else err enametoolong)
unfolding join_value
join_value_exact alloc parent name max_len gives hp hn hm = ground (
  arith,
  validate_exact parent max_len,
  validate_exact name max_len,
  length-joined parent name,
  separator_len-le parent name,
  join_sized_exact alloc (length parent) (separator_len parent name) (length name)
      (length (joined parent name)) (joined parent name) max_len (gives _),
)

-- What `join` writes, by the length of its separator.
pub join-joined :
    (alloc : ℕ → Bool) (dest : AfpcPath) (parent name : List ℕ) (max_len : ℕ)
    → ((n : ℕ) → alloc n ≡ true)
    → length parent < size_max
    → length name < size_max
    → max_len ≤ size_max
    → join alloc dest (some parent) (some name) max_len ≡ (
        if fits (length (joined parent name)) max_len
        then (
          ok tt,
          record { bytes = some (joined parent name); len = length (joined parent name) },
        )
        else (err enametoolong, dest))
unfolding join
join-joined alloc dest parent name max_len gives hp hn hm =
    rw (join_value_exact alloc parent name max_len gives hp hn hm) (ground arith)

get_or_last-append :
    (a b : List ℕ)
    → 0 < length b
    → get_or (a ++ b) (length (a ++ b) - 1) 0 ≡ get_or b (length b - 1) 0
get_or_last-append [] b h = refl
get_or_last-append (x ∷ a) b h =
    rw (sub_suc (length (a ++ b)) (omega (arith, length-append a b))) (get_or_last-append a b h)
  where
    sub_suc : (n : ℕ) → 0 < n → suc n - 1 ≡ suc (n - 1)
    sub_suc n k = omega arith

-- Whether a text needs a slash behind it depends on its last byte only.
separator_len_front : (a b c : List ℕ) → 0 < length b → separator_len (a ++ b) c ≡ separator_len b c
unfolding separator_len
separator_len_front a b c h = ground (arith, get_or_last-append a b h, length-append a b)

-- Of the second text only its emptiness counts.
separator_len_back :
    (a b d : List ℕ) → 0 < length b → 0 < length d → separator_len a b ≡ separator_len a d
unfolding separator_len
separator_len_back a b d hb hd = ground arith

joined_nil : (a : List ℕ) → joined a [] ≡ a
unfolding joined separator_len separator
joined_nil a = ground (arith, append-nil a)

nil_joined : (a : List ℕ) → joined [] a ≡ a
unfolding joined separator_len separator
nil_joined a = ground arith

last_byte :
    (front : List ℕ) (c : ℕ) → get_or (front ++ (c ∷ [])) (length (front ++ (c ∷ [])) - 1) 0 ≡ c
last_byte front c = get_or_last-append front (c ∷ []) (omega arith)

joined_slash :
    (front name : List ℕ) → joined (front ++ (47 ∷ [])) name ≡ (front ++ (47 ∷ [])) ++ name
unfolding joined separator_len separator
joined_slash front name = ground (arith, last_byte front 47)

joined_other :
    (front name : List ℕ) (c : ℕ)
    → c ≢ 47
    → 0 < length name
    → joined (front ++ (c ∷ [])) name ≡ (front ++ (c ∷ [])) ++ (47 ∷ name)
unfolding joined separator_len separator
joined_other front name c ne h =
    ground (arith, ne, h, last_byte front c, length-append front (c ∷ []))

-- With memory to be had, two texts shorter than SIZE_MAX and a bound of at most SIZE_MAX, `join`
-- writes one text if that fits the bound and `size_t`; otherwise it answers ENAMETOOLONG and leaves
-- `dest` as it was. The text is the name for an empty parent, the parent for an empty name, the parent
-- and the name behind it if the parent ends in a slash, and else both with one slash between them.
pub join_exact :
    (alloc : ℕ → Bool) (dest : AfpcPath) (parent name : List ℕ) (max_len : ℕ)
    → ((n : ℕ) → alloc n ≡ true)
    → length parent < size_max
    → length name < size_max
    → max_len ≤ size_max
    → (text : List ℕ) × (join alloc dest (some parent) (some name) max_len ≡ (
        if fits (length text) max_len
        then (ok tt, record { bytes = some text; len = length text })
        else (err enametoolong, dest)))
      × (parent ≡ [] → text ≡ name)
      × (name ≡ [] → text ≡ parent)
      × ((front : List ℕ) → parent ≡ front ++ (47 ∷ []) → text ≡ parent ++ name)
      × ((front : List ℕ) (c : ℕ)
          → parent ≡ front ++ (c ∷ [])
          → c ≢ 47
          → 0 < length name
          → text ≡ parent ++ (47 ∷ name))
join_exact alloc dest parent name max_len gives hp hn hm = (
  joined parent name,
  join-joined alloc dest parent name max_len gives hp hn hm,
  (λ e. rw e (nil_joined name)),
  (λ e. rw e (joined_nil parent)),
  (λ front e. rw e (joined_slash front name)),
  λ front c e ne h. rw e (joined_other front name c ne h),
)

joined_assoc_pos :
    (a b c : List ℕ) → 0 < length b → 0 < length c → joined (joined a b) c ≡ joined a (joined b c)
unfolding joined
joined_assoc_pos a b c hb hc =
    let s : List ℕ = separator (separator_len a b) in
    let t : List ℕ = separator (separator_len b c) in
    let front : separator_len (a ++ (s ++ b)) c ≡ separator_len b c =
      separator_len_front a (s ++ b) c (omega (arith, length-append s b))
      ∙ separator_len_front s b c hb in
    let back : separator_len a b ≡ separator_len a (b ++ (t ++ c)) =
      separator_len_back a b (b ++ (t ++ c)) hb (omega (arith, length-append b (t ++ c))) in
    rw (front, ← back) (simp append_assoc)

joined_assoc : (a b c : List ℕ) → joined (joined a b) c ≡ joined a (joined b c)
joined_assoc a [] c = rw (joined_nil a, nil_joined c)
joined_assoc a (y ∷ b) [] = rw (joined_nil (joined a (y ∷ b)), joined_nil (y ∷ b))
joined_assoc a (y ∷ b) (z ∷ c) = joined_assoc_pos a (y ∷ b) (z ∷ c) (omega arith) (omega arith)

-- What a `join` that succeeded has written.
join_ok :
    (alloc : ℕ → Bool) (dest p : AfpcPath) (a b : List ℕ) (max_len : ℕ)
    → ((n : ℕ) → alloc n ≡ true)
    → length (joined a b) < size_max
    → max_len ≤ size_max
    → join alloc dest (some a) (some b) max_len ≡ (ok tt, p)
    → p.bytes ≡ some (joined a b)
join_ok alloc dest p a b max_len gives h hm j = ground (
  arith,
  length-joined a b,
  j,
  join-joined alloc dest a b max_len gives (omega (arith, length-joined a b))
      (omega (arith, length-joined a b)) hm,
)

-- With memory to be had, a bound of at most SIZE_MAX and joined texts shorter than it: where one `join` gave `a` and `b` joined and another `b` and `c`, joining the first with `c` and
-- joining `a` with the second have the same outcome, an error included.
pub join_assoc :
    (alloc : ℕ → Bool) (dest p q : AfpcPath) (a b c : List ℕ) (max_len : ℕ)
    → ((n : ℕ) → alloc n ≡ true)
    → length (joined a b) < size_max
    → length (joined b c) < size_max
    → max_len ≤ size_max
    → join alloc dest (some a) (some b) max_len ≡ (ok tt, p)
    → join alloc dest (some b) (some c) max_len ≡ (ok tt, q)
    → join alloc dest p.bytes (some c) max_len ≡ join alloc dest (some a) q.bytes max_len
join_assoc alloc dest p q a b c max_len gives hab hbc hm jab jbc = rw (
  join_ok alloc dest p a b max_len gives hab hm jab,
  join_ok alloc dest q b c max_len gives hbc hm jbc,
  join-joined alloc dest (joined a b) c max_len gives hab (omega (arith, length-joined b c)) hm,
  join-joined alloc dest a (joined b c) max_len gives (omega (arith, length-joined a b)) hbc hm,
  joined_assoc a b c,
)
