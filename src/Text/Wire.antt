-- ===== src/Text/Wire.antt =====
-- A path name between its header and the bytes behind it.
use mathlib.Core.List.{append_assoc}
use netatalk_client.Base.{
  if◌then◌else◌, ◌==◌, sym, ℕ, suc, ◌+◌, ◌≤◌, ◌≡◌, refl, ap, ◌∙◌, arith, min, some, List, [], ◌∷◌,
  ◌++◌, map, length, length-append, length-take, take, drop, write_at, to_be16, be16_at,
  take-append_at, drop-append_at,
}
use netatalk_client.Text.{
  long_name, utf8_name, path_bytes, copy_path, to_afp, translate_at, unixpath_to_afppath,
}

length-map_afp : (s : List ℕ) → length (map to_afp s) ≡ length s
length-map_afp [] = refl
length-map_afp (c ∷ s) = ap suc (length-map_afp s)

drop-between :
    (n : ℕ) (header name back : List ℕ)
    → n ≡ length header + length name
    → drop n (header ++ (name ++ back)) ≡ back
drop-between n header name back h =
    ap (drop n) (sym (append_assoc header name back))
    ∙ drop-append_at n (header ++ name) back (omega (arith, h, length-append header name))

-- The name that stands behind a header is translated, and nothing else.
translate_at-between :
    (header name back : List ℕ) (at n : ℕ)
    → at ≡ length header
    → n ≡ length name
    → translate_at at n (header ++ (name ++ back)) ≡ header ++ (map to_afp name ++ back)
unfolding translate_at
translate_at-between header name back at n ha hn =
    rw
      (
        drop-append_at at header (name ++ back) ha,
        take-append_at n name back hn,
        take-append_at at header (name ++ back) ha,
        drop-between (at + length (map to_afp name)) header name back
            (omega (arith, ha, length-map_afp name)),
      )
      refl

translate_at-write_at :
    (header name dest : List ℕ) (at n : ℕ)
    → at ≡ length header
    → n ≡ length name
    → translate_at at n (write_at 0 (header ++ name) dest)
      ≡ header ++ (map to_afp name ++ drop (at + n) dest)
translate_at-write_at header name dest at n ha hn =
    ap (translate_at at n) (append_assoc header name _)
    ∙ (translate_at-between header name _ at n ha hn
        ∙ ap (λ k. header ++ (map to_afp name ++ drop k dest))
            (omega (arith, ha, hn, length-append header name)))

abbrev pub utf8_header : ℕ → List ℕ
utf8_header n = utf8_name ∷ 8 ∷ 0 ∷ 1 ∷ 3 ∷ to_be16 n

length_read :
    (n : ℕ) (name dest : List ℕ)
    → n ≤ 65535
    → be16_at (write_at 0 (utf8_header n ++ name) dest) 5 ≡ n
unfolding be16_at to_be16
length_read n name dest h = omega arith

utf8_path :
    (dest pathname : List ℕ) (n : ℕ)
    → n ≡ min (length pathname) 65535
    → unixpath_to_afppath utf8_name (write_at 0 (utf8_header n ++ take n pathname) dest)
      ≡ utf8_header n ++ (map to_afp (take n pathname) ++ drop (7 + n) dest)
unfolding unixpath_to_afppath to_be16
utf8_path dest pathname n h = rw (length_read n (take n pathname) dest (omega (arith, h))) (
    translate_at-write_at (utf8_header n) (take n pathname) dest 7 n refl
      (omega (arith, h, length-take n pathname)))

long_path :
    (dest pathname : List ℕ) (n : ℕ)
    → n ≡ min (length pathname) 255
    → unixpath_to_afppath long_name (write_at 0 (long_name ∷ n ∷ take n pathname) dest)
      ≡ long_name ∷ n ∷ (map to_afp (take n pathname) ++ drop (2 + n) dest)
unfolding unixpath_to_afppath
long_path dest pathname n h =
    translate_at-write_at (long_name ∷ n ∷ []) (take n pathname) dest 2 n refl
      (omega (arith, h, length-take n pathname))

-- What the bytes of a name are on the wire: a slash is NUL, a colon a slash, and any other byte itself.
abbrev pub wire : List ℕ → List ℕ
wire [] = []
wire (c ∷ s) = (if c == 47 then 0 else if c == 58 then 47 else c) ∷ wire s

map-wire : (s : List ℕ) → map to_afp s ≡ wire s
unfolding to_afp
map-wire [] = refl
map-wire (c ∷ s) = ap (λ t. to_afp c ∷ t) (map-wire s)

-- `copy_path` and `unixpath_to_afppath`, one after the other, in either encoding: the buffer holds the
-- encoding, for UTF-8 the hint, the length, at most 65535 or 255 bytes of the name with every slash
-- made NUL and every colon made a slash, and behind them what it held before.
pub unixpath_to_afppath-copy_path :
    (dest pathname : List ℕ)
    → let n : ℕ = min (length pathname) 65535 in
      let m : ℕ = min (length pathname) 255 in
      (unixpath_to_afppath utf8_name (copy_path utf8_name dest (some pathname))
        ≡ utf8_header n ++ (wire (take n pathname) ++ drop (7 + n) dest))
      × (unixpath_to_afppath long_name (copy_path long_name dest (some pathname))
          ≡ long_name ∷ m ∷ (wire (take m pathname) ++ drop (2 + m) dest))
unfolding copy_path path_bytes
unixpath_to_afppath-copy_path dest pathname =
    rw
      (
        sym (map-wire (take (min (length pathname) 65535) pathname)),
        sym (map-wire (take (min (length pathname) 255) pathname)),
      )
      (utf8_path dest pathname _ refl, long_path dest pathname _ refl)
