-- ===== src/Text/Safe.antt =====
-- What `sanitize_text` writes.
use netatalk_client.Base.{
  ℕ, zero, suc, ◌+◌, ◌≤◌, ◌<◌, ◌≡◌, ◌≢◌, refl, arith, some, List, [], ◌∷◌, ◌++◌, length,
  length-append, All, All-append,
}
use netatalk_client.Text.{hex, escaped, sanitize_loop, sanitize_text}

-- No control character.
abbrev pub IsPrintable : ℕ → Type 0
IsPrintable c = (32 ≤ c) × (c ≢ 127)

-- All of a text, without a limit.
abbrev pub escape_all : List ℕ → List ℕ
escape_all [] = []
escape_all (ch ∷ text) = escaped ch ++ escape_all text

escaped-IsPrintable : (ch : ℕ) → ch < 256 → All IsPrintable (escaped ch)
unfolding escaped hex
escaped-IsPrintable ch h = ground arith

length-escaped : (ch : ℕ) → (1 ≤ length (escaped ch)) × (length (escaped ch) ≤ 4)
unfolding escaped
length-escaped ch = ground arith

sanitize_loop-IsPrintable :
    (size pos : ℕ) (text : List ℕ)
    → All (λ c. c < 256) text
    → All IsPrintable (sanitize_loop size pos text)
unfolding sanitize_loop
sanitize_loop-IsPrintable size pos [] h = tt
sanitize_loop-IsPrintable size pos (ch ∷ text) (hc, h) = ground (
  arith,
  All-append IsPrintable (escaped ch) (sanitize_loop size (pos + length (escaped ch)) text)
      (escaped-IsPrintable ch hc)
      (sanitize_loop-IsPrintable size (pos + length (escaped ch)) text h),
)

sanitize_loop-fits :
    (size pos : ℕ) (text : List ℕ) → pos < size → pos + length (sanitize_loop size pos text) < size
unfolding sanitize_loop
sanitize_loop-fits size pos [] h = omega arith
sanitize_loop-fits size pos (ch ∷ text) h = ground (
  arith,
  h,
  length-append (escaped ch) (sanitize_loop size (pos + length (escaped ch)) text),
  sanitize_loop-fits size (pos + length (escaped ch)) text,
)

sanitize_loop-whole :
    (size pos : ℕ) (text : List ℕ)
    → pos + length (escape_all text) < size
    → sanitize_loop size pos text ≡ escape_all text
unfolding sanitize_loop
sanitize_loop-whole size pos [] h = refl
sanitize_loop-whole size pos (ch ∷ text) h = ground (
  arith,
  h,
  length-escaped ch,
  length-append (escaped ch) (escape_all text),
  sanitize_loop-whole size (pos + length (escaped ch)) text,
)

-- A text of bytes and a buffer of one byte or more: what `sanitize_text` leaves has no control
-- character, fits into the buffer with its NUL, and is the whole text, with every control character
-- escaped, if that fits.
pub sanitize_text-IsPrintable :
    (text : List ℕ) (size : ℕ)
    → All (λ c. c < 256) text
    → 0 < size
    → (out : List ℕ) × (sanitize_text (some text) size ≡ some out)
      × All IsPrintable out
      × (length out < size)
      × (length (escape_all text) < size → out ≡ escape_all text)
unfolding sanitize_text
sanitize_text-IsPrintable text zero h room = absurd (omega (arith, room))
sanitize_text-IsPrintable text (suc n) h room = (
  sanitize_loop (suc n) 0 text,
  refl,
  sanitize_loop-IsPrintable (suc n) 0 text h,
  omega (arith, sanitize_loop-fits (suc n) 0 text (omega arith)),
  λ fits. sanitize_loop-whole (suc n) 0 text (omega (arith, fits)),
)
