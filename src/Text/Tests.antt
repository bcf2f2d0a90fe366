-- ===== src/Text/Tests.antt =====
-- Runs of the text functions, and the theorems about them at concrete inputs.
use netatalk_client.Base.{ℕ, ◌<◌, ◌≡◌, refl, arith, some, List, [], ◌∷◌, ◌++◌, codes, length, All}
use netatalk_client.Text.{
  sanitize_text, sanitize_loop, escaped, hex, unixpath_to_afppath, copy_path, path_bytes, utf8_name,
  long_name, to_afp, translate_at,
}
use netatalk_client.Text.Safe.{IsPrintable, escape_all, sanitize_text-IsPrintable}
use netatalk_client.Text.Wire.{wire, utf8_header, unixpath_to_afppath-copy_path}

bell_escaped : sanitize_text (some (97 ∷ 7 ∷ 10 ∷ [])) 20 ≡ some (codes "a\\x07\\n")
unfolding sanitize_text sanitize_loop escaped hex
bell_escaped = refl

cut_at_escape : sanitize_text (some (97 ∷ 7 ∷ [])) 5 ≡ some (codes "a")
unfolding sanitize_text sanitize_loop escaped hex
cut_at_escape = refl

long_encoded :
    unixpath_to_afppath long_name
      (copy_path long_name (1 ∷ 1 ∷ 1 ∷ 1 ∷ 1 ∷ 1 ∷ []) (some (codes "a/:")))
    ≡ 2 ∷ 3 ∷ 97 ∷ 0 ∷ 47 ∷ 1 ∷ []
unfolding unixpath_to_afppath copy_path path_bytes translate_at to_afp
long_encoded = refl

abbrev text : List ℕ
text = 97 ∷ 10 ∷ []

sanitize_text-IsPrintable_example :
    (out : List ℕ) × (sanitize_text (some text) 9 ≡ some out)
    × All IsPrintable out
    × (length out < 9)
    × (length (escape_all text) < 9 → out ≡ escape_all text)
sanitize_text-IsPrintable_example = sanitize_text-IsPrintable text 9 (omega arith) (omega arith)

unixpath_to_afppath-copy_path_example :
    (unixpath_to_afppath utf8_name (copy_path utf8_name (1 ∷ 1 ∷ []) (some (97 ∷ b'/' ∷ [])))
      ≡ utf8_header 2 ++ (wire (97 ∷ b'/' ∷ []) ++ []))
    × (unixpath_to_afppath long_name (copy_path long_name (1 ∷ 1 ∷ []) (some (97 ∷ b'/' ∷ [])))
        ≡ long_name ∷ 2 ∷ (wire (97 ∷ b'/' ∷ []) ++ []))
unixpath_to_afppath-copy_path_example = unixpath_to_afppath-copy_path (1 ∷ 1 ∷ []) (97 ∷ b'/' ∷ [])
