-- ===== src/Dsi/Session/Options.antt =====
-- The option loop reads back a list of options, and the quantum is never 0.
use mathlib.Core.List.{append_assoc}
use netatalk_client.Base.{
  All, ◌≢◌, ◌⊎◌, map, to_be32, be32_at, IsU32, length-to_be32, ap, ◌∙◌, true, ◌==◌, if◌then◌else◌,
  sym, drop-append_at, take-append_at, le→ltb_false, ℕ, zero, suc, ◌+◌, ◌≤◌, ◌<◌, ◌≡◌, refl, List,
  [], ◌∷◌, ◌++◌, length, length-append, take, drop, arith, take-append, drop-append,
}
use netatalk_client.Server.{Server}
use netatalk_client.Dsi.Session.{
  initial_terms, set_terms, SessionTerms, apply_option, options_loop, opensession_reply,
}

-- The type and the bytes of an option.
pub record RawOption : Type 0 where
  pub kind : ℕ
  pub content : List ℕ

abbrev pub encode_options : List RawOption → List ℕ
encode_options [] = []
encode_options (p ∷ ps) = p.kind ∷ length p.content ∷ (p.content ++ encode_options ps)

abbrev pub apply_all : List RawOption → SessionTerms → SessionTerms
apply_all [] o = o
apply_all (p ∷ ps) o = apply_all ps (apply_option p.kind p.content o)

-- A rest that the loop does not read: too short for an option, or an option cut off.
abbrev pub CutOff : List ℕ → Type 0
CutOff (kind ∷ n ∷ rest) = length rest < n
CutOff rest = Unit {0}

options_loop-cut :
    (fuel : ℕ) (rest : List ℕ) (o : SessionTerms) → CutOff rest → options_loop fuel rest o ≡ o
unfolding options_loop
options_loop-cut zero rest o h = refl
options_loop-cut (suc fuel) [] o h = refl
options_loop-cut (suc fuel) (k ∷ []) o h = refl
options_loop-cut (suc fuel) (k ∷ n ∷ rest) o h = ground arith

options_loop-encoded :
    (ps : List RawOption) (rest : List ℕ) (fuel : ℕ) (o : SessionTerms)
    → CutOff rest
    → length ps ≤ fuel
    → options_loop fuel (encode_options ps ++ rest) o ≡ apply_all ps o
unfolding options_loop
options_loop-encoded [] rest fuel o cut h = options_loop-cut fuel rest o cut
options_loop-encoded (p ∷ ps) rest zero o cut h = absurd (omega arith)
options_loop-encoded (p ∷ ps) rest (suc fuel) o cut h =
    let behind : List ℕ = encode_options ps ++ rest in
    rw
      (
        append_assoc p.content (encode_options ps) rest,
        le→ltb_false (length (p.content ++ behind)) (length p.content)
            (omega (arith, length-append p.content behind)),
        drop-append p.content behind,
        take-append p.content behind,
      )
      (options_loop-encoded ps rest fuel (apply_option p.kind p.content o) cut (omega arith))

length-encode_options : (ps : List RawOption) → length ps ≤ length (encode_options ps)
length-encode_options [] = omega arith
length-encode_options (p ∷ ps) =
    omega (arith, length-encode_options ps, length-append p.content (encode_options ps))

-- The bytes behind the header that `data_read` counts.
packet_of :
    (header body stale buffer : List ℕ) (n : ℕ)
    → length header ≡ 16
    → buffer ≡ header ++ (body ++ stale)
    → n ≡ 16 + length body
    → drop 16 (take n buffer) ≡ body
packet_of header body stale buffer n hl eb en =
    rw (eb, ← append_assoc header body stale)
      (rw (take-append_at n (header ++ body) stale (omega (arith, length-append header body)))
        (drop-append_at 16 header body (sym hl)))

-- An option as the server means it: a quantum, the size of its replay cache, or something else.
pub data SessionOption : Type 0 where
  quantum : ℕ → SessionOption
  replay_cache : ℕ → SessionOption
  other : ℕ → List ℕ → SessionOption

abbrev pub raw : SessionOption → RawOption
raw (quantum n) = record { kind = 0; content = to_be32 n }
raw (replay_cache n) = record { kind = 2; content = to_be32 n }
raw (other kind content) = record { kind = kind; content = content }

-- The numbers have 32 bits; anything else has another type, or another length than the four bytes of a
-- number.
abbrev pub IsOption : SessionOption → Type 0
IsOption (quantum n) = IsU32 n
IsOption (replay_cache n) = IsU32 n
IsOption (other kind content) = ((kind ≢ 0) × (kind ≢ 2)) ⊎ (length content ≢ 4)

-- What the options mean, one after the other.
abbrev pub meant : List SessionOption → SessionTerms → SessionTerms
meant [] o = o
meant (quantum n ∷ ps) o = meant ps (record o { tx_quantum = n })
meant (replay_cache n ∷ ps) o =
    meant ps (record o { supports_replay_cache = true; replay_cache_size = n })
meant (other kind content ∷ ps) o = meant ps o

number_read : (n : ℕ) → IsU32 n → be32_at (to_be32 n) 0 ≡ n
unfolding be32_at to_be32
number_read n h = omega arith

apply_all-meant :
    (ps : List SessionOption) (o : SessionTerms)
    → All IsOption ps
    → apply_all (map raw ps) o ≡ meant ps o
unfolding apply_option
apply_all-meant [] o h = refl
apply_all-meant (quantum n ∷ ps) o (hn, h) =
    ap (apply_all (map raw ps)) read ∙ apply_all-meant ps (record o { tx_quantum = n }) h
  where
    read : apply_option 0 (to_be32 n) o ≡ record o { tx_quantum = n }
    read = rw (length-to_be32 n, number_read n hn, apply_option) refl
apply_all-meant (replay_cache n ∷ ps) o (hn, h) =
    ap (apply_all (map raw ps)) read
    ∙ apply_all-meant ps (record o { supports_replay_cache = true; replay_cache_size = n }) h
  where
    read :
        apply_option 2 (to_be32 n) o
        ≡ record o { supports_replay_cache = true; replay_cache_size = n }
    read = rw (length-to_be32 n, number_read n hn, apply_option) refl
apply_all-meant (other kind content ∷ ps) o (hk, h) =
    ap (apply_all (map raw ps)) unchanged ∙ apply_all-meant ps o h
  where
    unchanged : apply_option kind content o ≡ o
    unchanged = ground (arith, hk)

-- What the server's fields are for the terms: 65536 stands for a quantum of 0.
abbrev pub agreed : SessionTerms → Server → Server
agreed o s = record s {
  tx_quantum = if o.tx_quantum == 0 then 65536 else o.tx_quantum;
  ids = record s.ids {
    supports_replay_cache = o.supports_replay_cache;
    replay_cache_size = o.replay_cache_size;
  };
}

-- On a packet that holds a header, whole options and a rest that is no whole option, the reply handler
-- sets what the options mean, the last of each sort counting: the quantum of an option of type 0 with
-- four bytes, and 65536 where there is none or it is 0; and with an option of type 2 with four bytes,
-- that the server has a replay cache, and its size. Options of other types or lengths have no effect,
-- and nothing else of the server changes.
pub opensession_reply-options :
    (s : Server) (header : List ℕ) (ps : List SessionOption) (rest stale : List ℕ)
    → length header ≡ 16
    → All IsOption ps
    → CutOff rest
    → s.incoming.buffer ≡ header ++ ((encode_options (map raw ps) ++ rest) ++ stale)
    → s.incoming.data_read ≡ 16 + length (encode_options (map raw ps) ++ rest)
    → opensession_reply s
      ≡ agreed
          (meant ps (record {
            tx_quantum = 0;
            supports_replay_cache = s.ids.supports_replay_cache;
            replay_cache_size = s.ids.replay_cache_size;
          }))
          s
unfolding initial_terms
opensession_reply-options s header ps rest stale hl h cut eb en = exact
  where
    body : List ℕ
    body = encode_options (map raw ps) ++ rest

    loop :
        options_loop (length body) body (initial_terms s) ≡ apply_all (map raw ps) (initial_terms s)
    loop = options_loop-encoded (map raw ps) rest (length body) (initial_terms s) cut (
        omega (
          arith,
          length-encode_options (map raw ps),
          length-append (encode_options (map raw ps)) rest,
        ))

    exact : opensession_reply s ≡ agreed (meant ps (initial_terms s)) s
    exact =
        unfold opensession_reply set_terms in
        rw
          (
            packet_of header body stale s.incoming.buffer s.incoming.data_read hl eb en,
            loop,
            apply_all-meant ps (initial_terms s) h,
          )
          refl
