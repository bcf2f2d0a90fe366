-- ===== src/Text.antt =====
-- lib/utils.c: paths as an AFP request carries them, text made safe for a log, and log levels.
-- A C string is the list of its bytes in front of the NUL. A buffer that is written is the list of
-- its bytes; what stands behind the written part stays.
pub mod Wire
pub mod Safe
pub mod Levels
mod Tests
use netatalk_client.Base.{
  ℕ, zero, suc, ◌+◌, ◌-◌, ◌*◌, ◌/◌, ◌%◌, ◌^◌, min, Bool, true, false, Option, none, some, List, [],
  ◌∷◌, ◌++◌, map, ◌==◌, ltb, leb, if◌then◌else◌, ◌||◌, length, take, drop, get_or, write_at,
  to_be16, be16_at, codes, str_case_eq,
}

-- `kFPLongName` and `kFPUTF8Name`
abbrev pub long_name : ℕ
long_name = 2

abbrev pub utf8_name : ℕ
utf8_name = 3

unfoldable pub sizeof_path_header : ℕ → ℕ
sizeof_path_header encoding =
    if encoding == utf8_name then 7 else if encoding == long_name then 2 else 0

-- The header and the name, of which at most 65535 or 255 bytes are taken.
unfoldable pub path_bytes : ℕ → List ℕ → List ℕ
path_bytes encoding pathname =
    if encoding == utf8_name
    then (let len = min (length pathname) 65535 in
        encoding ∷ 8 ∷ 0 ∷ 1 ∷ 3 ∷ (to_be16 len ++ take len pathname))
    else if encoding == long_name
    then (let len = min (length pathname) 255 in encoding ∷ len ∷ take len pathname)
    else []

-- `copy_path`, with the length of the path name for `len`.
unfoldable pub copy_path : ℕ → List ℕ → Option (List ℕ) → List ℕ
copy_path encoding dest none = write_at 0 (path_bytes encoding []) dest
copy_path encoding dest (some pathname) = write_at 0 (path_bytes encoding pathname) dest

-- A slash ends a name and becomes NUL; a colon stands for a slash within a name.
unfoldable pub to_afp : ℕ → ℕ
to_afp c = if c == b'/' then 0 else if c == b':' then b'/' else c

-- `len` bytes from `at` on are translated.
unfoldable pub translate_at : ℕ → ℕ → List ℕ → List ℕ
translate_at at len buf = write_at at (map to_afp (take len (drop at buf))) buf

unfoldable pub unixpath_to_afppath : ℕ → List ℕ → List ℕ
unixpath_to_afppath encoding buf =
    if encoding == utf8_name
    then translate_at 7 (be16_at buf 5) buf
    else if encoding == long_name
    then translate_at 2 (get_or buf 1 0) buf
    else buf

-- `hex[n]`
unfoldable pub hex : ℕ → ℕ
hex n = if ltb n 10 then b'0' + n else b'a' + (n - 10)

-- What stands for a byte in a log.
unfoldable pub escaped : ℕ → List ℕ
escaped ch =
    if ch == 13
    then b'\\' ∷ b'r' ∷ []
    else if ch == 10
    then b'\\' ∷ b'n' ∷ []
    else if ch == 9
    then b'\\' ∷ b't' ∷ []
    else if ltb ch 32 || ch == 127
    then b'\\' ∷ b'x' ∷ hex (ch / 16) ∷ hex (ch % 16) ∷ []
    else ch ∷ []

-- The loop of `sanitize_text`. `pos` bytes are written; an escape that leaves no room for the NUL
-- ends it.
unfoldable pub sanitize_loop : ℕ → ℕ → List ℕ → List ℕ
sanitize_loop size pos [] = []
sanitize_loop size pos (ch ∷ text) =
    let n = length (escaped ch) in
    let rest = sanitize_loop size (pos + n) text in
    if ltb (pos + 1) size then (if leb size (pos + n) then [] else escaped ch ++ rest) else []

-- The C string that `sanitize_text` leaves in `sanitized`; `none` is no string, for a size of 0.
unfoldable pub sanitize_text : Option (List ℕ) → ℕ → Option (List ℕ)
sanitize_text text zero = none
sanitize_text none (suc size) = some []
sanitize_text (some text) (suc size) = some (sanitize_loop (suc size) 0 text)

-- The levels of syslog.
abbrev pub log_err : ℕ
log_err = 3

abbrev pub log_warning : ℕ
log_warning = 4

abbrev pub log_notice : ℕ
log_notice = 5

abbrev pub log_info : ℕ
log_info = 6

abbrev pub log_debug : ℕ
log_debug = 7

unfoldable pub log_level_to_string : ℕ → List ℕ
log_level_to_string level =
    if level == log_debug
    then codes "debug"
    else if level == log_info
    then codes "info"
    else if level == log_notice
    then codes "notice"
    else if level == log_warning
    then codes "warning"
    else if level == log_err
    then codes "err"
    else codes "notice"

-- `none` is -1.
unfoldable pub string_to_log_level : List ℕ → Option ℕ
string_to_log_level str =
    if str_case_eq str (codes "debug") || str_case_eq str (codes "LOG_DEBUG")
    then some log_debug
    else if str_case_eq str (codes "info") || str_case_eq str (codes "LOG_INFO")
    then some log_info
    else if str_case_eq str (codes "notice") || str_case_eq str (codes "LOG_NOTICE")
    then some log_notice
    else if str_case_eq str (codes "warning")
        || (str_case_eq str (codes "warn") || str_case_eq str (codes "LOG_WARNING"))
    then some log_warning
    else if str_case_eq str (codes "err")
        || (str_case_eq str (codes "error") || str_case_eq str (codes "LOG_ERR"))
    then some log_err
    else none

unfoldable pub loglevel_to_rank : ℕ → ℕ
loglevel_to_rank loglevel =
    if loglevel == log_debug
    then 0
    else if loglevel == log_info
    then 1
    else if loglevel == log_notice
    then 2
    else if loglevel == log_warning
    then 3
    else 4
