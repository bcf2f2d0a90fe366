-- ===== src/Forklist.antt =====
-- lib/forklist.c: the open forks of a volume, newest first, and the flush of a file's dirty forks.
-- An open file's `address` stands for its pointer. The lock is not held while a flush waits for the
-- server; here nothing else changes the list in that time.
pub mod Flush
mod Tests
use netatalk_client.Base.{
  ℕ, ◌+◌, ◌*◌, ℤ, is_zero, Bool, true, false, List, [], ◌∷◌, ◌==◌, if◌then◌else◌, not, ◌&&◌, str_eq,
}

-- What the functions use of `struct afp_file_info`.
pub record OpenFork : Type 0 where
  pub address : ℕ
  pub forkid : ℕ
  pub did : ℕ
  pub resource : ℕ
  pub basename : List ℕ
  pub writable : Bool
  pub dirty : Bool

unfoldable pub add_opened_fork : OpenFork → List OpenFork → List OpenFork
add_opened_fork fp forks = fp ∷ forks

unfoldable pub remove_opened_fork : ℕ → List OpenFork → List OpenFork
remove_opened_fork a [] = []
remove_opened_fork a (p ∷ ps) =
    let rest = remove_opened_fork a ps in if p.address == a then ps else p ∷ rest

-- Another dirty fork of the same file.
unfoldable pub needs_flush : OpenFork → OpenFork → Bool
needs_flush fp p =
    not (p.address == fp.address)
    && (p.writable
        && (p.dirty
            && (p.resource == fp.resource && (p.did == fp.did && str_eq p.basename fp.basename))))

unfoldable pub set_dirty : Bool → OpenFork → OpenFork
set_dirty b p = record p { dirty = b }

-- The forks that are recorded, and the list afterwards. `realloc` says whether memory for so many
-- records can be had; a fork that finds none stays dirty.
unfoldable pub collect :
    (ℕ → Bool) → OpenFork → List OpenFork → ℕ → ℕ → List OpenFork × List OpenFork
collect realloc fp [] count capacity = ([], [])
collect realloc fp (p ∷ ps) count capacity =
    let bigger = if capacity == 0 then 4 else capacity * 2 in
    let passed = collect realloc fp ps count capacity in
    let taken = collect realloc fp ps (count + 1) capacity in
    let grown = collect realloc fp ps (count + 1) bigger in
    if needs_flush fp p
    then (if count == capacity
        then (if realloc bigger
            then (p ∷ grown.0, set_dirty false p ∷ grown.1)
            else (passed.0, p ∷ passed.1))
        else (p ∷ taken.0, set_dirty false p ∷ taken.1))
    else (passed.0, p ∷ passed.1)

unfoldable pub is_record : OpenFork → OpenFork → Bool
is_record r p =
    p.forkid == r.forkid
    && (p.resource == r.resource && (p.did == r.did && str_eq p.basename r.basename))

-- The first fork of a record is dirty again.
unfoldable pub mark_dirty : OpenFork → List OpenFork → List OpenFork
mark_dirty r [] = []
mark_dirty r (p ∷ ps) =
    let rest = mark_dirty r ps in if is_record r p then set_dirty true p ∷ ps else p ∷ rest

-- `flushfork` is what `afp_flushfork` returns.
unfoldable pub flush_records : (ℕ → ℤ) → List OpenFork → List OpenFork → List OpenFork
flush_records flushfork [] forks = forks
flush_records flushfork (r ∷ rs) forks =
    flush_records flushfork rs (if is_zero (flushfork r.forkid) then forks else mark_dirty r forks)

unfoldable pub flush_dirty_forks_for_file :
    (ℕ → Bool) → (ℕ → ℤ) → OpenFork → List OpenFork → List OpenFork
flush_dirty_forks_for_file realloc flushfork fp forks =
    let (records, cleaned) = collect realloc fp forks 0 0 in flush_records flushfork records cleaned

-- The calls to the server.
pub data ForkCall : Type 0 where
  flush close : ℕ → ForkCall

unfoldable pub remove_fork_list : List OpenFork → List ForkCall
remove_fork_list [] = []
remove_fork_list (p ∷ ps) = flush p.forkid ∷ close p.forkid ∷ remove_fork_list ps
