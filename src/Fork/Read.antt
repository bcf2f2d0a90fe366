-- ===== src/Fork/Read.antt =====
-- `ll_read` (lib/lowlevel.c) against the content of the fork.
use netatalk_client.Base.{
  ◌⊎◌, ℕ, ◌+◌, ◌≤◌, ◌≡◌, Bool, true, false, none, List, [], length, take, drop,
}
use netatalk_client.Fork.{
  AfpResult, ForkServer, ReadEnd, finished, refused, spent, ReadOutcome, bytes_read, read_failed,
  read_spent, read_error, is_eof,
}

module _ {S : Type 0} (server : ForkServer S) (content : S → List ℕ) where
  -- A read of the server's at the offset brought nothing, without the end of the file and without a
  -- result that `ll_read` takes for an error.
  abbrev pub Silent : ℕ → Type 0
  Silent at =
      (n : ℕ) × (s : S) × (r : AfpResult) × ((server.read at n s).0 ≡ (r, []))
      × (read_error r ≡ none)
      × (is_eof r ≡ false)

  -- `bytes` of the `n` bytes `want` that were asked for up to the offset `upto`, of a fork of `size`
  -- bytes. `true` if the end of the file was met.
  abbrev pub IsEnd : Bool → ℕ → ℕ → ℕ → List ℕ → List ℕ → Type 0
  IsEnd true size upto n want bytes = (bytes ≡ want) × (size ≤ upto)
  IsEnd false size upto n want bytes =
      (bytes ≡ take (length bytes) want)
      × ((length bytes ≡ n) ⊎ ((at : ℕ) × (at + n ≡ upto + length bytes) × Silent at))

  -- The loop ends with `want` where nothing fails, and never for want of fuel.
  abbrev IsLoopRead : List ℕ → List ℕ → ℕ → ℕ → ReadEnd S → Type 0
  IsLoopRead c want upto n (finished bytes eof t) =
      IsEnd eof (length c) upto n want bytes × (content t ≡ c)
  IsLoopRead c want upto n (refused e t) = content t ≡ c
  IsLoopRead c want upto n (spent t) = ⊥

  -- What a read of `n` bytes at `at` is, of a fork with the content `c`.
  abbrev pub IsRead : List ℕ → ℕ → ℕ → ReadOutcome S → Type 0
  IsRead c at n (bytes_read bytes eof t) =
      IsEnd eof (length c) (at + n) n (take n (drop at c)) bytes × (content t ≡ c)
  IsRead c at n (read_failed e t) = content t ≡ c
  IsRead c at n (read_spent t) = ⊥
