-- ===== src/Forklist/Tests.antt =====
-- Runs of the fork list, and the flush at a concrete list.
use netatalk_client.Base.{
  str_eq, ℕ, ◌≡◌, refl, arith, ℤ, pos, negsuc, Bool, true, false, List, [], ◌∷◌, ◌==◌,
  if◌then◌else◌,
}
use netatalk_client.Forklist.{
  OpenFork, remove_fork_list, flush, close, flush_dirty_forks_for_file, collect, flush_records,
  mark_dirty, is_record, needs_flush, set_dirty,
}
use netatalk_client.Forklist.Flush.{AreSettled, DistinctIds, flush_dirty_forks_for_file-settled}

abbrev fork : ℕ → Bool → OpenFork
fork n dirty = record {
  address = n;
  forkid = n;
  did = 2;
  resource = 0;
  basename = 97 ∷ [];
  writable = true;
  dirty = dirty;
}

abbrev forks : List OpenFork
forks = fork 1 true ∷ fork 2 true ∷ fork 3 true ∷ fork 4 false ∷ []

-- The server refuses fork 3.
abbrev refuses_three : ℕ → ℤ
refuses_three id = if id == 3 then negsuc 4999 else pos 0

three_stays_dirty :
    flush_dirty_forks_for_file (λ n. true) refuses_three (fork 1 true) forks
    ≡ fork 1 true ∷ fork 2 false ∷ fork 3 true ∷ fork 4 false ∷ []
unfolding flush_dirty_forks_for_file collect flush_records mark_dirty is_record needs_flush
    set_dirty str_eq
three_stays_dirty = refl

closes_in_order :
    remove_fork_list (fork 1 true ∷ fork 2 true ∷ []) ≡ flush 1 ∷ close 1 ∷ flush 2 ∷ close 2 ∷ []
unfolding remove_fork_list
closes_in_order = refl

forks-DistinctIds : DistinctIds forks
forks-DistinctIds = ground arith

flush_dirty_forks_for_file-settled_example :
    AreSettled refuses_three
      (fork 1 true)
      forks
      (flush_dirty_forks_for_file (λ n. true) refuses_three (fork 1 true) forks)
flush_dirty_forks_for_file-settled_example =
    flush_dirty_forks_for_file-settled (λ n. true) refuses_three (fork 1 true) forks (λ n. refl)
      forks-DistinctIds
