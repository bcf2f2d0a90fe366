-- ===== src/Metadata/Sidecar/Tests.antt =====
-- Runs of the operations on AppleDouble files, and their theorems at concrete files.
use netatalk_client.Base.{
  ℕ, ◌≡◌, refl, true, false, Option, none, some, List, [], ◌∷◌, arith, replicate, pos, inl,
}
use netatalk_client.Base.Errno.{einval, err, ok}
use netatalk_client.Metadata.Sidecar.Info.{padded}
use netatalk_client.Metadata.Sidecar.Ops.{
  ad_finder_get, ad_finder_set, ad_resource_size, ad_resource_read, ad_resource_write,
}
use netatalk_client.Metadata.Sidecar.Opening.{all_well, stored, overwritten}
use netatalk_client.Metadata.Sidecar.Runs.{
  AdCall, set_finder, write_fork, ad_run, AreCalls, Reads, run_changed, ad_run-Reads,
}
use netatalk_client.Metadata.Sidecar.Loss.{empty_write_past}

abbrev sevens : List ℕ
sevens = replicate 32 7

-- A hole of two bytes, and a Finder info that is set behind it.
abbrev three_calls : List AdCall
three_calls = write_fork (1 ∷ 2 ∷ []) 0 ∷ write_fork (9 ∷ []) 4 ∷ set_finder sevens ∷ []

three_calls_are : AreCalls three_calls none
unfolding overwritten
three_calls_are = ((omega arith, inl (omega arith)), ((omega arith, inl (omega arith)), (refl, tt)))

fork_with_hole :
    ad_resource_read all_well 10 (pos 1) (ad_run true three_calls none).1 ≡ ok (2 ∷ 0 ∷ 0 ∷ 9 ∷ [])
unfolding overwritten padded
fork_with_hole = (ad_run-Reads true three_calls three_calls_are).1.fork 10 1

ad_run-Reads_example :
    ((ad_run true three_calls none).0 ≡ none)
    × Reads (ad_run true three_calls none).1 (run_changed three_calls none)
ad_run-Reads_example = ad_run-Reads true three_calls three_calls_are

empty_write_past_example :
    (file : Option (List ℕ)) × (ad_resource_write all_well false []
        (pos 5)
        (stored false (some (sevens, 1 ∷ [])))
      ≡ (none, file))
    × (ad_finder_get all_well file ≡ err einval)
    × (ad_resource_size all_well file ≡ err einval)
    × (ad_finder_set all_well false sevens file ≡ (none, stored false (some (sevens, []))))
empty_write_past_example =
    empty_write_past false sevens (1 ∷ []) 5 (omega arith) (omega arith) (omega arith) sevens refl
