-- ===== src/Metadata/Store/Runs.antt =====
-- Runs of the operations on a file's extended attributes (daemon/metadata.c), and `netatalk_list`.
use mathlib.Core.Path.{subst}
use netatalk_client.Base.{
  ℕ, suc, ◌+◌, ◌≤◌, ◌≡◌, refl, ap, sym, Bool, true, false, not, ◌&&◌, ◌||◌, Option, none, some,
  List, [], ◌∷◌, ◌++◌, length, arith, str_eq, str_eq→eq, All, Bool-cases, inl, inr, ◌⊎◌, IsU32,
}
use netatalk_client.Base.Errno.{ok}
use netatalk_client.Metadata.Name.{metadata_name_filtered}
use netatalk_client.Metadata.Items.{EaItem, Allocation, has_name, name_list}
use netatalk_client.Metadata.Items.RoundTrip.{IsItem, IsName}
use netatalk_client.Metadata.Store.{
  EaSystem, EaFiles, EaOutcome, netatalk_get, netatalk_set, netatalk_remove, netatalk_list,
  list_loop, append_name, is_listed, put_value, metadata_absent,
}
use netatalk_client.Metadata.Store.Ready.{IsReady, load_ea_items-IsLoaded}
use netatalk_client.Metadata.Store.Refines.{
  Attributes, Stores, Removes, attribute, value_there, netatalk_get_refines, netatalk_set_refines,
  netatalk_remove_refines,
}

-- An operation that changes the attributes, and what it does to a map.
pub data EaChange : Type 0 where
  set_value : List ℕ → List ℕ → EaChange
  remove_value : List ℕ → EaChange

abbrev pub changed : List EaChange → Attributes → Attributes
changed [] m = m
changed (set_value name value ∷ changes) m = changed changes (put_value name (some value) m)
changed (remove_value name ∷ changes) m = changed changes (put_value name none m)

-- The same operations on the files, whatever they return.
abbrev pub run : EaSystem → List EaChange → EaFiles → EaFiles
run sys [] f = f
run sys (set_value name value ∷ changes) f = run sys changes (netatalk_set sys name value f).1
run sys (remove_value name ∷ changes) f = run sys changes (netatalk_remove sys name f).1

-- Names of less than 255 bytes and values of a 32-bit size.
abbrev pub IsChange : EaChange → Type 0
IsChange (set_value name value) = IsName name × IsU32 (length value)
IsChange (remove_value name) = Unit

abbrev pub has_value : Option (List ℕ) → Bool
has_value none = false
has_value (some value) = true

-- A name is listed if it has a value and is not internal.
abbrev pub Lists : Attributes → List (List ℕ) → Type 0
Lists m names =
    (name : List ℕ)
    → is_listed name names ≡ (not (metadata_name_filtered name) && has_value (m name))

is_listed-append :
    (k name : List ℕ) (names : List (List ℕ))
    → is_listed k (names ++ (name ∷ [])) ≡ (is_listed k names || str_eq name k)
unfolding is_listed
is_listed-append k name [] = ground arith
is_listed-append k name (n ∷ names) = ground (arith, is_listed-append k name names)

list_loop_lem :
    (memory : Allocation → Bool) (names : List (List ℕ)) (items : List EaItem)
    → ((a : Allocation) → memory a ≡ true)
    → All IsItem items
    → (out : List (List ℕ)) × ((list_loop memory names items ≡ ok out)
        × ((k : List ℕ)
            → is_listed k out
              ≡ (is_listed k names || (has_name k items && not (metadata_name_filtered k)))))
unfolding list_loop append_name has_name
list_loop_lem memory names [] hm h = (names, (refl, λ k. ground arith))
list_loop_lem memory names (i ∷ items) hm (((hn, hl), hs), h) =
    elim (Bool-cases (metadata_name_filtered i.name)) [
      | inl e ↦
          let (out, (run, has)) = list_loop_lem memory names items hm h in
          (out, (ground (arith, e, run), λ k. ground (arith, has k, e, str_eq→eq i.name k)))
      | inr e ↦ elim (Bool-cases (is_listed i.name names)) [
        | inl l ↦
            let (out, (run, has)) = list_loop_lem memory names items hm h in
            (out, (ground (arith, e, l, run), λ k. ground (arith, has k, e, l, str_eq→eq i.name k)))
        | inr l ↦
            let (out, (run, has)) = list_loop_lem memory (names ++ (i.name ∷ [])) items hm h in
            (
              out,
              (
                ground (arith, e, l, run, hm (name_list (length names))),
                λ k. ground (arith, has k, e, is_listed-append k i.name names, str_eq→eq i.name k),
              ),
            )
      ]
    ]

netatalk_list_refines :
    (sys : EaSystem) (n : ℕ) (m : Attributes) (f : EaFiles)
    → IsReady sys
    → Stores n m f
    → (names : List (List ℕ)) × ((netatalk_list sys f ≡ ok names) × Lists m names)
unfolding netatalk_list metadata_absent list_loop
netatalk_list_refines sys n m f r (items, (h, (hn, hm))) = (
  listed.0,
  (
    elim (load_ea_items-IsLoaded sys items f r h) [
      | inl e ↦ ground (arith, e, listed.1.0)
      | inr (q, e) ↦
          ground (arith, e, listed.1.0, ap (λ (is : List EaItem). list_loop sys.memory [] is) q)
    ],
    λ k. holds k (Bool-cases (has_name k items)),
  ),
)
  where
    listed :
        (out : List (List ℕ)) × ((list_loop sys.memory [] items ≡ ok out)
          × ((k : List ℕ)
              → is_listed k out ≡ (false || (has_name k items && not (metadata_name_filtered k)))))
    listed = unfold is_listed in list_loop_lem sys.memory [] items r.has_memory h.1.0.0

    holds :
        (k : List ℕ)
        → (has_name k items ≡ true) ⊎ (has_name k items ≡ false)
        → is_listed k listed.0 ≡ (not (metadata_name_filtered k) && has_value (m k))
    holds k (inl has) =
        ground (arith, listed.1.1 k, has, hm k, value_there k f.values items h.1.1 has)
    holds k (inr has) = ground (arith, listed.1.1 k, has, hm k)

bounded_by : (n n' : ℕ) (m : Attributes) (f : EaFiles) → n ≤ n' → Stores n m f → Stores n' m f
bounded_by n n' m f le (items, (h, (hn, hm))) = (items, (h, (omega arith, hm)))

-- Taking away what is not there changes nothing.
removed :
    (n : ℕ) (m : Attributes) (name : List ℕ) (f : EaFiles) (o : Option (List ℕ))
    (outcome : EaOutcome)
    → m name ≡ o
    → Stores n m f
    → Removes n m name f o outcome
    → Stores n (put_value name none m) outcome.1
unfolding put_value
removed n m name f none outcome e (items, (h, (hn, hm))) q =
    subst (λ r. Stores n (put_value name none m) r.1) (sym q)
      (items, (h, (hn, λ k. ground (arith, hm k, e, str_eq→eq name k))))
removed n m name f (some value) outcome e h (g, (q, k)) =
    subst (λ r. Stores n (put_value name none m) r.1) (sym q) k

run_refines :
    (sys : EaSystem) (n : ℕ) (m : Attributes) (changes : List EaChange) (f : EaFiles)
    → IsReady sys
    → All IsChange changes
    → Stores n m f
    → n + length changes ≤ 1024
    → Stores 1024 (changed changes m) (run sys changes f)
run_refines sys n m [] f r hc h hn = bounded_by n 1024 m f (omega arith) h
run_refines sys n m (set_value name value ∷ changes) f r ((hname, hv), hc) h hn =
    run_refines sys (suc n) (put_value name (some value) m) changes _ r hc
      (subst (λ o. Stores (suc n) (put_value name (some value) m) o.1) (sym after.1.0) after.1.1)
      (omega arith)
  where
    after :
        (g : EaFiles) × ((netatalk_set sys name value f ≡ (none, g))
          × Stores (suc n) (put_value name (some value) m) g)
    after = netatalk_set_refines sys n m name value f r h hname hv (omega arith)
run_refines sys n m (remove_value name ∷ changes) f r (hx, hc) h hn =
    run_refines sys n (put_value name none m) changes _ r hc
      (removed n m name f (m name) (netatalk_remove sys name f) refl h
        (netatalk_remove_refines sys n m name f r h))
      (omega arith)

abbrev pub no_files : EaFiles
no_files = record { header = none; values = λ name. none }

no_files-Stores : Stores 0 (λ name. none) no_files
unfolding has_name
no_files-Stores = ([], ((refl, ((tt, (tt, omega arith)), tt)), (omega arith, λ name. refl)))

-- After any run of at most 1024 calls of `netatalk_set` and `netatalk_remove`, begun without any
-- files, where the names are of less than 255 bytes, the values of a 32-bit size and the system
-- refuses nothing: `netatalk_get` gives what a map has after the same changes, -ENOATTR where it has
-- nothing, and `netatalk_list` succeeds with the names that have a value and are not internal.
pub run-changed :
    (sys : EaSystem) (changes : List EaChange) (name : List ℕ)
    → IsReady sys
    → All IsChange changes
    → length changes ≤ 1024
    → (netatalk_get sys name (run sys changes no_files)
        ≡ attribute (changed changes (λ k. none) name))
      × ((names : List (List ℕ)) × ((netatalk_list sys (run sys changes no_files) ≡ ok names)
            × Lists (changed changes (λ k. none)) names))
run-changed sys changes name r hc hn = (
  netatalk_get_refines sys 1024 (changed changes (λ k. none)) name (run sys changes no_files) r
      after,
  netatalk_list_refines sys 1024 (changed changes (λ k. none)) (run sys changes no_files) r after,
)
  where
    after : Stores 1024 (changed changes (λ k. none)) (run sys changes no_files)
    after = run_refines sys 0 (λ k. none) changes no_files r hc no_files-Stores (omega arith)
