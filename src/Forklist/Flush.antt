-- ===== src/Forklist/Flush.antt =====
-- Which forks are dirty after a flush.
use netatalk_client.Base.{
  str_eq, ◌⊎◌, str_eq→eq, ==_ne, ℕ, ◌+◌, ◌*◌, ◌≡◌, ◌≢◌, refl, sym, ap, ◌∙◌, arith, ℤ, is_zero, Bool,
  true, false, List, [], ◌∷◌, map, ◌==◌, if◌then◌else◌, not, str_eq_self, All, Bool-cases, inl, inr,
}
use netatalk_client.Forklist.{
  OpenFork, needs_flush, set_dirty, collect, is_record, mark_dirty, flush_records,
  flush_dirty_forks_for_file,
}

abbrev pub OtherId : ℕ → List OpenFork → Type 0
OtherId id = All (λ p. p.forkid ≢ id)

abbrev pub DistinctIds : List OpenFork → Type 0
DistinctIds [] = Unit {0}
DistinctIds (p ∷ ps) = OtherId p.forkid ps × DistinctIds ps

-- Those that are to be flushed, in their order.
abbrev wanted : OpenFork → List OpenFork → List OpenFork
wanted fp [] = []
wanted fp (p ∷ ps) = let rest = wanted fp ps in if needs_flush fp p then p ∷ rest else rest

abbrev clean : OpenFork → OpenFork → OpenFork
clean fp p = if needs_flush fp p then set_dirty false p else p

-- A fork that was to be flushed is dirty where the server refused; any other is as it was.
abbrev pub settled : (ℕ → ℤ) → OpenFork → OpenFork → OpenFork
settled flushfork fp p =
    if needs_flush fp p then set_dirty (not (is_zero (flushfork p.forkid))) p else p

collect-wanted :
    (realloc : ℕ → Bool) (fp : OpenFork) (ps : List OpenFork) (count capacity : ℕ)
    → ((n : ℕ) → realloc n ≡ true)
    → collect realloc fp ps count capacity ≡ (wanted fp ps, map (clean fp) ps)
unfolding collect
collect-wanted realloc fp [] count capacity h = refl
collect-wanted realloc fp (p ∷ ps) count capacity h =
    rw
      (
        h _,
        collect-wanted realloc fp ps count capacity h,
        collect-wanted realloc fp ps (count + 1) capacity h,
        collect-wanted realloc fp ps (count + 1) (if capacity == 0 then 4 else capacity * 2) h,
      )
      (ground arith)

OtherId-wanted :
    (id : ℕ) (fp : OpenFork) (ps : List OpenFork) → OtherId id ps → OtherId id (wanted fp ps)
OtherId-wanted id fp [] h = tt
OtherId-wanted id fp (p ∷ ps) h = ground (arith, h, OtherId-wanted id fp ps h.1)

-- A fork that no record is of stays at the front.
flush_records-passed :
    (flushfork : ℕ → ℤ) (q : OpenFork) (rs qs : List OpenFork)
    → OtherId q.forkid rs
    → flush_records flushfork rs (q ∷ qs) ≡ q ∷ flush_records flushfork rs qs
unfolding flush_records mark_dirty is_record
flush_records-passed flushfork q [] qs h = refl
flush_records-passed flushfork q (r ∷ rs) qs (hr, h) =
    elim (Bool-cases (is_zero (flushfork r.forkid))) [
      | inl e ↦ rw e (flush_records-passed flushfork q rs qs h)
      | inr e ↦
          rw (e, ==_ne q.forkid r.forkid (λ z. hr (sym z)))
            (flush_records-passed flushfork q rs (mark_dirty r qs) h)
    ]

is_record_own : (b : Bool) (p : OpenFork) → is_record p (set_dirty b p) ≡ true
unfolding is_record set_dirty
is_record_own b p = ground (arith, str_eq_self p.basename)

-- The record of the fork at the front.
flush_records-own :
    (flushfork : ℕ → ℤ) (p : OpenFork) (rs qs : List OpenFork)
    → OtherId p.forkid rs
    → flush_records flushfork (p ∷ rs) (set_dirty false p ∷ qs)
      ≡ set_dirty (not (is_zero (flushfork p.forkid))) p ∷ flush_records flushfork rs qs
unfolding flush_records mark_dirty set_dirty
flush_records-own flushfork p rs qs h = elim (Bool-cases (is_zero (flushfork p.forkid))) [
  | inl e ↦ rw e (flush_records-passed flushfork (set_dirty false p) rs qs h)
  | inr e ↦
      rw (e, is_record_own false p) (flush_records-passed flushfork (set_dirty true p) rs qs h)
]

flush_records-wanted :
    (flushfork : ℕ → ℤ) (fp : OpenFork) (ps : List OpenFork)
    → DistinctIds ps
    → flush_records flushfork (wanted fp ps) (map (clean fp) ps) ≡ map (settled flushfork fp) ps
unfolding flush_records
flush_records-wanted flushfork fp [] d = refl
flush_records-wanted flushfork fp (p ∷ ps) (other, d) = elim (Bool-cases (needs_flush fp p)) [
  | inl e ↦ rw e (
      flush_records-own flushfork p (wanted fp ps) (map (clean fp) ps)
        (OtherId-wanted p.forkid fp ps other)
      ∙ ap (λ qs. set_dirty (not (is_zero (flushfork p.forkid))) p ∷ qs)
          (flush_records-wanted flushfork fp ps d))
  | inr e ↦ rw e (
      flush_records-passed flushfork p (wanted fp ps) (map (clean fp) ps)
        (OtherId-wanted p.forkid fp ps other)
      ∙ ap (λ qs. p ∷ qs) (flush_records-wanted flushfork fp ps d))
]

-- Another fork of the same file, open for writing and dirty: the same kind of fork, of the same
-- directory and name.
abbrev pub IsWanted : OpenFork → OpenFork → Type 0
IsWanted fp p =
    (p.address ≢ fp.address)
    × (p.writable ≡ true)
    × (p.dirty ≡ true)
    × (p.resource ≡ fp.resource)
    × (p.did ≡ fp.did)
    × (p.basename ≡ fp.basename)

needs_flush-IsWanted : (fp p : OpenFork) → needs_flush fp p ≡ true → IsWanted fp p
unfolding needs_flush
needs_flush-IsWanted fp p h = ground (arith, h, str_eq→eq p.basename fp.basename)

IsWanted-needs_flush : (fp p : OpenFork) → IsWanted fp p → needs_flush fp p ≡ true
unfolding needs_flush
IsWanted-needs_flush fp p (a, w, d, r, i, n) =
    ground (arith, a, w, d, r, i, ap (str_eq p.basename) (sym n) ∙ str_eq_self p.basename)

-- A fork and what it is after the flush.
abbrev pub IsSettled : (ℕ → ℤ) → OpenFork → OpenFork → OpenFork → Type 0
IsSettled flushfork fp p q =
    (IsWanted fp p × (q ≡ record p { dirty = not (is_zero (flushfork p.forkid)) }))
    ⊎ ((¬ IsWanted fp p) × (q ≡ p))

abbrev pub AreSettled : (ℕ → ℤ) → OpenFork → List OpenFork → List OpenFork → Type 0
AreSettled flushfork fp [] [] = Unit {0}
AreSettled flushfork fp (p ∷ ps) (q ∷ qs) =
    IsSettled flushfork fp p q × AreSettled flushfork fp ps qs
AreSettled flushfork fp [] (q ∷ qs) = ⊥
AreSettled flushfork fp (p ∷ ps) [] = ⊥

settled-IsSettled :
    (flushfork : ℕ → ℤ) (fp p : OpenFork) → IsSettled flushfork fp p (settled flushfork fp p)
unfolding set_dirty
settled-IsSettled flushfork fp p = elim (Bool-cases (needs_flush fp p)) [
  | inl e ↦ rw e (inl (needs_flush-IsWanted fp p e, refl))
  | inr e ↦ rw e (inr ((λ w. cc (IsWanted-needs_flush fp p w, e)), refl))
]

settled-AreSettled :
    (flushfork : ℕ → ℤ) (fp : OpenFork) (ps : List OpenFork)
    → AreSettled flushfork fp ps (map (settled flushfork fp) ps)
settled-AreSettled flushfork fp [] = tt
settled-AreSettled flushfork fp (p ∷ ps) =
    (settled-IsSettled flushfork fp p, settled-AreSettled flushfork fp ps)

-- With memory for the records and a fork id of its own for every open fork, a flush leaves the list
-- of forks in its order. A fork other than the one given that is writable, dirty, of the same kind and
-- of the same directory and name as that one is dirty afterwards exactly if the server refused to
-- flush it, and nothing else of it changes; any other fork is as it was.
pub flush_dirty_forks_for_file-settled :
    (realloc : ℕ → Bool) (flushfork : ℕ → ℤ) (fp : OpenFork) (forks : List OpenFork)
    → ((n : ℕ) → realloc n ≡ true)
    → DistinctIds forks
    → AreSettled flushfork fp forks (flush_dirty_forks_for_file realloc flushfork fp forks)
unfolding flush_dirty_forks_for_file
flush_dirty_forks_for_file-settled realloc flushfork fp forks memory d =
    rw (collect-wanted realloc fp forks 0 0 memory, flush_records-wanted flushfork fp forks d)
      (settled-AreSettled flushfork fp forks)
