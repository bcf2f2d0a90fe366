-- ===== src/Ipc/Logs.antt =====
-- The log of a client of the daemon as the list of its records (daemon/daemon.c), and how the
-- client takes it apart (daemon/stateless.c).
use netatalk_client.Base.{
  ◌<◌, lt→leb_false, lt→ltb, take_all, ℕ, zero, suc, ◌+◌, ◌-◌, ◌*◌, ◌/◌, ◌%◌, ◌^◌, ◌≡◌, ◌≤◌, refl,
  ap, sym, ◌∙◌, some, List, [], ◌∷◌, ◌++◌, arith, length, take, ltb, leb, if◌then◌else◌, to_be32,
  be32_at, IsU32, length-append, length-take, take-append, drop-append, le→ltb_false, Bool-cases,
  inl, inr, ltb→lt, if-split, if-both, All-append, All,
}
use mathlib.Core.List.{append_assoc, append-nil}
use netatalk_client.Ipc.{
  Record, record_bytes, append_record, log_for_client, log_buffer_size, with_record, dispatch_loop,
}

abbrev pub log_bytes : List Record → List ℕ
log_bytes [] = []
log_bytes (r ∷ records) = record_bytes r ++ log_bytes records

-- The records that are kept when a message is logged: a message is cut where the buffer ends, one for
-- which there is no byte of room is dropped, and in front of all that a full buffer is emptied.
abbrev emptied : List Record → List Record
emptied records = if leb log_buffer_size (length (log_bytes records)) then [] else records

abbrev with_last : ℕ → List ℕ → List Record → List Record
with_last level message records =
    let available = log_buffer_size - length (log_bytes records) in
    if ltb 8 available then records ++ ((level, take (available - 8) message) ∷ []) else records

abbrev pub logged : Record → List Record → List Record
logged (level, message) records = with_last level message (emptied records)

abbrev pub log_all : List Record → List Record → List Record
log_all [] records = records
log_all (r ∷ more) records = log_all more (logged r records)

-- The same on the bytes.
abbrev pub log_messages : List Record → List ℕ → List ℕ
log_messages [] log = log
log_messages ((level, message) ∷ more) log = log_messages more (log_for_client level message log)

pub log_bytes-append : (a b : List Record) → log_bytes (a ++ b) ≡ log_bytes a ++ log_bytes b
log_bytes-append [] b = refl
log_bytes-append (r ∷ a) b =
    ap (λ t. record_bytes r ++ t) (log_bytes-append a b)
    ∙ sym (append_assoc (record_bytes r) (log_bytes a) (log_bytes b))

length-record_bytes : (r : Record) → length (record_bytes r) ≡ 8 + length r.1
unfolding to_be32
length-record_bytes (level, message) = omega arith

-- Records of 32-bit levels whose bytes fit the buffer.
abbrev pub AreRecords : List Record → Type 0
AreRecords records =
    All (λ (r : Record). IsU32 r.0) records × (length (log_bytes records) ≤ log_buffer_size)

dispatch_eight :
    (fuel a b c d e f g i : ℕ) (message rest : List ℕ)
    → e * 2 ^ 24 + f * 2 ^ 16 + g * 256 + i ≡ length message
    → length message ≤ log_buffer_size
    → dispatch_loop (suc fuel) (a ∷ b ∷ c ∷ d ∷ e ∷ f ∷ g ∷ i ∷ (message ++ rest))
      ≡ with_record (a * 2 ^ 24 + b * 2 ^ 16 + c * 256 + d, message) (dispatch_loop fuel rest)
unfolding dispatch_loop be32_at
dispatch_eight fuel a b c d e f g i message rest same k =
    rw
      (
        same,
        take-append message rest,
        drop-append message rest,
        le→ltb_false (suc (suc (suc (suc (suc (suc (suc (suc (length (message ++ rest)))))))))) 8
            (omega arith),
        le→ltb_false log_buffer_size (length message) k,
        le→ltb_false
            ((suc (suc (suc (suc (suc (suc (suc (suc (length (message ++ rest)))))))))) - 8)
            (length message) (omega (arith, length-append message rest)),
      )
      refl

dispatch_loop-cons :
    (fuel : ℕ) (r : Record) (rest : List ℕ)
    → IsU32 r.0
    → length r.1 ≤ log_buffer_size
    → dispatch_loop (suc fuel) (record_bytes r ++ rest) ≡ with_record r (dispatch_loop fuel rest)
unfolding to_be32
dispatch_loop-cons fuel (level, message) rest h k =
    dispatch_eight fuel _ _ _ _ _ _ _ _ message rest (omega arith) k
    ∙ ap (λ (l : ℕ). with_record (l, message) (dispatch_loop fuel rest)) level_same
  where
    level_same :
        level / 2 ^ 24 % 256 * 2 ^ 24
          + level / 2 ^ 16 % 256 * 2 ^ 16
          + level / 256 % 256 * 256
          + level % 256
        ≡ level
    level_same = omega arith

pub dispatch_loop-log_bytes :
    (fuel : ℕ) (records : List Record)
    → length (log_bytes records) ≤ fuel
    → AreRecords records
    → dispatch_loop fuel (log_bytes records) ≡ some records
dispatch_loop-log_bytes fuel [] le h = unfold dispatch_loop in refl
dispatch_loop-log_bytes zero (r ∷ records) le h =
    absurd
      (omega (arith, length-append (record_bytes r) (log_bytes records), length-record_bytes r))
dispatch_loop-log_bytes (suc fuel) (r ∷ records) le ((hr, hs), fits) =
    let size = length-append (record_bytes r) (log_bytes records) in
    dispatch_loop-cons fuel r (log_bytes records) hr (omega (arith, size, length-record_bytes r))
    ∙ ap (with_record r) (
        dispatch_loop-log_bytes fuel records (omega (arith, size, length-record_bytes r))
          (hs, omega (arith, size, length-record_bytes r)))

append_record-log_bytes :
    (level : ℕ) (message : List ℕ) (records : List Record)
    → append_record level message (log_bytes records) ≡ log_bytes (with_last level message records)
unfolding append_record
append_record-log_bytes level message records =
    elim (Bool-cases (ltb 8 (log_buffer_size - length (log_bytes records)))) [
      | inl e ↦ rw e (
          sym (
            log_bytes-append records (new ∷ [])
            ∙ ap (λ t. log_bytes records ++ t) (append-nil (record_bytes new))))
      | inr e ↦ rw e refl
    ]
  where
    new : Record
    new = (level, take (log_buffer_size - length (log_bytes records) - 8) message)

log_for_client-logged :
    (level : ℕ) (message : List ℕ) (records : List Record)
    → log_for_client level message (log_bytes records) ≡ log_bytes (logged (level, message) records)
unfolding log_for_client
log_for_client-logged level message records =
    elim (Bool-cases (leb log_buffer_size (length (log_bytes records)))) [
      | inl e ↦ rw e (append_record-log_bytes level message [])
      | inr e ↦ rw e (append_record-log_bytes level message records)
    ]

pub log_messages-log_all :
    (messages records : List Record)
    → log_messages messages (log_bytes records) ≡ log_bytes (log_all messages records)
log_messages-log_all [] records = refl
log_messages-log_all ((level, message) ∷ more) records =
    ap (log_messages more) (log_for_client-logged level message records)
    ∙ log_messages-log_all more (logged (level, message) records)

with_last-AreRecords :
    (level : ℕ) (message : List ℕ) (records : List Record)
    → IsU32 level
    → AreRecords records
    → AreRecords (with_last level message records)
with_last-AreRecords level message records h k =
    if-split AreRecords (ltb 8 (log_buffer_size - length (log_bytes records))) _ records
      (λ e. (
        All-append _ records (new ∷ []) k.0 (h, tt),
        omega (
          arith,
          ltb→lt _ _ e,
          ap length (log_bytes-append records (new ∷ [])),
          length-append (log_bytes records) (log_bytes (new ∷ [])),
          length-append (record_bytes new) [],
          length-record_bytes new,
          length-take (log_buffer_size - length (log_bytes records) - 8) message,
        ),
      ))
      (λ e. k)
  where
    new : Record
    new = (level, take (log_buffer_size - length (log_bytes records) - 8) message)

pub log_all-AreRecords :
    (messages records : List Record)
    → All (λ (r : Record). IsU32 r.0) messages
    → AreRecords records
    → AreRecords (log_all messages records)
log_all-AreRecords [] records h k = k
log_all-AreRecords ((level, message) ∷ more) records (hl, h) k =
    log_all-AreRecords more (logged (level, message) records) h (
      with_last-AreRecords level message (emptied records) hl (
        if-both AreRecords (leb log_buffer_size (length (log_bytes records))) [] records
          (tt, omega arith) k))

-- Messages that all fit are all kept, in their order.
pub log_all_fit :
    (messages records : List Record)
    → length (log_bytes (records ++ messages)) < log_buffer_size
    → log_all messages records ≡ records ++ messages
log_all_fit [] records h = sym (append-nil records)
log_all_fit ((level, message) ∷ more) records h =
    ap (log_all more) kept
    ∙ log_all_fit more (records ++ ((level, message) ∷ []))
        (rw (append_assoc records ((level, message) ∷ []) more) h)
    ∙ append_assoc records ((level, message) ∷ []) more
  where
    used :
        length (log_bytes records) + (8 + length message) + length (log_bytes more)
        ≡ length (log_bytes (records ++ ((level, message) ∷ more)))
    used = omega (
      arith,
      ap length (log_bytes-append records ((level, message) ∷ more)),
      length-append (log_bytes records) (log_bytes ((level, message) ∷ more)),
      length-append (record_bytes (level, message)) (log_bytes more),
      length-record_bytes (level, message),
    )

    kept : logged (level, message) records ≡ records ++ ((level, message) ∷ [])
    kept =
        rw
          (
            lt→leb_false log_buffer_size (length (log_bytes records)) (omega (arith, h, used)),
            lt→ltb 8 (log_buffer_size - length (log_bytes records)) (omega (arith, h, used)),
            take_all (log_buffer_size - length (log_bytes records) - 8) message
                (omega (arith, h, used)),
          )
          refl
