-- ===== src/Dsi/Header/Ids.antt =====
-- The ids of successive requests: none repeats within a full round of the counter.
use netatalk_client.Base.{
  refl, to_be16, ap, be16_at, ℕ, zero, suc, ◌+◌, ◌-◌, ◌%◌, ◌<◌, ◌≡◌, ◌≢◌, ◌∙◌, true, IsU16, IsU32,
  arith, if◌then◌else◌, List, ◌++◌,
}
use netatalk_client.Server.{RequestIds}
use netatalk_client.Dsi.Header.{
  Header, encode, flags_of, command_of, requestid_of, error_of, length_of, next_id, setup_header,
}

-- The header fields read back are those that were written, whatever follows them.
abbrev pub FieldsAre : List ℕ → Header → Type 0
FieldsAre buf h =
    (flags_of buf ≡ h.flags)
    × (command_of buf ≡ h.command)
    × (requestid_of buf ≡ h.requestid)
    × (error_of buf ≡ h.error_code)
    × (length_of buf ≡ h.packet_length)

-- A header whose request id is a 16-bit number and whose error code and length are 32-bit numbers,
-- with anything behind it: the receiver reads back its flags, command, request id, error code and
-- length.
pub fields-encode :
    (h : Header) (rest : List ℕ)
    → IsU16 h.requestid
    → IsU32 h.error_code
    → IsU32 h.packet_length
    → FieldsAre (encode h ++ rest) h
unfolding encode flags_of command_of requestid_of error_of length_of
fields-encode h rest hr he hl = omega arith

-- `n` headers, one after the other.
unfoldable pub setup_many : ℕ → RequestIds → RequestIds
unfolding setup_header
setup_many zero ids = ids
setup_many (suc n) ids = setup_many n (setup_header ids 0).0

-- The id of the n-th header from here, in closed form.
unfoldable pub nth_id : RequestIds → ℕ → ℕ
nth_id ids n =
    if ids.supports_replay_cache
    then (ids.lastrequestid + n - 1) % 65535 + 1
    else (ids.lastrequestid + n) % 65536

next_id-IsU16 : (ids : RequestIds) → IsU16 ids.lastrequestid → IsU16 (next_id ids)
unfolding next_id
next_id-IsU16 ids h = ground arith

nth_id_step :
    (n : ℕ) (ids : RequestIds)
    → IsU16 ids.lastrequestid
    → nth_id (setup_header ids 0).0 (suc n) ≡ nth_id ids (suc (suc n))
unfolding nth_id setup_header
nth_id_step n ids h = ground arith

setup_many_lem :
    (n : ℕ) (ids : RequestIds)
    → IsU16 ids.lastrequestid
    → (setup_many (suc n) ids).lastrequestid ≡ nth_id ids (suc n)
unfolding setup_many
setup_many_lem zero ids h = unfold nth_id in ground arith
setup_many_lem (suc n) ids h =
    setup_many_lem n (setup_header ids 0).0 (next_id-IsU16 ids h) ∙ nth_id_step n ids h

nth_id_distinct :
    (ids : RequestIds) (i j : ℕ) → 0 < i → i < j → j < i + 65535 → nth_id ids i ≢ nth_id ids j
unfolding nth_id
nth_id_distinct ids i j hi hj hw = ground arith

-- The bytes of the header that comes after `n` others.
abbrev pub nth_header : RequestIds → ℕ → List ℕ
nth_header ids n = encode (setup_header (setup_many n ids) 0).1

requestid_written :
    (ids : RequestIds)
    → IsU16 ids.lastrequestid
    → requestid_of (encode (setup_header ids 0).1) ≡ (setup_header ids 0).0.lastrequestid
unfolding encode requestid_of setup_header next_id be16_at to_be16
requestid_written ids h = omega (arith, next_id-IsU16 ids h)

setup_many-IsU16 :
    (n : ℕ) (ids : RequestIds) → IsU16 ids.lastrequestid → IsU16 (setup_many n ids).lastrequestid
unfolding setup_many setup_header
setup_many-IsU16 zero ids h = h
setup_many-IsU16 (suc n) ids h = setup_many-IsU16 n (setup_header ids 0).0 (next_id-IsU16 ids h)

setup_many-setup_header :
    (n : ℕ) (ids : RequestIds) → (setup_header (setup_many n ids) 0).0 ≡ setup_many (suc n) ids
unfolding setup_many setup_header
setup_many-setup_header zero ids = refl
setup_many-setup_header (suc n) ids = setup_many-setup_header n (setup_header ids 0).0

nth_header_lem :
    (n : ℕ) (ids : RequestIds)
    → IsU16 ids.lastrequestid
    → requestid_of (nth_header ids n) ≡ nth_id ids (suc n)
nth_header_lem n ids h =
    requestid_written (setup_many n ids) (setup_many-IsU16 n ids h)
    ∙ ap (λ (r : RequestIds). r.lastrequestid) (setup_many-setup_header n ids)
    ∙ setup_many_lem n ids h

-- The counter is a 16-bit number. Within a full round of it no request id is used twice: the bytes of
-- any two of 65535 headers that follow one another hold different ids, and with a replay cache none
-- of them is 0.
pub setup_many_distinct :
    (ids : RequestIds) (i j : ℕ)
    → IsU16 ids.lastrequestid
    → i < j
    → j < i + 65535
    → (requestid_of (nth_header ids i) ≢ requestid_of (nth_header ids j))
      × (ids.supports_replay_cache ≡ true → 0 < requestid_of (nth_header ids i))
setup_many_distinct ids i j h hij hw =
    rw (nth_header_lem i ids h, nth_header_lem j ids h)
      (nth_id_distinct ids (suc i) (suc j) (omega arith) (omega arith) (omega arith), positive)
  where
    positive : ids.supports_replay_cache ≡ true → 0 < nth_id ids (suc i)
    positive e = unfold nth_id in rw e (omega arith)
