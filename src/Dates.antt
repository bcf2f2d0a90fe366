-- ===== src/Dates.antt =====
-- AFP dates and Unix times (lib/proto_server.c). An `int64_t` is its two's complement.
use netatalk_client.Base.{
  ◌≤◌, ℕ, ◌+◌, ◌-◌, ◌%◌, ◌^◌, ◌<◌, ◌≡◌, Bool, leb, if◌then◌else◌, arith, IsU32,
}

-- What the conversions read of a server: whether its version is below 3.0, and `time_offset`.
pub record DateServer : Type 0 where
  pub uses_local_time : Bool
  pub time_offset : ℕ

abbrev pub ad_date_delta : ℕ
ad_date_delta = 946684800

-- `afp_date_to_unix` of the 32 bits of the wire, in the order of the machine.
unfoldable pub afp_date_to_unix : DateServer → ℕ → ℕ
afp_date_to_unix server wire_seconds =
    let signed =
      if leb 2147483648 wire_seconds then wire_seconds + (2 ^ 64 - 2 ^ 32) else wire_seconds in
    let seconds = (signed + ad_date_delta) % 2 ^ 64 in
    if server.uses_local_time then (seconds + (2 ^ 64 - server.time_offset)) % 2 ^ 64 else seconds

-- `afp_date_from_unix`
unfoldable pub afp_date_from_unix : DateServer → ℕ → ℕ
afp_date_from_unix server date =
    let seconds = (date + (2 ^ 64 - ad_date_delta)) % 2 ^ 64 in
    (if server.uses_local_time then (seconds + server.time_offset) % 2 ^ 64 else seconds) % 2 ^ 32

-- The 32 bits of a date count seconds from 1 January 2000, which is 946684800 in Unix time, and those
-- from 2^31 on stand for the seconds before it: that is the Unix time that they become, as the two's
-- complement of an `int64_t`, less the server's time offset where its version is below 3.0. The
-- conversion back gives the date again, for a time offset of 64 bits.
pub date_from_unix-date_to_unix :
    (server : DateServer) (date : ℕ)
    → IsU32 date
    → server.time_offset < 2 ^ 64
    → let offset : ℕ = if server.uses_local_time then server.time_offset else 0 in
      (date < 2147483648
        → afp_date_to_unix server date ≡ (946684800 + date + (2 ^ 64 - offset)) % 2 ^ 64)
      × (2147483648 ≤ date
          → afp_date_to_unix server date
            ≡ (946684800 + (2 ^ 64 - (2 ^ 32 - date)) + (2 ^ 64 - offset)) % 2 ^ 64)
      × (afp_date_from_unix server (afp_date_to_unix server date) ≡ date)
unfolding afp_date_from_unix afp_date_to_unix
date_from_unix-date_to_unix server date h k =
    (λ low. ground (arith, low), λ high. ground (arith, high), ground arith)
