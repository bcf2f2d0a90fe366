-- ===== src/Reply/Tests.antt =====
-- Reply blocks and dates at concrete bytes.
use netatalk_client.Base.{
  [], false, ◌+◌, ◌-◌, ◌%◌, ◌^◌, ◌<◌, ◌≤◌, ◌<◌, if◌then◌else◌, ℕ, ◌≡◌, refl, true, List, ◌∷◌, ◌++◌,
  arith, codes, replicate, slice?, be16_at, be32_at,
}
use netatalk_client.Dates.{
  DateServer, afp_date_to_unix, afp_date_from_unix, date_from_unix-date_to_unix,
}
use netatalk_client.Reply.{
  blank, parsing, refused, parse_reply_block, parse_fields, parse_field, read16, read32,
  after_store, copy_pascal_bounded, copy_name, named,
}
use netatalk_client.Reply.Members.{DirectoryNumbers, directory_bytes, parse_reply_block-directory}
use netatalk_client.Reply.Fields.{IsWithin, parse_reply_block-IsWithin}

abbrev berlin : DateServer
berlin = record { uses_local_time = true; time_offset = 3600 }

date_from_unix-date_to_unix_example :
    let offset : ℕ = if berlin.uses_local_time then berlin.time_offset else 0 in
    (2147483648 < 2147483648
      → afp_date_to_unix berlin 2147483648 ≡ (946684800 + 2147483648 + (2 ^ 64 - offset)) % 2 ^ 64)
    × (2147483648 ≤ 2147483648
        → afp_date_to_unix berlin 2147483648
          ≡ (946684800 + (2 ^ 64 - (2 ^ 32 - 2147483648)) + (2 ^ 64 - offset)) % 2 ^ 64)
    × (afp_date_from_unix berlin (afp_date_to_unix berlin 2147483648) ≡ 2147483648)
date_from_unix-date_to_unix_example =
    date_from_unix-date_to_unix berlin 2147483648 (omega arith) (omega arith)

-- A parent directory, a name at offset 10 and a file id, and behind them the name.
abbrev block : List ℕ
block = 0 ∷ 0 ∷ 0 ∷ 2 ∷ 0 ∷ 10 ∷ 0 ∷ 0 ∷ 1 ∷ 0 ∷ 2 ∷ codes "ab"

reads_the_name :
    parse_reply_block berlin block 13 true 0 322
    ≡ parsing 10 (record (blank true) { did = 2; name = codes "ab"; fileid = 256 })
unfolding parse_reply_block parse_fields parse_field read16 read32 after_store copy_pascal_bounded
    copy_name named slice? be16_at be32_at
reads_the_name = refl

refuses_a_cut_name : parse_reply_block berlin block 12 true 0 322 ≡ refused
unfolding parse_reply_block parse_fields parse_field read16 read32 after_store copy_pascal_bounded
    copy_name named slice? be16_at be32_at
refuses_a_cut_name = refl

parse_reply_block-IsWithin_example :
    IsWithin 13 (parse_reply_block berlin (block ++ replicate 20 255) 13 true 0 322)
parse_reply_block-IsWithin_example =
    parse_reply_block-IsWithin berlin (block ++ replicate 20 255) 13 true 0 322 (omega arith)

abbrev numbers : DirectoryNumbers
numbers = record {
  attributes = 1;
  did = 2;
  created = 0;
  modified = 86400;
  backed_up = 2147483648;
  fileid = 17;
  offspring = 3;
  uid = 501;
  gid = 20;
  accessrights = 7;
}

parse_reply_block-directory_example :
    parse_reply_block berlin (directory_bytes numbers (9 ∷ [])) 37 true 0 7967
    ≡ parsing 36 (record (blank true) {
      attributes = 1;
      did = 2;
      creation_date = (afp_date_to_unix berlin 0, false);
      modification_date = (afp_date_to_unix berlin 86400, false);
      backup_date = (afp_date_to_unix berlin 2147483648, true);
      fileid = 17;
      offspring = 3;
      uid = 501;
      gid = 20;
      accessrights = 7;
    })
parse_reply_block-directory_example =
    parse_reply_block-directory berlin 37 numbers (9 ∷ []) (omega arith) (omega arith) (omega arith)
      (omega arith) (omega arith) (omega arith) (omega arith) (omega arith) (omega arith)
      (omega arith) (omega arith)
