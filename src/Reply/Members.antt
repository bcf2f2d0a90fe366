-- ===== src/Reply/Members.antt =====
-- `parse_reply_block` (lib/proto_replyblock.c): where the numbers of a block go, member by member.
use netatalk_client.Base.{
  ℕ, ◌+◌, ◌≤◌, ◌≡◌, refl, ap, ◌∙◌, true, false, some, List, [], ◌∷◌, ◌++◌, length, arith, slice?,
  slice?-here, le→ltb_false, to_be16, to_be32, be16-to_be16, be32-to_be32, IsU16, IsU32, ◌==◌,
}
use netatalk_client.Dates.{DateServer, afp_date_to_unix}
use netatalk_client.Reply.{
  ReplyFile, blank, Stored, stored, parsing, Field, field, after_store, read16, read32, parse_field,
  parse_fields, parse_reply_block, date_of,
}

module _ (buf : List ℕ) (size : ℕ) where
  step16 :
      (front back : List ℕ) (x at : ℕ) (g : ℕ → ReplyFile → ReplyFile) (f : ReplyFile)
      (fields : List Field)
      → IsU16 x
      → buf ≡ front ++ (to_be16 x ++ back)
      → at ≡ length front
      → at + 2 ≤ size
      → parse_fields buf size
          (field true 2 (λ b at h. read16 b at (λ n. stored (g n h))) 2 ∷ fields)
          (parsing at f)
        ≡ parse_fields buf size fields (parsing (at + 2) (g x f))
  unfolding parse_fields parse_field read16 after_store
  step16 front back x at g f fields hx e ha h =
      ap (parse_fields buf size fields)
        (rw (le→ltb_false size (at + 2) h, read16, found, be16-to_be16 x [] hx, after_store) refl)
    where
      found : slice? buf at 2 ≡ some (to_be16 x ++ [])
      found =
          ap (λ (b : List ℕ). slice? b at 2) e
          ∙ ap (λ (n : ℕ). slice? (front ++ (to_be16 x ++ back)) n 2) ha
          ∙ slice?-here front (to_be16 x) back 2 (unfold to_be16 in omega arith)
          ∙ unfold to_be16 in refl

  step32 :
      (front back : List ℕ) (x at : ℕ) (g : ℕ → ReplyFile → ReplyFile) (f : ReplyFile)
      (fields : List Field)
      → IsU32 x
      → buf ≡ front ++ (to_be32 x ++ back)
      → at ≡ length front
      → at + 4 ≤ size
      → parse_fields buf size
          (field true 4 (λ b at h. read32 b at (λ n. stored (g n h))) 4 ∷ fields)
          (parsing at f)
        ≡ parse_fields buf size fields (parsing (at + 4) (g x f))
  unfolding parse_fields parse_field read32 after_store
  step32 front back x at g f fields hx e ha h =
      ap (parse_fields buf size fields)
        (rw (le→ltb_false size (at + 4) h, read32, found, be32-to_be32 x [] hx, after_store) refl)
    where
      found : slice? buf at 4 ≡ some (to_be32 x ++ [])
      found =
          ap (λ (b : List ℕ). slice? b at 4) e
          ∙ ap (λ (n : ℕ). slice? (front ++ (to_be32 x ++ back)) n 4) ha
          ∙ slice?-here front (to_be32 x) back 4 (unfold to_be32 in omega arith)
          ∙ unfold to_be32 in refl

  passed :
      (need width at : ℕ) (store : List ℕ → ℕ → ReplyFile → Stored) (f : ReplyFile)
      (fields : List Field)
      → parse_fields buf size (field false need store width ∷ fields) (parsing at f)
        ≡ parse_fields buf size fields (parsing at f)
  unfolding parse_fields parse_field
  passed need width at store f fields = refl

-- The numbers of a directory's block.
pub record DirectoryNumbers : Type 0 where
  pub attributes : ℕ
  pub did : ℕ
  pub created : ℕ
  pub modified : ℕ
  pub backed_up : ℕ
  pub fileid : ℕ
  pub offspring : ℕ
  pub uid : ℕ
  pub gid : ℕ
  pub accessrights : ℕ

-- Their bytes, one number behind the other, and `back` behind them.
abbrev pub directory_bytes : DirectoryNumbers → List ℕ → List ℕ
directory_bytes w back =
    to_be16 w.attributes
    ++ (to_be32 w.did
        ++ (to_be32 w.created
            ++ (to_be32 w.modified
                ++ (to_be32 w.backed_up
                    ++ (to_be32 w.fileid
                        ++ (to_be16 w.offspring
                            ++ (to_be32 w.uid
                                ++ (to_be32 w.gid ++ (to_be32 w.accessrights ++ back)))))))))

-- A directory's block whose bitmap has the bits of all these numbers, of 16 or 32 bits each, and no
-- other bit, of at least the 36 bytes that they take. `parse_reply_block` ends behind them, and the
-- attributes, the parent's id, the dates of creation, modification and backup, the id, the number of
-- entries, the owner, the group and the access rights have gone from the bytes in this order to the
-- members of these names, each date made a Unix time and marked as unset where it is 0x80000000. All
-- other members are as at the start.
pub parse_reply_block-directory :
    (server : DateServer) (size : ℕ) (w : DirectoryNumbers) (back : List ℕ)
    → IsU16 w.attributes
    → IsU32 w.did
    → IsU32 w.created
    → IsU32 w.modified
    → IsU32 w.backed_up
    → IsU32 w.fileid
    → IsU16 w.offspring
    → IsU32 w.uid
    → IsU32 w.gid
    → IsU32 w.accessrights
    → 36 ≤ size
    → parse_reply_block server (directory_bytes w back) size true 0 7967
      ≡ parsing 36 (record (blank true) {
        attributes = w.attributes;
        did = w.did;
        creation_date = (afp_date_to_unix server w.created, w.created == 2147483648);
        modification_date = (afp_date_to_unix server w.modified, w.modified == 2147483648);
        backup_date = (afp_date_to_unix server w.backed_up, w.backed_up == 2147483648);
        fileid = w.fileid;
        offspring = w.offspring;
        uid = w.uid;
        gid = w.gid;
        accessrights = w.accessrights;
      })
unfolding parse_reply_block date_of to_be16 to_be32
parse_reply_block-directory server size w back h0 h1 h2 h3 h4 h5 h6 h7 h8 h9 hs =
    step16 buf size []
      (to_be32 w.did
        ++ (to_be32 w.created
            ++ (to_be32 w.modified
                ++ (to_be32 w.backed_up
                    ++ (to_be32 w.fileid
                        ++ (to_be16 w.offspring
                            ++ (to_be32 w.uid
                                ++ (to_be32 w.gid ++ (to_be32 w.accessrights ++ back)))))))))
      w.attributes 0 _ _ _ h0 refl refl (omega arith)
    ∙ step32 buf size (to_be16 w.attributes ++ [])
        (to_be32 w.created
          ++ (to_be32 w.modified
              ++ (to_be32 w.backed_up
                  ++ (to_be32 w.fileid
                      ++ (to_be16 w.offspring
                          ++ (to_be32 w.uid
                              ++ (to_be32 w.gid ++ (to_be32 w.accessrights ++ back))))))))
        w.did 2 _ _ _ h1 refl refl (omega arith)
    ∙ step32 buf size (to_be16 w.attributes ++ (to_be32 w.did ++ []))
        (to_be32 w.modified
          ++ (to_be32 w.backed_up
              ++ (to_be32 w.fileid
                  ++ (to_be16 w.offspring
                      ++ (to_be32 w.uid ++ (to_be32 w.gid ++ (to_be32 w.accessrights ++ back)))))))
        w.created 6 _ _ _ h2 refl refl (omega arith)
    ∙ step32 buf size (to_be16 w.attributes ++ (to_be32 w.did ++ (to_be32 w.created ++ [])))
        (to_be32 w.backed_up
          ++ (to_be32 w.fileid
              ++ (to_be16 w.offspring
                  ++ (to_be32 w.uid ++ (to_be32 w.gid ++ (to_be32 w.accessrights ++ back))))))
        w.modified 10 _ _ _ h3 refl refl (omega arith)
    ∙ step32 buf size
        (to_be16 w.attributes
          ++ (to_be32 w.did ++ (to_be32 w.created ++ (to_be32 w.modified ++ []))))
        (to_be32 w.fileid
          ++ (to_be16 w.offspring
              ++ (to_be32 w.uid ++ (to_be32 w.gid ++ (to_be32 w.accessrights ++ back)))))
        w.backed_up 14 _ _ _ h4 refl refl (omega arith)
    ∙ passed buf size _ _ _ _ _ _
    ∙ passed buf size _ _ _ _ _ _
    ∙ passed buf size _ _ _ _ _ _
    ∙ step32 buf size
        (to_be16 w.attributes
          ++ (to_be32 w.did
              ++ (to_be32 w.created ++ (to_be32 w.modified ++ (to_be32 w.backed_up ++ [])))))
        (to_be16 w.offspring
          ++ (to_be32 w.uid ++ (to_be32 w.gid ++ (to_be32 w.accessrights ++ back))))
        w.fileid 18 _ _ _ h5 refl refl (omega arith)
    ∙ step16 buf size
        (to_be16 w.attributes
          ++ (to_be32 w.did
              ++ (to_be32 w.created
                  ++ (to_be32 w.modified ++ (to_be32 w.backed_up ++ (to_be32 w.fileid ++ []))))))
        (to_be32 w.uid ++ (to_be32 w.gid ++ (to_be32 w.accessrights ++ back))) w.offspring 22 _ _ _
        h6 refl refl (omega arith)
    ∙ step32 buf size
        (to_be16 w.attributes
          ++ (to_be32 w.did
              ++ (to_be32 w.created
                  ++ (to_be32 w.modified
                      ++ (to_be32 w.backed_up
                          ++ (to_be32 w.fileid ++ (to_be16 w.offspring ++ [])))))))
        (to_be32 w.gid ++ (to_be32 w.accessrights ++ back)) w.uid 24 _ _ _ h7 refl refl
        (omega arith)
    ∙ step32 buf size
        (to_be16 w.attributes
          ++ (to_be32 w.did
              ++ (to_be32 w.created
                  ++ (to_be32 w.modified
                      ++ (to_be32 w.backed_up
                          ++ (to_be32 w.fileid
                              ++ (to_be16 w.offspring ++ (to_be32 w.uid ++ []))))))))
        (to_be32 w.accessrights ++ back) w.gid 28 _ _ _ h8 refl refl (omega arith)
    ∙ step32 buf size
        (to_be16 w.attributes
          ++ (to_be32 w.did
              ++ (to_be32 w.created
                  ++ (to_be32 w.modified
                      ++ (to_be32 w.backed_up
                          ++ (to_be32 w.fileid
                              ++ (to_be16 w.offspring
                                  ++ (to_be32 w.uid ++ (to_be32 w.gid ++ [])))))))))
        back w.accessrights 32 _ _ _ h9 refl refl (omega arith)
    ∙ passed buf size _ _ _ _ _ _
    ∙ passed buf size _ _ _ _ _ _
    ∙ passed buf size _ _ _ _ _ _
    ∙ unfold parse_fields in refl
  where
    buf : List ℕ
    buf =
        (to_be16 w.attributes
          ++ (to_be32 w.did
              ++ (to_be32 w.created
                  ++ (to_be32 w.modified
                      ++ (to_be32 w.backed_up
                          ++ (to_be32 w.fileid
                              ++ (to_be16 w.offspring
                                  ++ (to_be32 w.uid
                                      ++ (to_be32 w.gid ++ (to_be32 w.accessrights ++ back))))))))))
