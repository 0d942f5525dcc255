-- ===== src/Tests/Sharing.antt =====
-- Shares and invites in the toy database, and a wrapped key.
use tgcryptfs.Crypto.Aead.{Bytes, encrypt, decrypt}
use tgcryptfs.Common.Dict.{list_eq, nat_eq}
use tgcryptfs.Tests.Toy.{toy, nonce24, hash32}
use tgcryptfs.Fuse.BlockRows.{pos}
use tgcryptfs.Fuse.Store.{Session}
use tgcryptfs.Sharing.{
  read_only, read_write, admin, ShareRecord, is_after, is_valid, try_use, new_invite,
}
use tgcryptfs.Sharing.Database.{change, find_entries}
use tgcryptfs.Sharing.Store.{
  seal_record, open_record, first_record, run_change, put_sealed, insert_share, revoke_share,
  insert_invite, get_invite, use_invite, mark_revoked, revoke_invite,
}
use tgcryptfs.Sharing.Service.{
  VolumeSession, create_share, create_invite, accept_invite, accept_used, grant_share,
}
use tgcryptfs.Sharing.Service.Accepted.{Request, accepting, revoking, accepted, accepted-at_most}
use tgcryptfs.Sharing.Keys.{
  Kem, generate_keypair, encapsulate, wrap_key_for_user, unwrap_key, unwrap_key-wrap_key_for_user,
}
use tgcryptfs.Common.{
  ℕ, ◌-◌, ◌≤◌, ◌≡◌, refl, sym, ap, ◌∙◌, Bool, true, false, some, List, [], ◌∷◌, ◌++◌, arith, ok,
  length, replicate,
}
use tgcryptfs.Tests.ShareCodec.{ToyConn, env}

abbrev volume : List Bool → VolumeSession ToyConn
volume faults = record {
  volume_id = 9 ∷ [];
  is_poisoned = false;
  store = record { conn = (record { shares = []; invites = [] }, faults); drawn = 0 };
}

abbrev uuid : Bytes
uuid = 5 ∷ 6 ∷ []

abbrev alice : Bytes
alice = b'a' ∷ b'l' ∷ []

abbrev bob : Bytes
bob = b'b' ∷ b'o' ∷ []

-- An invite for two uses that expires at 200.
abbrev invited : List Bool → VolumeSession ToyConn
invited faults = (create_invite env (pos 100) uuid read_only 2 (pos 200) (volume faults)).0

abbrev attempt : ℕ → Bytes → Request
attempt now user_id = accepting (pos now) (some (pos now)) user_id

twice_only :
    accepted env uuid
      (attempt 150 alice ∷ attempt 250 bob ∷ attempt 200 bob ∷ attempt 200 alice ∷ [])
      (invited [])
    ≡ 2
unfolding create_invite new_invite insert_invite put_sealed seal_record encrypt run_change change
    accept_invite use_invite get_invite find_entries first_record open_record decrypt try_use
    is_valid is_after accept_used grant_share insert_share
twice_only = refl

-- A revocation of which the second statement fails answers that it worked, and the invite is
-- accepted as before.
revoked_in_vain :
    ((revoke_invite env uuid (invited (false ∷ false ∷ true ∷ [])).store).1 ≡ ok tt)
    × (accepted env uuid (revoking ∷ attempt 150 alice ∷ []) (invited (false ∷ false ∷ true ∷ []))
        ≡ 1)
unfolding create_invite new_invite insert_invite put_sealed seal_record encrypt run_change change
    accept_invite use_invite get_invite find_entries first_record open_record decrypt try_use
    is_valid is_after accept_used grant_share insert_share revoke_invite mark_revoked
revoked_in_vain = (refl, refl)

accepted-at_most_example :
    accepted env uuid (attempt 150 alice ∷ revoking ∷ attempt 160 bob ∷ []) (invited []) ≤ 2 - 0
unfolding create_invite new_invite insert_invite put_sealed seal_record encrypt run_change change
    first_record open_record decrypt
accepted-at_most_example =
    accepted-at_most env
      (new_invite (pos 100) uuid (9 ∷ []) (b'a' ∷ b'p' ∷ b'i' ∷ []) read_only (pos 200) 2)
      (attempt 150 alice ∷ revoking ∷ attempt 160 bob ∷ []) (invited []) (omega arith) (omega arith)
      (omega arith) refl

abbrev shared : VolumeSession ToyConn
shared =
    (create_share env (some (pos 1)) bob admin
      (create_share env (some (pos 1)) alice read_write (volume [])).0).0

abbrev alice_share : ShareRecord
alice_share = record {
  user_id = alice;
  telegram_user_id = pos 0;
  display_name = alice;
  access_level = read_write;
  wrapped_key = [];
  granted_at = pos 1;
  active = true;
}

abbrev without_alice : Session ToyConn
without_alice = (revoke_share env alice shared.store).0

toy_pair :
    (p : Bytes × Bytes) (ct secret : Bytes)
    → some p ≡ some (ct, secret)
    → (p.0 ≡ ct) × (p.1 ≡ secret)
toy_pair p ct secret h = (cc, cc)

abbrev twin : ℕ → Bytes × Bytes
twin n = (replicate 32 n, replicate 32 n)

-- The decapsulation key is the encapsulation key with one more byte, and the ciphertext has the
-- secret in the clear.
abbrev toy_kem : Kem
toy_kem = record {
  generate = λ n. (n ∷ n ∷ [], n ∷ []);
  encapsulate = λ n ek. some (twin n);
  decapsulate = λ dk ct. some ct;
  ek_size = 1;
  dk_size = 2;
  ct_size = 32;
  generate_sizes = λ n. (refl, refl);
  encapsulate_sizes = λ n ek ct secret h. (
    ap length (sym (toy_pair (twin n) ct secret h).0),
    ap length (sym (toy_pair (twin n) ct secret h).1),
  );
  agrees = λ n m ct secret h.
      ap some (sym (toy_pair (twin m) ct secret h).0 ∙ (toy_pair (twin m) ct secret h).1);
}

unwrap_key-wrap_key_for_user_example :
    unwrap_key toy_kem toy
      (record {
        kem_ciphertext = replicate 32 4;
        encrypted_key = nonce24 ++ (replicate 16 661 ++ hash32);
      })
      (generate_keypair toy_kem 3).decapsulation_key
      alice
    ≡ ok hash32
unfolding wrap_key_for_user encapsulate generate_keypair encrypt
unwrap_key-wrap_key_for_user_example =
    unwrap_key-wrap_key_for_user toy_kem toy 3 4 nonce24 hash32 alice
      (record {
        kem_ciphertext = replicate 32 4;
        encrypted_key = nonce24 ++ (replicate 16 661 ++ hash32);
      })
      refl refl refl
