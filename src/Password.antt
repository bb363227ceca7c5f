-- ===== src/Password.antt =====
-- src/passwordHash.ts: salted scrypt hashes. The salt is drawn by the caller of `hash_with`.
pub mod Laws
use ambit.Common.{
  ℕ, Bool, true, false, ◌&&◌, Option, none, some, List, [], ◌∷◌, String, ◌==◌, length, str_eq, cut,
  template, if◌then◌else◌,
}
use ambit.Platform.{Platform}

abbrev pub salt_bytes : ℕ
salt_bytes = 16

abbrev pub key_length : ℕ
key_length = 64

-- `timingSafeEqual` on buffers of one length.
unfoldable pub same_bytes : List ℕ → List ℕ → Bool
same_bytes [] [] = true
same_bytes (a ∷ as') (b ∷ bs) = a == b && same_bytes as' bs
same_bytes _ _ = false

abbrev pub split_rest : String × Option String → String × Option String
split_rest (salt, none) = (salt, none)
split_rest (salt, some rest) = (salt, some (cut b':' rest).0)

-- `storedHash.split(":")`, of which the first two parts are used: what stands before the first
-- colon, and between it and the next.
unfoldable pub split_hash : String → String × Option String
unfolding cut
split_hash stored = split_rest (cut b':' stored)

module _ (pf : Platform) where
  -- `hashPassword`, with the salt that it draws.
  unfoldable pub hash_with : String → List ℕ → String
  hash_with plaintext salt =
      template (pf.to_hex salt ∷ ":" ∷ pf.to_hex (pf.scrypt plaintext salt key_length) ∷ [])

  -- The comparison of `verifyPassword`, past its guard.
  unfoldable pub matches_hash : String → String → String → Bool
  unfolding same_bytes
  matches_hash plaintext salt_hex hash_hex =
      let expected = pf.from_hex hash_hex in
      let actual = pf.scrypt plaintext (pf.from_hex salt_hex) (length expected) in
      length actual == length expected && same_bytes actual expected

  -- `verifyPassword`, from the two parts on.
  unfoldable pub verify_parts : String → String × Option String → Bool
  unfolding matches_hash
  verify_parts plaintext (salt_hex, none) = false
  verify_parts plaintext (salt_hex, some hash_hex) =
      if str_eq salt_hex ""
      then false
      else if str_eq hash_hex ""
      then false
      else matches_hash plaintext salt_hex hash_hex

  -- `verifyPassword`
  unfoldable pub verify_password : String → String → Bool
  unfolding split_hash verify_parts
  verify_password plaintext stored = verify_parts plaintext (split_hash stored)
