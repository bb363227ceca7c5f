-- ===== src/Password/Laws.antt =====
-- src/passwordHash.ts: what `hashPassword` makes, `verifyPassword` accepts.
use ambit.Common.{
  ℕ, ◌≡◌, ◌<◌, refl, ap, ◌∙◌, true, false, some, List, [], ◌∷◌, String, length, str_eq, template,
  All, Excludes, cut_whole, cut-template, arith,
}
use ambit.Platform.{Platform}
use ambit.Password.{
  key_length, same_bytes, split_rest, split_hash, verify_parts, hash_with, matches_hash,
  verify_password,
}

abbrev pub IsByte : ℕ → Type 0
IsByte b = b < 256

-- What Node documents of hexadecimal text and of scrypt: hexadecimal text holds no colon, is empty for
-- the empty buffer only and reads back as its buffer; scrypt gives as many bytes as it is asked for.
pub record HexLaws (pf : Platform) : Type 0 where
  pub plain : (bs : List ℕ) → All IsByte bs → Excludes b':' (pf.to_hex bs)
  pub back : (bs : List ℕ) → All IsByte bs → pf.from_hex (pf.to_hex bs) ≡ bs
  pub solid : (bs : List ℕ) → All IsByte bs → 0 < length bs → str_eq (pf.to_hex bs) "" ≡ false
  pub derived_bytes : (p : String) (salt : List ℕ) (n : ℕ) → All IsByte (pf.scrypt p salt n)
  pub derived_length : (p : String) (salt : List ℕ) (n : ℕ) → length (pf.scrypt p salt n) ≡ n

pub same_bytes_refl : (bs : List ℕ) → same_bytes bs bs ≡ true
unfolding same_bytes
same_bytes_refl [] = refl
same_bytes_refl (b ∷ bs) = ground (arith, same_bytes_refl bs)

module _ (pf : Platform) (laws : HexLaws pf) where
  split-hash_with :
      (p : String) (salt : List ℕ)
      → All IsByte salt
      → split_hash (hash_with pf p salt)
        ≡ (pf.to_hex salt, some (pf.to_hex (pf.scrypt p salt key_length)))
  unfolding split_hash hash_with template
  split-hash_with p salt bytes =
      let key = pf.scrypt p salt key_length in
      let key_bytes = laws.derived_bytes p salt key_length in
      let whole = cut_whole b':' (pf.to_hex key) (laws.plain key key_bytes) in
      ap split_rest
        (cut-template b':' (pf.to_hex salt) (pf.to_hex key) ":" (laws.plain salt bytes) refl)
      ∙ ap (λ r. (pf.to_hex salt, some r.0)) whole

  matches_hash-own :
      (p : String) (salt : List ℕ)
      → All IsByte salt
      → matches_hash pf p (pf.to_hex salt) (pf.to_hex (pf.scrypt p salt key_length)) ≡ true
  unfolding matches_hash
  matches_hash-own p salt bytes =
      let key = pf.scrypt p salt key_length in
      let long : length key ≡ key_length = laws.derived_length p salt key_length in
      rw (laws.back key (laws.derived_bytes p salt key_length), laws.back salt bytes, long)
        (ground (arith, same_bytes_refl key, long))

  -- The hash of a password, with any salt that is not empty, is accepted with that password.
  pub verify_password-hash_with :
      (p : String) (salt : List ℕ)
      → All IsByte salt
      → 0 < length salt
      → verify_password pf p (hash_with pf p salt) ≡ true
  unfolding verify_password
  verify_password-hash_with p salt bytes some_salt =
      let key = pf.scrypt p salt key_length in
      let long : length key ≡ key_length = laws.derived_length p salt key_length in
      ap (verify_parts pf p) (split-hash_with p salt bytes)
      ∙ rw
          (
            laws.solid salt bytes some_salt,
            laws.solid key (laws.derived_bytes p salt key_length) (omega (arith, long)),
          )
          (matches_hash-own p salt bytes)
