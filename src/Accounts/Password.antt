-- ===== src/Accounts/Password.antt =====
-- server/auth/password.ts over Node's scrypt, Base64 and `Number`.
use proxmoxwhatsapp.Prelude.{
  ℕ, List, [], ◌∷◌, ◌++◌, length, Bool, true, false, not, ◌&&◌, ◌≡◌, ◌↔◌, refl, sym, ap, ◌∙◌,
  Option, some, ◌==◌,
}
use proxmoxwhatsapp.Subnet.Text.{Str, split}
use proxmoxwhatsapp.Subnet.Splitting.{Lacks, split-piece, split-last}
use proxmoxwhatsapp.Web.Text.{codes, eq_str, eq_str_refl, eq_str→eq}
use proxmoxwhatsapp.Accounts.Login.{Crypto}

abbrev pub dollar : ℕ
dollar = 36

-- KEYLEN.
abbrev pub key_length : ℕ
key_length = 64

-- N, R and P as the text of a hash has them.
abbrev pub n_text : Str
n_text = codes "16384"

abbrev pub r_text : Str
r_text = codes "8"

abbrev pub p_text : Str
p_text = codes "1"

-- What Node gives. `Number` is the type of JavaScript's numbers; `number` is `Number(s)`, and none
-- where that is not finite. Where `scrypt` throws, on costs that no hash made here has, its value is
-- left open.
pub record Platform : Type 1 where
  pub Number : Type 0
  pub number : Str → Option Number
  pub cost : ℕ → Number
  pub scrypt : Str → List ℕ → ℕ → Number → Number → Number → List ℕ
  pub to_base64 : List ℕ → Str
  pub from_base64 : Str → List ℕ
  pub hash_token : Str → Str
  -- Documented: a numeral's value; Base64 has no dollar sign and is decoded to what was encoded;
  -- scrypt gives as many bytes as asked for.
  pub number-n : number n_text ≡ some (cost 16384)
  pub number-r : number r_text ≡ some (cost 8)
  pub number-p : number p_text ≡ some (cost 1)
  pub to_base64-Lacks : (bytes : List ℕ) → Lacks dollar (to_base64 bytes)
  pub from_base64-to_base64 : (bytes : List ℕ) → from_base64 (to_base64 bytes) ≡ bytes
  pub length-scrypt :
      (plain : Str) (salt : List ℕ) (len : ℕ)
      → length (scrypt plain salt len (cost 16384) (cost 8) (cost 1)) ≡ len

module _ (node : Platform) where
  -- `salt` is what randomBytes gives.
  unfoldable pub hash_password : List ℕ → Str → Str
  hash_password salt plain =
      let hash = node.scrypt plain salt key_length (node.cost 16384) (node.cost 8) (node.cost 1) in
      codes "scrypt"
      ++ (dollar
          ∷ (n_text
              ++ (dollar
                  ∷ (r_text
                      ++ (dollar
                          ∷ (p_text
                              ++ (dollar
                                  ∷ (node.to_base64 salt ++ (dollar ∷ node.to_base64 hash)))))))))

  -- The comparison of scrypt's bytes with those expected.
  unfoldable pub same_hash : Str → List ℕ → List ℕ → node.Number → node.Number → node.Number → Bool
  same_hash plain salt expected n r p =
      let actual = node.scrypt plain salt (length expected) n r p in
      not (length expected == 0) && (length actual == length expected && eq_str actual expected)

  unfoldable pub verify_costs :
      Str → Option node.Number → Option node.Number → Option node.Number → Str → Str → Bool
  unfolding same_hash
  verify_costs plain (some n) (some r) (some p) salt hash =
      same_hash plain (node.from_base64 salt) (node.from_base64 hash) n r p
  verify_costs plain _ _ _ salt hash = false

  unfoldable pub verify_parts : Str → List Str → Bool
  unfolding verify_costs
  verify_parts plain (tag ∷ (n ∷ (r ∷ (p ∷ (salt ∷ (hash ∷ [])))))) =
      eq_str tag (codes "scrypt")
      && verify_costs plain (node.number n) (node.number r) (node.number p) salt hash
  verify_parts plain _ = false

  unfoldable pub verify_password : Str → Str → Bool
  unfolding verify_parts
  verify_password plain stored = verify_parts plain (split dollar stored)

  -- password.ts and the digest of tokens as the other modules use them.
  abbrev pub node_crypto : Crypto
  node_crypto = record {
    Hash = Str;
    hash_password = hash_password;
    verify_password = verify_password;
    hash_token = node.hash_token;
  }

  split-hash_password :
      (salt : List ℕ) (plain : Str)
      → split dollar (hash_password salt plain)
        ≡ codes "scrypt"
          ∷ (n_text
              ∷ (r_text
                  ∷ (p_text
                      ∷ (node.to_base64 salt
                          ∷ (node.to_base64 (
                                node.scrypt plain salt key_length
                                  (node.cost 16384)
                                  (node.cost 8)
                                  (node.cost 1))
                              ∷ [])))))
  unfolding hash_password
  split-hash_password salt plain =
      let hash = node.scrypt plain salt key_length (node.cost 16384) (node.cost 8) (node.cost 1) in
      rw
        (
          split-piece dollar (codes "scrypt") _ refl,
          split-piece dollar n_text _ refl,
          split-piece dollar r_text _ refl,
          split-piece dollar p_text _ refl,
          split-piece dollar (node.to_base64 salt) _ (node.to_base64-Lacks salt),
          split-last dollar (node.to_base64 hash) (node.to_base64-Lacks hash),
        )
        refl

  -- A password is verified against the text that hashPassword made of a password and a salt exactly
  -- if scrypt gives the same 64 bytes for it as for that password, with that salt and the costs
  -- 16384, 8 and 1.
  pub verify_password-hash_password :
      (salt : List ℕ) (plain tried : Str)
      → (verify_password tried (hash_password salt plain) ≡ true) ↔ (
          node.scrypt tried salt key_length (node.cost 16384) (node.cost 8) (node.cost 1)
          ≡ node.scrypt plain salt key_length (node.cost 16384) (node.cost 8) (node.cost 1))
  unfolding verify_password verify_parts verify_costs same_hash
  verify_password-hash_password salt plain tried =
      let hash = node.scrypt plain salt key_length (node.cost 16384) (node.cost 8) (node.cost 1) in
      let made = node.scrypt tried salt key_length (node.cost 16384) (node.cost 8) (node.cost 1) in
      let compared : verify_password tried (hash_password salt plain) ≡ eq_str made hash =
        rw
          (
            split-hash_password salt plain,
            verify_parts,
            eq_str_refl (codes "scrypt"),
            node.number-n,
            node.number-r,
            node.number-p,
            verify_costs,
            node.from_base64-to_base64 salt,
            node.from_base64-to_base64 hash,
            same_hash,
            node.length-scrypt plain salt key_length,
            node.length-scrypt tried salt key_length,
          )
          refl in
      (
        λ h. eq_str→eq made hash (sym compared ∙ h),
        λ e. compared ∙ (ap (λ bytes. eq_str bytes hash) e ∙ eq_str_refl hash),
      )
