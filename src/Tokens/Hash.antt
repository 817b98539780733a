-- ===== src/Tokens/Hash.antt =====
-- What `hash_token` gives: text that is never empty and always ASCII.
use oopsys_agent.Base.{
  ℕ, String, ◌≡◌, true, List, [], ◌∷◌, arith, length, is_truthy, is_ascii, hexdigest,
  hexdigest-is_ascii, encode_utf8,
}
use oopsys_agent.Tokens.Defs.{hash_token}

-- `hashlib.sha256` gives 32 bytes.
pub record IsDigest (sha256 : List ℕ → List ℕ) : Type 0 where
  pub length-digest : (bytes : List ℕ) → length (sha256 bytes) ≡ 32

hexdigest-is_truthy : (bytes : List ℕ) → length bytes ≡ 32 → is_truthy (hexdigest bytes) ≡ true
unfolding hexdigest
hexdigest-is_truthy [] h = absurd (omega arith)
hexdigest-is_truthy (b ∷ bytes) h = ground arith

module _ (sha256 : List ℕ → List ℕ) (H : IsDigest sha256) (token : String) where
  pub hash_token-is_truthy : is_truthy (hash_token sha256 token) ≡ true
  unfolding hash_token
  hash_token-is_truthy =
      hexdigest-is_truthy (sha256 (encode_utf8 token)) (H.length-digest (encode_utf8 token))

  pub hash_token-is_ascii : is_ascii (hash_token sha256 token) ≡ true
  unfolding hash_token
  hash_token-is_ascii = hexdigest-is_ascii (sha256 (encode_utf8 token))
