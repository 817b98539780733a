-- ===== src/Api/Security/Access.antt =====
-- Who passes `require_token`.
use text.Mathlib.TextEquality.{eq_iff}
use oopsys_agent.Base.{
  ℕ, String, ◌≡◌, refl, ◌⊎◌, inl, inr, Bool, true, Option, none, some, List, [], ◌∷◌, is_truthy,
  unauthorized, ok, raised, Bool-cases, arith, length, str_eq, token_urlsafe,
  token_urlsafe-is_truthy,
}
use oopsys_agent.Database.{Database, IsLawful, AgentIdentity}
use oopsys_agent.Tokens.{Reads, CreatedToken, hash_token, create_token, verify_token}
use oopsys_agent.Tokens.Hash.{IsDigest}
use oopsys_agent.Tokens.Verify.{select-create_token, verify_token-stored}
use oopsys_agent.Tokens.History.{IsHashed}
use oopsys_agent.Api.Security.Defs.{require_token}

-- Credentials that are there and not empty, and whose digest is the stored one.
abbrev pub Passes : (List ℕ → List ℕ) → Option String → Option AgentIdentity → Type 0
Passes sha256 credentials i =
    (c : String) × (a : AgentIdentity) × (credentials ≡ some c)
    × (is_truthy c ≡ true)
    × (i ≡ some a)
    × (a.token_hash ≡ some (hash_token sha256 c))

module _ (D : Database) (L : IsLawful D) (sha256 : List ℕ → List ℕ) (H : IsDigest sha256) where
  -- The request is let through, or it is answered 401; in both cases nothing is written.
  abbrev Decides : Option String → Option AgentIdentity → D.Db → Type 0
  Decides credentials i db =
      (Passes sha256 credentials i × (require_token D sha256 credentials db ≡ (ok tt, db)))
      ⊎ ((¬ Passes sha256 credentials i)
          × (require_token D sha256 credentials db ≡ (raised unauthorized, db)))

  Decides-stored :
      (c s : String) (a : AgentIdentity) (db : D.Db)
      → D.select_identity 1 db ≡ ok (some a)
      → is_truthy c ≡ true
      → a.token_hash ≡ some (hash_token sha256 s)
      → Decides (some c) (some a) db
  unfolding require_token
  Decides-stored c s a db h full e =
      elim (Bool-cases (str_eq (hash_token sha256 s) (hash_token sha256 c))) [
        | inl same ↦ inl (
          (
            c,
            a,
            refl,
            full,
            refl,
            ground (arith, eq_iff (hash_token sha256 s) (hash_token sha256 c)),
          ),
          ground (arith, verify_token-stored D L sha256 H s c db h e),
        )
        | inr differ ↦ inr (
          (λ (d, b, p, _, q, r).
              ground (arith, eq_iff (hash_token sha256 s) (hash_token sha256 c))),
          ground (arith, verify_token-stored D L sha256 H s c db h e),
        )
      ]

  Decides-full :
      (c : String) (i : Option AgentIdentity) (db : D.Db)
      → D.select_identity 1 db ≡ ok i
      → is_truthy c ≡ true
      → IsHashed sha256 i
      → Decides (some c) i db
  unfolding require_token verify_token
  Decides-full c none db h full hashed = inr ((λ (d, b, p, _, q, r). cc), ground arith)
  Decides-full c (some a) db h full (inl e) =
      inr ((λ (d, b, p, _, q, r). ground arith), ground arith)
  Decides-full c (some a) db h full (inr (s, e)) = Decides-stored c s a db h full e

  -- Where the stored digest, if any, is that of some token, a request is let through exactly if its
  -- credentials are there, are not empty, and have the stored digest; every other request is
  -- answered 401. Nothing is written.
  pub require_token-decides :
      (credentials : Option String) (i : Option AgentIdentity) (db : D.Db)
      → D.select_identity 1 db ≡ ok i
      → IsHashed sha256 i
      → (Passes sha256 credentials i × (require_token D sha256 credentials db ≡ (ok tt, db)))
        ⊎ ((¬ Passes sha256 credentials i)
            × (require_token D sha256 credentials db ≡ (raised unauthorized, db)))
  unfolding require_token
  require_token-decides none i db h hashed = inr ((λ (d, b, p, _, q, r). cc), refl)
  require_token-decides (some c) i db h hashed = elim (Bool-cases (is_truthy c)) [
    | inl full ↦ Decides-full c i db h full hashed
    | inr empty ↦ inr ((λ (d, b, p, full, q, r). ground arith), ground arith)
  ]

  created_truthy : (bytes : List ℕ) → length bytes ≡ 32 → is_truthy (token_urlsafe bytes) ≡ true
  created_truthy [] n = absurd (omega arith)
  created_truthy (b ∷ bytes) n = token_urlsafe-is_truthy b bytes

  -- A token that `create_token` has returned, drawn from 32 random bytes, passes.
  require_token-create_token :
      (label : Option String) (force : Bool) (r : Reads) (db : D.Db) {c : CreatedToken} {db' : D.Db}
      → length r.urandom ≡ 32
      → create_token D label force sha256 r db ≡ (ok c, db')
      → require_token D sha256 (some c.token) db' ≡ (ok tt, db')
  require_token-create_token label force r db {c} {db'} n e =
      let (a, stored, hashed, drawn) = select-create_token D L label force sha256 r db e in
      elim (Decides-stored c.token c.token a db' stored (rw drawn (created_truthy r.urandom n))
        hashed) [
          | inl (_, passed) ↦ passed
          | inr (refused, _) ↦
              absurd
                (refused (c.token, a, refl, rw drawn (created_truthy r.urandom n), refl, hashed))
        ]
