-- ===== src/Tokens/History.antt =====
-- What holds of the stored identity across any sequence of calls, failed commits included.
use oopsys_agent.Base.{
  ℕ, String, ◌≡◌, refl, ◌⊎◌, inl, inr, Bool, Option, none, some, List, [], ◌∷◌, arith, is_set, not,
  ◌&&◌, false, Result, ok, raised, Bool-cases, str_eq, token_urlsafe,
}
use oopsys_agent.Database.{Database, IsLawful, AgentIdentity}
use oopsys_agent.Tokens.Defs.{Reads, hash_token, verify_token, with_token, without_token}
use oopsys_agent.Tokens.Hash.{IsDigest}
use oopsys_agent.Tokens.Verify.{verify_token-stored}
use oopsys_agent.Tokens.Spec.{
  Call, agent_id, has_active, revoke, create, verify, reconcile_env, perform, spec, ensured,
  replied, flag, done, verify_spec,
}
use oopsys_agent.Tokens.Refinement.{perform-refines}

snd-replied :
    {A B : Type 0} (g : A → B) (r : Result A) (i : Option AgentIdentity) → (replied g (r, i)).1 ≡ i
snd-replied g (ok a) i = refl
snd-replied g (raised e) i = refl

module _ (sha256 : List ℕ → List ℕ) where
  -- Calls one after the other, each from the database that the one before has left, whether that
  -- returned or raised.
  unfoldable pub serve : (D : Database) → List (Call × Reads) → D.Db → D.Db
  serve D [] db = db
  serve D ((c, r) ∷ calls) db = serve D calls (perform sha256 D c r db).1

  -- The stored digest, if there is one, is that of a token.
  abbrev pub IsHashed : Option AgentIdentity → Type 0
  IsHashed none = Unit
  IsHashed (some a) =
      (a.token_hash ≡ none) ⊎ ((token : String) × (a.token_hash ≡ some (hash_token sha256 token)))

  -- What later identities keep of an identity.
  abbrev pub Continues : AgentIdentity → Option AgentIdentity → Type 0
  Continues a i =
      (b : AgentIdentity) × (i ≡ some b) × (b.agent_id ≡ a.agent_id) × (b.created_at ≡ a.created_at)

  IsHashed-ensured :
      (r : Reads) (i : Option AgentIdentity) → IsHashed i → IsHashed (some (ensured r i))
  IsHashed-ensured r none h = inl refl
  IsHashed-ensured r (some a) h = h

  Continues-ensured :
      (r : Reads) (a : AgentIdentity) (i : Option AgentIdentity)
      → Continues a i
      → Continues a (some (ensured r i))
  Continues-ensured r a i (b, e, s, t) = (b, ground arith, s, t)

  -- A specified call leaves the identity that was there, the one it ensured, that one with a new
  -- token, or the one that was there without its token.
  spec-leaves :
      (c : Call) (r : Reads) (i : Option AgentIdentity)
      → ((spec sha256 c r i).1 ≡ i)
        ⊎ ((spec sha256 c r i).1 ≡ some (ensured r i))
        ⊎ ((token : String) × (label : Option String) × ((spec sha256 c r i).1
              ≡ some (with_token sha256 token label r.now (ensured r i))))
        ⊎ ((spec sha256 c r i).1 ≡ some (without_token (ensured r i)))
  unfolding spec hash_token
  spec-leaves agent_id r i = inr (inl refl)
  spec-leaves has_active r i = inl refl
  spec-leaves revoke r none = inl refl
  spec-leaves revoke r (some a) = elim (Bool-cases (is_set a.token_hash)) [
    | inl held ↦ inr (inr (inr (rw held)))
    | inr free ↦ inl (rw free)
  ]
  spec-leaves (create label force) r i =
      elim (Bool-cases (is_set (ensured r i).token_hash && not force)) [
        | inl held ↦ inr (inl (rw held))
        | inr free ↦ inr (inr (inl (token_urlsafe r.urandom, label, rw free)))
      ]
  spec-leaves (verify token) r i = inl (snd-replied flag (verify_spec sha256 token i) i)
  spec-leaves (reconcile_env token) r i = elim (Bool-cases (is_set (ensured r i).token_hash)) [
    | inl held ↦ inr (inl (rw held (snd-replied (λ (_ : Unit {0}). done) _ (some (ensured r i)))))
    | inr free ↦ inr (inr (inl (token, (ensured r i).token_label, rw free)))
  ]

  spec-IsHashed :
      (c : Call) (r : Reads) (i : Option AgentIdentity)
      → IsHashed i
      → IsHashed (spec sha256 c r i).1
  spec-IsHashed c r i h = elim (spec-leaves c r i) [
    | inl e ↦ rw e h
    | inr (inl e) ↦ rw e (IsHashed-ensured r i h)
    | inr (inr (inl (token, label, e))) ↦ rw e (inr (token, refl))
    | inr (inr (inr e)) ↦ rw e (inl refl)
  ]

  spec-Continues :
      (c : Call) (r : Reads) (a : AgentIdentity) (i : Option AgentIdentity)
      → Continues a i
      → Continues a (spec sha256 c r i).1
  spec-Continues c r a i (b, e, s, t) = elim (spec-leaves c r i) [
    | inl h ↦ rw h (b, e, s, t)
    | inr (inl h) ↦ rw (h, e) (b, refl, s, t)
    | inr (inr (inl (token, label, h))) ↦
        rw (h, e) (with_token sha256 token label r.now b, refl, s, t)
    | inr (inr (inr h)) ↦ rw (h, e) (without_token b, refl, s, t)
  ]

  module _ (D : Database) (L : IsLawful D) where
    -- A property of the identity that the specified calls keep, and the making of an identity
    -- keeps, holds after any sequence of calls.
    serve_induction :
        (P : Option AgentIdentity → Type 0)
        → ((c : Call) (r : Reads) (i : Option AgentIdentity) → P i → P (spec sha256 c r i).1)
        → ((r : Reads) (i : Option AgentIdentity) → P i → P (some (ensured r i)))
        → (calls : List (Call × Reads)) (i : Option AgentIdentity) (db : D.Db)
        → D.select_identity 1 db ≡ ok i
        → P i
        → (j : Option AgentIdentity) × (D.select_identity 1 (serve D calls db) ≡ ok j) × P j
    unfolding serve
    serve_induction P keep make [] i db h p = (i, h, p)
    serve_induction P keep make ((c, r) ∷ calls) i db h p =
        elim (perform-refines D L sha256 c r i db h) [
          | inl s ↦
              serve_induction P keep make calls (spec sha256 c r i).1 _ s.stored (keep c r i p)
          | inr s ↦ elim s.stored [
            | inl e ↦ serve_induction P keep make calls i _ e p
            | inr e ↦ serve_induction P keep make calls (some (ensured r i)) _ e (make r i p)
          ]
        ]

    -- Once there is an identity, no sequence of calls changes its agent id or its creation time,
    -- whatever they reply and whichever of their commits fail, and there is an identity throughout.
    pub serve-Continues :
        (calls : List (Call × Reads)) (a : AgentIdentity) (db : D.Db)
        → D.select_identity 1 db ≡ ok (some a)
        → (b : AgentIdentity) × (D.select_identity 1 (serve D calls db) ≡ ok (some b))
          × (b.agent_id ≡ a.agent_id)
          × (b.created_at ≡ a.created_at)
    serve-Continues calls a db h =
        let (j, stored, (b, e, s, t)) =
          serve_induction (Continues a) (λ c r. spec-Continues c r a) (λ r. Continues-ensured r a)
            calls (some a) db h (a, refl, refl, refl) in
        (b, rw (← e) stored, s, t)

    verify_token-IsHashed :
        IsDigest sha256
        → (token : String) (i : Option AgentIdentity) (db : D.Db) → D.select_identity 1 db ≡ ok i
        → IsHashed i
        → (b : Bool) × (verify_token D sha256 token db ≡ (ok b, db))
    unfolding verify_token
    verify_token-IsHashed H token none db h hashed = (false, ground arith)
    verify_token-IsHashed H token (some a) db h (inl e) = (false, ground arith)
    verify_token-IsHashed H token (some a) db h (inr (s, e)) = (
      str_eq (hash_token sha256 s) (hash_token sha256 token),
      verify_token-stored D L sha256 H s token db h e,
    )

    -- From a database whose stored digest, if any, is that of some token, whatever calls are made and
    -- whichever of their commits fail, `verify_token` then answers, raises nothing and writes nothing.
    pub verify_token-serve :
        IsDigest sha256
        → (calls : List (Call × Reads)) (token : String) (i : Option AgentIdentity) (db : D.Db)
        → D.select_identity 1 db ≡ ok i
        → IsHashed i
        → (b : Bool) × (verify_token D sha256 token (serve D calls db) ≡ (ok b, serve D calls db))
    verify_token-serve H calls token i db h hashed =
        let (j, stored, kept) =
          serve_induction IsHashed spec-IsHashed IsHashed-ensured calls i db h hashed in
        verify_token-IsHashed H token j (serve D calls db) stored kept
