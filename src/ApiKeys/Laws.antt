-- ===== src/ApiKeys/Laws.antt =====
-- On `authenticate_api_key` and `revoke_key` of app/modules/api_keys.
use ops_pilot_be.Prelude.{
  inl, inr, ◌≡◌, refl, true, false, ◌||◌, not, List, [], ◌∷◌, String, string_eq, nat_eq, ◌==◌, ok,
  err, some, arith, any, All, Bool-cases,
}
use ops_pilot_be.Exceptions.{Error, ErrorClass, ops}
use ops_pilot_be.Repository.{get_one_by}
use ops_pilot_be.Repository.Rows.{failed, missing, found, query}
use ops_pilot_be.Auth.Models.{Uuid, Time, User}
use ops_pilot_be.ApiKeys.{
  ApiKey, starts_with, active_with_hash, has_expired, active_user, touch, authenticate_api_key,
  owned_key, revoke, revoke_key,
}

-- The hash is that of the business's key `i` alone.
abbrev pub IsOnlyKey : String → Uuid → Uuid → List ApiKey → Type 0
IsOnlyKey hash i b keys =
    All (λ (k : ApiKey). (k.key_hash == hash) ≡ true → owned_key i b k ≡ true) keys

module _ (sha256 last_four : String → String) where
  revoke-inactive :
      (i b : Uuid) (hash : String) (keys : List ApiKey)
      → IsOnlyKey hash i b keys
      → any (active_with_hash sha256 last_four hash) (revoke i b keys) ≡ false
  unfolding revoke
  revoke-inactive i b hash [] h = refl
  revoke-inactive i b hash (k ∷ keys) (only, h) = elim (Bool-cases (owned_key i b k)) [
    | inl mine ↦ rw (mine, revoke-inactive i b hash keys h) (ground arith)
    | inr other ↦ elim (Bool-cases (k.key_hash == hash)) [
      | inl same ↦ cc (rw (only same) at other)
      | inr apart ↦ rw (other, apart) (revoke-inactive i b hash keys h)
    ]
  ]

  -- If every stored key with the digest of a raw key is the business's key `i`, and revoking key `i`
  -- for that business succeeds, then `authenticate_api_key` refuses the raw key at any time.
  pub revoke_key-refuses :
      (i b : Uuid) (now : Time) (raw : String) (users : List User) (keys keys' : List ApiKey)
      → IsOnlyKey (sha256 raw) i b keys
      → revoke_key i b keys ≡ ok (tt, keys')
      → (e : Error) × (authenticate_api_key sha256 last_four now raw users keys' ≡ err e)
  unfolding revoke_key authenticate_api_key
  revoke_key-refuses i b now raw users keys keys' only e =
      elim (Bool-cases (any (owned_key i b) keys)) [
        | inr none_ ↦ cc (rw none_ at e)
        | inl some_ ↦
            let same : keys' ≡ revoke i b keys = cc (rw some_ at e) in
            rw same (refused_by (revoke i b keys) (revoke-inactive i b (sha256 raw) keys only))
      ]
    where
      refused_by :
          (left : List ApiKey)
          → any (active_with_hash sha256 last_four (sha256 raw)) left ≡ false
          → (x : Error) × (authenticate_api_key sha256 last_four now raw users left ≡ err x)
      refused_by left gone = elim (Bool-cases (raw == "" || not (starts_with "opk_" raw))) [
        | inl bad ↦ (ops ErrorClass.unauthorized "Invalid API key format.", rw bad refl)
        | inr good ↦ elim (query (active_with_hash sha256 last_four (sha256 raw)) left) [
          | failed x h ↦ (x, rw (good, h) refl)
          | missing h _ ↦
              (ops ErrorClass.unauthorized "API key not found or revoked.", rw (good, h) refl)
          | found k h _ there ↦ cc (rw there at gone)
        ]
      ]

  -- If an API key is accepted, it has the program's prefix, its digest selects one active key, which
  -- has not expired, the user returned is the key's active creator, and that key's time of last use
  -- alone is changed.
  pub authenticate_api_key-owner :
      (now : Time) (raw : String) (users : List User) (keys keys' : List ApiKey) (u : User)
      → authenticate_api_key sha256 last_four now raw users keys ≡ ok (u, keys')
      → (k : ApiKey) × (get_one_by (active_with_hash sha256 last_four (sha256 raw)) keys
          ≡ ok (some k))
        × (has_expired sha256 last_four now k.expires_at ≡ false)
        × (u.id ≡ k.created_by)
        × (u.is_active ≡ true)
        × (starts_with "opk_" raw ≡ true)
        × (keys' ≡ touch sha256 last_four k.id now keys)
  unfolding authenticate_api_key
  authenticate_api_key-owner now raw users keys keys' u e =
      elim (Bool-cases (raw == "" || not (starts_with "opk_" raw))) [
        | inl bad ↦ cc (rw bad at e)
        | inr good ↦ elim (query (active_with_hash sha256 last_four (sha256 raw)) keys) [
          | failed x h ↦ cc (rw (good, h) at e)
          | missing h _ ↦ cc (rw (good, h) at e)
          | found k h _ _ ↦ elim (Bool-cases (has_expired sha256 last_four now k.expires_at)) [
            | inl late ↦ cc (rw (good, h, late) at e)
            | inr fresh ↦ elim (query (active_user sha256 last_four k.created_by) users) [
              | failed x h' ↦ cc (rw (good, h, fresh, h') at e)
              | missing h' _ ↦ cc (rw (good, h, fresh, h') at e)
              | found v h' acts _ ↦
                  let same : (u ≡ v) × (keys' ≡ touch sha256 last_four k.id now keys) =
                    (cc (rw (good, h, fresh, h') at e), cc (rw (good, h, fresh, h') at e)) in
                  (
                    k,
                    h,
                    fresh,
                    rw same.0 (ground arith),
                    rw same.0 (ground arith),
                    ground arith,
                    same.1,
                  )
            ]
          ]
        ]
      ]
