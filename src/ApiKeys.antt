-- ===== src/ApiKeys.antt =====
-- app/modules/api_keys: the keys' service and repository, and `authenticate_api_key`.
pub mod Laws
use Prim.Native.String
use Prim.Native.Char.{code}
use ops_pilot_be.Prelude.{
  Bool, true, false, ◌&&◌, ◌||◌, not, Option, none, some, List, [], ◌∷◌, ◌++◌, String, string_eq,
  nat_eq, nat_beq, ltb, ◌==◌, Result, ok, ◌>>=◌, ◌>>◌, raise_if, or_raise, any, if◌then◌else◌,
}
use ops_pilot_be.Exceptions.{Error, ErrorClass, ops}
use ops_pilot_be.Repository.{get_one_by, create}
use ops_pilot_be.Auth.Models.{Uuid, Time, User}

pub record ApiKey : Type 0 where
  pub id : Uuid
  pub name : String
  pub description : Option String
  pub key_prefix : String
  pub key_hash : String
  pub key_hint : String
  pub business_id : Uuid
  pub created_by : Uuid
  pub is_active : Bool
  pub last_used_at : Option Time
  pub expires_at : Option Time

pub record ApiKeyCreate : Type 0 where
  pub name : String
  pub description : Option String
  pub expires_at : Option Time

-- `text.startswith(prefix)`
unfoldable pub starts_with : String → String → Bool
starts_with String.[] text = true
starts_with (String.◌∷◌ c p) String.[] = false
starts_with (String.◌∷◌ c p) (String.◌∷◌ d text) = nat_beq (code c) (code d) && starts_with p text

-- The primary key and the unique column `key_hash`.
abbrev pub key_clash : ApiKey → ApiKey → Bool
key_clash k l = l.id == k.id || l.key_hash == k.key_hash

-- `sha256` is the hex digest, `last_four` is `raw_key[-4:]`, and `random` what `secrets` drew.
module _ (sha256 last_four : String → String) where
  abbrev pub raw_key_of : String → String
  raw_key_of random = String.◌++◌ "opk_" random

  abbrev pub new_key : Uuid → String → ApiKeyCreate → Uuid → Uuid → ApiKey
  new_key new_id random p b created_by = record {
    id = new_id;
    name = p.name;
    description = p.description;
    key_prefix = "opk_";
    key_hash = sha256 (raw_key_of random);
    key_hint = last_four (raw_key_of random);
    business_id = b;
    created_by = created_by;
    is_active = true;
    last_used_at = none;
    expires_at = p.expires_at;
  }

  -- The answer is the row and the raw key, which is not stored.
  unfoldable pub create_key :
      Uuid
      → String
      → ApiKeyCreate
      → Uuid
      → Uuid
      → List ApiKey
      → Result Error ((ApiKey × String) × List ApiKey)
  create_key new_id random p b created_by keys = do
    (key, keys') ← create key_clash (new_key new_id random p b created_by) keys
    ok ((key, raw_key_of random), keys')

  abbrev pub active_with_hash : String → ApiKey → Bool
  active_with_hash hash k = k.key_hash == hash && k.is_active

  abbrev pub has_expired : Time → Option Time → Bool
  has_expired now none = false
  has_expired now (some expiry) = ltb expiry now

  abbrev pub active_user : Uuid → User → Bool
  active_user i u = u.id == i && u.is_active

  -- `UPDATE … SET last_used_at`
  unfoldable pub touch : Uuid → Time → List ApiKey → List ApiKey
  touch i now [] = []
  touch i now (k ∷ keys) =
      (if k.id == i then record k { last_used_at = some now } else k) ∷ touch i now keys

  unfoldable pub authenticate_api_key :
      Time → String → List User → List ApiKey → Result Error (User × List ApiKey)
  unfolding touch starts_with
  authenticate_api_key now api_key users keys = do
    raise_if (api_key == "" || not (starts_with "opk_" api_key))
        (ops ErrorClass.unauthorized "Invalid API key format.")
    found ← get_one_by (active_with_hash (sha256 api_key)) keys
    key ← or_raise found (ops ErrorClass.unauthorized "API key not found or revoked.")
    raise_if (has_expired now key.expires_at) (ops ErrorClass.unauthorized "API key has expired.")
    owner ← get_one_by (active_user key.created_by) users
    u ←
        or_raise owner
          (ops ErrorClass.unauthorized "API key owner account not found or deactivated.")
    ok (u, touch key.id now keys)

abbrev pub owned_key : Uuid → Uuid → ApiKey → Bool
owned_key i b k = k.id == i && k.business_id == b

-- `UPDATE … SET is_active = false`, and whether it met a row.
unfoldable pub revoke : Uuid → Uuid → List ApiKey → List ApiKey
revoke i b [] = []
revoke i b (k ∷ keys) =
    (if owned_key i b k then record k { is_active = false } else k) ∷ revoke i b keys

unfoldable pub revoke_key : Uuid → Uuid → List ApiKey → Result Error (Unit {0} × List ApiKey)
unfolding revoke
revoke_key i b keys = do
  raise_if (not (any (owned_key i b) keys))
      (ops ErrorClass.not_found "API key not found or already revoked.")
  ok (tt, revoke i b keys)
