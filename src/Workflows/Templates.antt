-- ===== src/Workflows/Templates.antt =====
-- `resolve_string` and `resolve_templates` of app/modules/workflows/engine.py: the regular expression
-- `\{\{([^}]+)\}\}` is matched from left to right, and each match gives way to the value at its path.
use Prim.Native.String
use Prim.Native.Char.{code}
use ops_pilot_be.Prelude.{
  ℕ, zero, suc, ◌+◌, Bool, false, ◌&&◌, not, Option, none, some, String, nat_beq, ◌==◌, string_eq,
  if◌then◌else◌,
}
use ops_pilot_be.Workflows.Conditions.{
  Value, Items, Fields, null, bool, num, str, array, dict, nil, cons, end, field, Python,
  get_nested_value, is_null,
}

-- The longest run of characters that are no closing brace, and what follows it.
abbrev pub key_run : String → String
key_run String.[] = ""
key_run (String.◌∷◌ c s) =
    let rest = key_run s in if nat_beq (code c) b'}' then "" else String.◌∷◌ c rest

abbrev pub after_run : String → String
after_run String.[] = ""
after_run (String.◌∷◌ c s) =
    let rest = after_run s in if nat_beq (code c) b'}' then String.◌∷◌ c s else rest

abbrev pub opens : String → Bool
opens String.[] = false
opens (String.◌∷◌ c s) = nat_beq (code c) b'{'

abbrev pub closes : String → Bool
closes String.[] = false
closes (String.◌∷◌ c String.[]) = false
closes (String.◌∷◌ c (String.◌∷◌ d s)) = nat_beq (code c) b'}' && nat_beq (code d) b'}'

abbrev pub tail : String → String
tail String.[] = ""
tail (String.◌∷◌ c s) = s

-- The group of a match that begins with this text.
unfoldable pub match_at : String → Option String
match_at s =
    let inside = tail (tail s) in
    let group = key_run inside in
    if (opens s && opens (tail s)) && (not (group == "") && closes (after_run inside))
    then some group
    else none

-- What is left of a match after its first character: one brace, the group and two braces.
abbrev pub rest_length : String → ℕ
rest_length group = String.count group + 3

module _ (py : Python) where
  unfoldable pub value_text : Value → String
  value_text v = if is_null v then "" else py.to_str v

  unfoldable pub replacer : Value → String → String
  unfolding value_text get_nested_value
  replacer payload group = value_text (get_nested_value py payload (py.strip group))

  -- The substitution, with the number of characters of a match that are still passed over.
  unfoldable pub substitute : Value → ℕ → String → String
  unfolding match_at replacer
  substitute payload n String.[] = ""
  substitute payload (suc n) (String.◌∷◌ c s) = substitute payload n s
  substitute payload zero (String.◌∷◌ c s) = elim (match_at (String.◌∷◌ c s)) [
    | none ↦ String.◌∷◌ c (substitute payload zero s)
    | some group ↦ String.◌++◌ (replacer payload group) (substitute payload (rest_length group) s)
  ]

  unfoldable pub resolve_string : String → Value → String
  unfolding substitute
  resolve_string template payload = substitute payload 0 template

  unfoldable mutual
    unfolding resolve_string

    pub resolve_templates : Value → Value → Value
    resolve_templates null payload = null
    resolve_templates (bool b) payload = bool b
    resolve_templates (num n) payload = num n
    resolve_templates (str s) payload = str (resolve_string s payload)
    resolve_templates (array items) payload = array (resolve_items items payload)
    resolve_templates (dict fields) payload = dict (resolve_fields fields payload)

    pub resolve_items : Items → Value → Items
    resolve_items nil payload = nil
    resolve_items (cons v items) payload =
        cons (resolve_templates v payload) (resolve_items items payload)

    pub resolve_fields : Fields → Value → Fields
    resolve_fields end payload = end
    resolve_fields (field k v fields) payload =
        field k (resolve_templates v payload) (resolve_fields fields payload)
