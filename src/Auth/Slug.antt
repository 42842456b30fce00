-- ===== src/Auth/Slug.antt =====
-- `_generate_slug` of app/modules/auth/service.py. The classes `\w` and `\s` of characters and
-- `str.lower` are Python's, and the random suffix is an argument.
use Prim.Native.String.{String, [], ◌∷◌, ◌++◌}
use Prim.Native.Char.{Char, code}
use ops_pilot_be.Prelude.{Bool, true, false, ◌||◌, ◌&&◌, if◌then◌else◌, nat_beq}

pub record CharClasses : Type 0 where
  pub is_word : Char → Bool
  pub is_space : Char → Bool

abbrev pub is_char : Char → Char → Bool
is_char c d = nat_beq (code c) (code d)

-- `re.sub("[^…]", "", text)`
unfoldable pub keep_matching : (Char → Bool) → String → String
keep_matching p [] = []
keep_matching p (c ∷ s) = let rest = keep_matching p s in if p c then c ∷ rest else rest

-- `re.sub("[…]+", "-", text)`: a run becomes one dash. `inside` says that a run is going on.
unfoldable pub squeeze : (Char → Bool) → Bool → String → String
squeeze p inside [] = []
squeeze p inside (c ∷ s) =
    let rest = squeeze p (p c) s in if p c then (if inside then rest else "-" ∷ rest) else c ∷ rest

unfoldable pub strip_left : (Char → Bool) → String → String
strip_left p [] = []
strip_left p (c ∷ s) = let rest = strip_left p s in if p c then rest else c ∷ s

abbrev is_empty : String → Bool
is_empty [] = true
is_empty (c ∷ s) = false

unfoldable pub strip_right : (Char → Bool) → String → String
strip_right p [] = []
strip_right p (c ∷ s) = let rest = strip_right p s in if p c && is_empty rest then [] else c ∷ rest

abbrev pub strip_both : (Char → Bool) → String → String
strip_both p s = strip_right p (strip_left p s)

unfoldable pub generate_slug : CharClasses → (String → String) → String → String → String
unfolding keep_matching squeeze strip_left strip_right
generate_slug k lower suffix name =
    let text = strip_both k.is_space (lower name) in
    let kept = keep_matching (λ c. k.is_word c || k.is_space c || is_char c "-") text in
    let joined = squeeze (λ c. k.is_space c || is_char c "_") false kept in
    let dashed = strip_both (is_char "-") (squeeze (is_char "-") false joined) in
    dashed ++ "-" ++ suffix
