-- ===== src/Core/Config.antt =====
-- app/core/config.py: the validator of `cors_allowed_origins`. A text is the list of its characters;
-- which of them `strip` takes for white space is a parameter.
pub mod Origins
use Prim.Native.Char.{Char, code}
use inventory_management_api.Base.{
  Bool, true, false, not, ◌&&◌, ◌==◌, List, [], ◌∷◌, map, if◌then◌else◌,
}
use inventory_management_api.Base.Rows.{keep}

abbrev pub Text : Type 0
Text = List Char

-- The value that the validator is given.
pub data Value : Type 0 where
  text : Text → Value
  origins : List Text → Value

abbrev pub is_comma : Char → Bool
is_comma c = code c == 44

abbrev pub is_empty : Text → Bool
is_empty [] = true
is_empty (c ∷ cs) = false

-- A character before the first part.
abbrev pub before_first : Char → List Text → List Text
before_first c [] = (c ∷ []) ∷ []
before_first c (part ∷ parts) = (c ∷ part) ∷ parts

-- `value.split(",")`
unfoldable pub split : Text → List Text
split [] = [] ∷ []
split (c ∷ cs) = let parts = split cs in if is_comma c then [] ∷ parts else before_first c parts

module _ (is_space : Char → Bool) where
  unfoldable pub lstrip : Text → Text
  lstrip [] = []
  lstrip (c ∷ cs) = let rest = lstrip cs in if is_space c then rest else c ∷ cs

  unfoldable pub rstrip : Text → Text
  rstrip [] = []
  rstrip (c ∷ cs) = let rest = rstrip cs in if is_space c && is_empty rest then [] else c ∷ rest

  -- `origin.strip()`
  abbrev pub strip : Text → Text
  strip t = rstrip (lstrip t)

  -- `split_comma_separated_origins`
  unfoldable pub split_comma_separated_origins : Value → List Text
  unfolding split lstrip rstrip
  split_comma_separated_origins (text t) = keep (λ o. not (is_empty o)) (map strip (split t))
  split_comma_separated_origins (origins os) = os
