-- ===== src/Core/Config/Origins.antt =====
-- A list of origins, and its form in the environment.
use Prim.Native.Char.{Char, char}
use inventory_management_api.Base.{◌≡◌, refl, ◌∙◌, ap, Bool, false, not, List, [], ◌∷◌, ◌++◌, map}
use inventory_management_api.Base.Rows.{All, keep}
use inventory_management_api.Core.Config.{
  Text, text, is_comma, is_empty, split, lstrip, rstrip, strip, split_comma_separated_origins,
}

abbrev comma : Char
comma = char 44 tt

-- `",".join(…)`
abbrev pub join : List Text → Text
join [] = []
join (o ∷ []) = o
join (o ∷ o' ∷ os) = o ++ comma ∷ join (o' ∷ os)

split-plain : (o : Text) → All (λ c. is_comma c ≡ false) o → split o ≡ o ∷ []
unfolding split
split-plain [] h = refl
split-plain (c ∷ cs) (h, hs) = rw (h, split-plain cs hs) refl

split-comma :
    (o rest : Text) → All (λ c. is_comma c ≡ false) o → split (o ++ comma ∷ rest) ≡ o ∷ split rest
unfolding split
split-comma [] rest h = refl
split-comma (c ∷ cs) rest (h, hs) = rw (h, split-comma cs rest hs) refl

module _ (is_space : Char → Bool) where
  -- An origin: some characters, none of them a comma or white space.
  pub record IsPlain (o : Text) : Type 0 where
    pub filled : is_empty o ≡ false
    pub no_comma : All (λ c. is_comma c ≡ false) o
    pub no_space : All (λ c. is_space c ≡ false) o

  rstrip-plain : (o : Text) → All (λ c. is_space c ≡ false) o → rstrip is_space o ≡ o
  unfolding rstrip
  rstrip-plain [] h = refl
  rstrip-plain (c ∷ cs) (h, hs) = rw (h, rstrip-plain cs hs) refl

  lstrip-plain : (o : Text) → All (λ c. is_space c ≡ false) o → lstrip is_space o ≡ o
  unfolding lstrip
  lstrip-plain [] h = refl
  lstrip-plain (c ∷ cs) (h, hs) = rw h refl

  strip-plain : (o : Text) → IsPlain o → strip is_space o ≡ o
  strip-plain o p = ap (rstrip is_space) (lstrip-plain o p.no_space) ∙ rstrip-plain o p.no_space

  stripped : Text → List Text
  stripped t = keep (λ o. not (is_empty o)) (map (strip is_space) (split t))

  -- Origins that are joined by commas are read back, each as it was and in their order.
  pub split_comma_separated_origins-join :
      (os : List Text)
      → All IsPlain os
      → split_comma_separated_origins is_space (text (join os)) ≡ os
  unfolding split_comma_separated_origins
  split_comma_separated_origins-join [] h = unfold split lstrip rstrip in refl
  split_comma_separated_origins-join (o ∷ []) (p, h) =
      rw (split-plain o p.no_comma, strip-plain o p, p.filled) refl
  split_comma_separated_origins-join (o ∷ o' ∷ os) (p, h) =
      rw (split-comma o (join (o' ∷ os)) p.no_comma, strip-plain o p, p.filled)
        (ap (λ l. o ∷ l) (split_comma_separated_origins-join (o' ∷ os) h))
