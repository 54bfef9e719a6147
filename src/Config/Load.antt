-- ===== src/Config/Load.antt =====
-- What Load returns, with the file and its YAML section as arguments.
use koinos_token_tracker.Base.{◌≡◌, refl, false, Option, none, some, [], ◌∷◌, is_empty}
use koinos_token_tracker.Base.Text.{Bytes, Text}
use koinos_token_tracker.Config.{
  TokenTrackerConfig, YamlTokenTracker, default_config, overlay, text_or, LoadResult, loaded,
  failed, parsed, contents, load,
}

abbrev pub HasContracts : TokenTrackerConfig → Type 0
HasContracts c =
    (is_empty c.koin_contract ≡ false)
    × (is_empty c.vhp_contract ≡ false)
    × (is_empty c.old_koin_contract ≡ false)
    × (is_empty c.old_vhp_contract ≡ false)

abbrev pub Outcome : LoadResult → Type 0
Outcome (loaded c) = HasContracts c × (c.extra_tokens ≡ [])
Outcome (failed e) = Unit

text_or-nonempty :
    (o : Option Text) (t : Text) → is_empty t ≡ false → is_empty (text_or o t) ≡ false
unfolding text_or
text_or-nonempty none t h = h
text_or-nonempty (some []) t h = h
text_or-nonempty (some (c ∷ s)) t h = refl

overlay-HasContracts :
    (c : TokenTrackerConfig) (y : YamlTokenTracker) → HasContracts c → HasContracts (overlay c y)
unfolding overlay
overlay-HasContracts c y h = (
  text_or-nonempty y.koin_contract c.koin_contract h.0,
  text_or-nonempty y.vhp_contract c.vhp_contract h.1,
  text_or-nonempty y.old_koin_contract c.old_koin_contract h.2,
  text_or-nonempty y.old_vhp_contract c.old_vhp_contract h.3,
)

parsed-HasContracts : (o : Option YamlTokenTracker) → Outcome (parsed o)
parsed-HasContracts none = tt
parsed-HasContracts (some y) =
    (overlay-HasContracts default_config y (refl, refl, refl, refl), unfold overlay in refl)

contents-HasContracts :
    (unmarshal : Bytes → Option YamlTokenTracker) (o : Option Bytes)
    → Outcome (contents unmarshal o)
contents-HasContracts unmarshal none = tt
contents-HasContracts unmarshal (some b) = parsed-HasContracts (unmarshal b)

module _ (read_file : Text → Option Bytes) (unmarshal : Bytes → Option YamlTokenTracker) where
  -- Whatever the file says, a loaded configuration has four contracts that are not blank, and no
  -- extra token.
  pub load-HasContracts : (path : Text) → Outcome (load read_file unmarshal path)
  unfolding load
  load-HasContracts [] = ((refl, refl, refl, refl), refl)
  load-HasContracts (c ∷ path) = contents-HasContracts unmarshal (read_file (c ∷ path))
