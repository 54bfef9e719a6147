-- ===== src/Config.antt =====
-- internal/config/config.go: the tracked contracts, the migration height and the extra tokens.
pub mod Extra
pub mod Load
use koinos_token_tracker.Base.{
  ℕ, Bool, ◌||◌, Option, none, some, List, [], ◌∷◌, is_empty, not, ◌&&◌, if◌then◌else◌,
}
use koinos_token_tracker.Base.Text.{Bytes, Text, codes, text_eq}
use koinos_token_tracker.Base.TextSet.{TextSet, member, add}

pub record TokenTrackerConfig : Type 0 where
  pub koin_contract : Text
  pub vhp_contract : Text
  pub old_koin_contract : Text
  pub old_vhp_contract : Text
  pub kcs4_migration_height : ℕ
  pub extra_tokens : TextSet

unfoldable pub is_extra : TokenTrackerConfig → Text → Bool
unfolding member
is_extra c addr = member addr c.extra_tokens

-- Whether the loop of SetExtraTokens passes over the address.
unfoldable pub is_ignored : TokenTrackerConfig → Text → Bool
is_ignored c a =
    is_empty a
    || (text_eq a c.koin_contract
        || (text_eq a c.vhp_contract
            || (text_eq a c.old_koin_contract || text_eq a c.old_vhp_contract)))

pub collect_extra : TokenTrackerConfig → List Text → TextSet → TextSet
unfolding is_ignored add
collect_extra c [] s = s
collect_extra c (a ∷ addrs) s = collect_extra c addrs (if is_ignored c a then s else add a s)

unfoldable pub set_extra_tokens : TokenTrackerConfig → List Text → TokenTrackerConfig
unfolding collect_extra
set_extra_tokens c addrs = record c { extra_tokens = collect_extra c addrs [] }

abbrev pub default_config : TokenTrackerConfig
default_config = record {
  koin_contract = codes "19GYjDBVXU7keLbYvMLazsGQn3GTWHjHkK";
  vhp_contract = codes "12Y5vW6gk8GceH53YfRkRre2Rrcsgw7Naq";
  old_koin_contract = codes "15DJN4a8SgrbGhhGksSBASiSYjGnMU8dGL";
  old_vhp_contract = codes "1AdzuXSpC6K9qtXdCBgD5NUpDNwHjMgrc9";
  kcs4_migration_height = 24804034;
  extra_tokens = [];
}

-- A field that is absent from the YAML section is `none`.
pub record YamlTokenTracker : Type 0 where
  pub koin_contract : Option Text
  pub vhp_contract : Option Text
  pub old_koin_contract : Option Text
  pub old_vhp_contract : Option Text
  pub kcs4_migration_height : Option ℕ

pub data LoadError : Type 0 where
  read_config : LoadError
  parse_config : LoadError

pub data LoadResult : Type 0 where
  loaded : TokenTrackerConfig → LoadResult
  failed : LoadError → LoadResult

-- `if tc.F != nil && *tc.F != "" { cfg.F = *tc.F }`
unfoldable pub text_or : Option Text → Text → Text
text_or none t = t
text_or (some s) t = if is_empty s then t else s

-- `if tc.F != nil { cfg.F = *tc.F }`
unfoldable pub number_or : Option ℕ → ℕ → ℕ
number_or none n = n
number_or (some m) n = m

unfoldable pub overlay : TokenTrackerConfig → YamlTokenTracker → TokenTrackerConfig
unfolding text_or number_or
overlay cfg tc = record cfg {
  koin_contract = text_or tc.koin_contract cfg.koin_contract;
  vhp_contract = text_or tc.vhp_contract cfg.vhp_contract;
  old_koin_contract = text_or tc.old_koin_contract cfg.old_koin_contract;
  old_vhp_contract = text_or tc.old_vhp_contract cfg.old_vhp_contract;
  kcs4_migration_height = number_or tc.kcs4_migration_height cfg.kcs4_migration_height;
}

abbrev parsed : Option YamlTokenTracker → LoadResult
parsed none = failed parse_config
parsed (some tc) = loaded (overlay default_config tc)

abbrev contents : (Bytes → Option YamlTokenTracker) → Option Bytes → LoadResult
contents unmarshal none = failed read_config
contents unmarshal (some bytes) = parsed (unmarshal bytes)

-- os.ReadFile and the token-tracker section that yaml.Unmarshal finds are arguments.
unfoldable pub load : (Text → Option Bytes) → (Bytes → Option YamlTokenTracker) → Text → LoadResult
unfolding overlay
load read_file unmarshal config_path =
    if is_empty config_path
    then loaded default_config
    else contents unmarshal (read_file config_path)
