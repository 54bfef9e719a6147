-- ===== src/Indexer/Tokens.antt =====
-- Which contracts are tracked, which of their events move balances, and under which name.
use koinos_token_tracker.Base.{ℕ, Bool, true, false, ◌||◌, is_empty, ltb, if◌then◌else◌}
use koinos_token_tracker.Base.Text.{Text, text_eq}
use koinos_token_tracker.Config.{TokenTrackerConfig, is_extra}

unfoldable pub is_token_event : TokenTrackerConfig → Text → Bool
is_token_event cfg source =
    if is_empty source
    then false
    else text_eq source cfg.koin_contract
      || (text_eq source cfg.vhp_contract
          || (text_eq source cfg.old_koin_contract
              || (text_eq source cfg.old_vhp_contract || is_extra cfg source)))

-- The cases of a Go switch are tried in order.
unfoldable pub affects_balance : TokenTrackerConfig → Text → ℕ → Bool
affects_balance cfg source height =
    if text_eq source cfg.koin_contract || text_eq source cfg.old_koin_contract
    then true
    else if text_eq source cfg.vhp_contract
    then true
    else if text_eq source cfg.old_vhp_contract
    then ltb height cfg.kcs4_migration_height
    else is_extra cfg source

unfoldable pub normalize_token : TokenTrackerConfig → Text → Text
normalize_token cfg source =
    if text_eq source cfg.old_koin_contract
    then cfg.koin_contract
    else if text_eq source cfg.old_vhp_contract
    then cfg.vhp_contract
    else source
