-- ===== src/Config/Extra.antt =====
-- The extra tokens of a configuration.
use koinos_token_tracker.Base.{◌≡◌, ◌&&◌, ◌||◌, not, List, [], ◌∷◌, arith}
use koinos_token_tracker.Base.Text.{Text, text_eq_iff}
use koinos_token_tracker.Base.TextSet.{TextSet, member, add, member-add}
use koinos_token_tracker.Config.{
  TokenTrackerConfig, is_extra, is_ignored, collect_extra, set_extra_tokens,
}

member-collect_extra :
    (c : TokenTrackerConfig) (a : Text) (addrs : List Text) (s : TextSet)
    → member a (collect_extra c addrs s) ≡ (member a s || (not (is_ignored c a) && member a addrs))
unfolding collect_extra
member-collect_extra c a [] s = unfold member in ground arith
member-collect_extra c a (x ∷ addrs) s =
    unfold member in
    ground (
      arith,
      member-collect_extra c a addrs s,
      member-collect_extra c a addrs (add x s),
      member-add a x s,
      text_eq_iff x a,
    )

-- After SetExtraTokens an address is extra exactly if it was listed, is not blank and is none of
-- the four KOIN and VHP contracts, whatever was extra before.
pub is_extra-set_extra_tokens :
    (c : TokenTrackerConfig) (addrs : List Text) (a : Text)
    → is_extra (set_extra_tokens c addrs) a ≡ (not (is_ignored c a) && member a addrs)
unfolding is_extra set_extra_tokens
is_extra-set_extra_tokens c addrs a = member-collect_extra c a addrs []
