-- ===== src/Settings.antt =====
-- configs/settings.py and core/watchers/ci_watcher.py: the lists that the environment gives as texts.
pub mod Lists
use wiseorder.Prelude.{
  if◌then◌else◌, String, Bool, not, Option, none, some, List, [], ◌∷◌, map, keep,
}
use wiseorder.Prelude.Text.{split, strip, is_empty}

-- [p.strip() for p in v.split(",") if p.strip()]
unfoldable pub parse_list : String → List String
parse_list v = map strip (keep (λ p. not (is_empty (strip p))) (split "," v))

-- What `watch_paths` is set to: nothing, a text or a list.
pub data Setting : Type 0 where
  unset : Setting
  raw : String → Setting
  given : List String → Setting

-- Settings._split_paths(v)
unfoldable pub split_paths : Setting → List String
unfolding parse_list
split_paths unset = []
split_paths (raw v) = parse_list v
split_paths (given paths) = paths

abbrev pub default_repos : List String
default_repos = "Wise-Est-Systems/wiseorder-protocol" ∷ "Wise-Est-Systems/wiseorder" ∷ []

-- CIWatcher.__init__: the repositories, given WISEORDER_CI_REPOS and the argument `repos`
abbrev or_default : Option (List String) → List String
or_default none = default_repos
or_default (some repos) = repos

unfoldable pub ci_repos : String → Option (List String) → List String
unfolding parse_list
ci_repos env_repos repos =
    if is_empty (strip env_repos) then or_default repos else parse_list env_repos
