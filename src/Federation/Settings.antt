-- ===== src/Federation/Settings.antt =====
-- The `federation:` block: `PeerConfig`, `FederationConfig` and the checks of `parse_config` in
-- orchestrator/rorch/federation.py, on a block whose values have been converted. Temperatures are in
-- hundredths of a degree and the time-out in hundredths of a second; the texts of the messages are
-- left out.
use selfhosted_runner_swarm.Prelude.{
  Bool, true, false, not, ◌&&◌, ◌||◌, List, [], ◌∷◌, ◌++◌, map, if◌then◌else◌, all, concat_map,
  ◌==◌,
}
use selfhosted_runner_swarm.Prelude.Int.{ℤ, pos, in_range, leb_ℤ}
use selfhosted_runner_swarm.Prelude.Text.{Text, codes, is_space}
use selfhosted_runner_swarm.Prelude.Text.Parts.{behind}
use selfhosted_runner_swarm.Prelude.Dict.{member, text_key}
use selfhosted_runner_swarm.Config.Validation.{is_lower_alnum, is_negative}

pub record PeerConfig : Type 0 where
  pub name : Text
  pub url : Text

pub record FederationConfig : Type 0 where
  pub enabled : Bool
  pub max_temp_c : ℤ
  pub rescue_after_seconds : ℤ
  pub stale_after_seconds : ℤ
  pub timeout_seconds : ℤ
  pub peers : List PeerConfig

-- `FederationConfig()`
abbrev pub default_config : FederationConfig
default_config = record {
  enabled = false;
  max_temp_c = pos 8500;
  rescue_after_seconds = pos 180;
  stale_after_seconds = pos 60;
  timeout_seconds = pos 200;
  peers = [];
}

-- `[a-z0-9][a-z0-9-]*`, matched in full
unfoldable pub is_name : Text → Bool
is_name [] = false
is_name (c ∷ cs) = is_lower_alnum c && all (λ d. is_lower_alnum d || d == b'-') cs

-- `[^\s/]+(/\S*)?`, matched in full, once a character of the host has been seen
unfoldable pub is_host_and_path : Text → Bool
is_host_and_path [] = true
is_host_and_path (c ∷ cs) =
    if c == b'/' then all (λ d. not (is_space d)) cs else not (is_space c) && is_host_and_path cs

unfoldable pub is_host : Text → Bool
unfolding is_host_and_path
is_host [] = false
is_host (c ∷ cs) = not (is_space c || c == b'/') && is_host_and_path cs

unfoldable pub is_peer_url : Text → Bool
unfolding is_host behind
is_peer_url url = is_host (behind (codes "http://") url) || is_host (behind (codes "https://") url)

pub data Complaint : Type 0 where
  bad_max_temp bad_seconds bad_timeout repeated_names no_peers : Complaint
  bad_peer_name bad_peer_url : Text → Complaint

unfoldable pub complain : Bool → Complaint → List Complaint
complain true c = c ∷ []
complain false c = []

unfoldable pub peer_complaints : PeerConfig → List Complaint
unfolding complain is_name is_peer_url
peer_complaints p =
    complain (not (is_name p.name)) (bad_peer_name p.name)
    ++ complain (not (is_peer_url p.url)) (bad_peer_url p.name)

-- `len(set(names)) != len(names)`
unfoldable pub has_repeats : List Text → Bool
unfolding member
has_repeats [] = false
has_repeats (n ∷ ns) = member n ns || has_repeats ns

abbrev is_empty : List PeerConfig → Bool
is_empty [] = true
is_empty (p ∷ ps) = false

unfoldable pub config_errors : FederationConfig → List Complaint
unfolding complain peer_complaints has_repeats
config_errors c =
    complain (not (in_range 3000 11000 c.max_temp_c)) bad_max_temp
    ++ (complain (is_negative c.rescue_after_seconds || leb_ℤ c.stale_after_seconds (pos 0))
          bad_seconds
        ++ (complain (not (in_range 1 1000 c.timeout_seconds)) bad_timeout
            ++ (concat_map peer_complaints c.peers
                ++ (complain (has_repeats (map (λ p. p.name) c.peers)) repeated_names
                    ++ complain (c.enabled && is_empty c.peers) no_peers))))

-- Any error disables the federation.
unfoldable pub parse_config : FederationConfig → FederationConfig × List Complaint
unfolding config_errors
parse_config c = elim (config_errors c) [ [] ↦ (c, []) | e ∷ es ↦ (default_config, e ∷ es) ]
