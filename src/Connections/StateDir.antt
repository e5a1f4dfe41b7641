-- ===== src/Connections/StateDir.antt =====
-- `EffectiveStateDir`, `TailscaleStateDirs` and `NeedsOpenEgress`.
use wireproxy.Base.{
  Bool, true, false, not, ◌||◌, Option, none, some, List, [], ◌∷◌, Outcome, ok, err, is_empty, any,
  if◌then◌else◌,
}
use wireproxy.Config.Types.{TailscaleConfig, ConnectionSpec, Routine, socks5, http, sni}
use wireproxy.Host.{Host}
use wireproxy.Text.{Text, codes}

-- `os.UserCacheDir`, or `os.TempDir` where it fails or is empty
abbrev cache_base : Outcome Text Text → Text → Text
cache_base (ok base) temp = if is_empty base then temp else base
cache_base (err e) temp = temp

unfoldable pub effective_state_dir : Host → TailscaleConfig → Text → Text
effective_state_dir host c conn_name =
    if not (is_empty c.state_dir)
    then c.state_dir
    else host.join (
        cache_base host.user_cache_dir host.temp_dir
        ∷ codes "wireproxy"
        ∷ codes "tsnet"
        ∷ conn_name
        ∷ [])

unfoldable pub tailscale_state_dirs : Host → List ConnectionSpec → List Text
unfolding effective_state_dir
tailscale_state_dirs host [] = []
tailscale_state_dirs host (spec ∷ specs) = elim spec.conf.tailscale [
  | none ↦ tailscale_state_dirs host specs
  | some c ↦ effective_state_dir host c spec.name ∷ tailscale_state_dirs host specs
]

-- A proxy with a whitelist dials the other destinations directly.
unfoldable pub is_split_routed : Routine → Bool
is_split_routed (socks5 c) = not (is_empty c.tunnel_domains)
is_split_routed (http c) = not (is_empty c.tunnel_domains)
is_split_routed (sni c) = not (is_empty c.tunnel_domains)
is_split_routed _ = false

abbrev has_value {ℓ} : {A : Type ℓ} → Option A → Bool
has_value none = false
has_value (some a) = true

unfoldable pub needs_open_egress : List ConnectionSpec → Bool
unfolding is_split_routed
needs_open_egress [] = false
needs_open_egress (spec ∷ specs) =
    has_value spec.conf.tailscale
    || any is_split_routed spec.conf.routines
    || needs_open_egress specs
