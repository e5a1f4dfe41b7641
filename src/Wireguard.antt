-- ===== src/Wireguard.antt =====
-- wireguard.go: the IPC request that configures a device, and the choice of an address family.
pub mod Request
use wireproxy.Base.{
  Bool, true, false, not, ◌&&◌, ◌||◌, Option, none, some, List, [], ◌∷◌, ◌++◌, is_empty, any, ℤ,
  if◌then◌else◌,
}
use wireproxy.Config.Types.{DeviceConfig, PeerConfig, ResolveConfig}
use wireproxy.Host.{Addr, Prefix}
use wireproxy.Text.Numbers.{itoa}
use wireproxy.Text.{Text, codes, text_eq}

pub record DeviceSetting : Type 0 where
  pub ipc_request : Text
  pub dns : List Addr
  pub device_addr : List Addr
  pub mtu : ℤ

-- `fmt.Fprintf(&request, "key=%s\n", value)`
abbrev pub write_pair : Text → Text → Text → Text
write_pair request key value = request ++ (key ++ b'=' ∷ (value ++ b'\n' ∷ []))

unfoldable pub write_listen_port : Option ℤ → Text → Text
unfolding itoa
write_listen_port none request = request
write_listen_port (some port) request = write_pair request (codes "listen_port") (itoa port)

unfoldable pub write_endpoint : Option Text → Text → Text
write_endpoint none request = request
write_endpoint (some endpoint) request = write_pair request (codes "endpoint") endpoint

unfoldable pub write_allowed : List Prefix → Text → Text
write_allowed [] request = request
write_allowed (ip ∷ ips) request =
    write_allowed ips (write_pair request (codes "allowed_ip") ip.string)

-- One round of the loop over the peers.
unfoldable pub write_peer : PeerConfig → Text → Text
unfolding write_endpoint write_allowed itoa
write_peer peer request =
    let keyed = write_pair request (codes "public_key") peer.public_key in
    let alive = write_pair keyed (codes "persistent_keepalive_interval") (itoa peer.keep_alive) in
    let shared = write_pair alive (codes "preshared_key") peer.pre_shared_key in
    let ended = write_endpoint peer.endpoint shared in
    if not (is_empty peer.allowed_ips)
    then write_allowed peer.allowed_ips ended
    else ended ++ codes "allowed_ip=0.0.0.0/0\nallowed_ip=::0/0\n"

unfoldable pub write_peers : List PeerConfig → Text → Text
unfolding write_peer
write_peers [] request = request
write_peers (peer ∷ peers) request = write_peers peers (write_peer peer request)

unfoldable pub create_ipc_request : DeviceConfig → DeviceSetting
unfolding write_peers write_listen_port
create_ipc_request conf = record {
  ipc_request =
      write_peers conf.peers
        (write_listen_port conf.listen_port (write_pair [] (codes "private_key") conf.secret_key));
  dns = conf.dns;
  device_addr = conf.endpoint;
  mtu = conf.mtu;
}

-- The local copy of the strategy in `StartWireguard`.
unfoldable pub resolve_strategy : ResolveConfig → List Addr → ResolveConfig
resolve_strategy resolve device_addr =
    let has_v4 = any (λ (a : Addr). a.is_4) device_addr in
    let has_v6 = any (λ (a : Addr). a.is_6) device_addr in
    if text_eq resolve.resolve_strategy (codes "auto")
    then if has_v4 && not has_v6
      then record { resolve_strategy = codes "ipv4" }
      else record { resolve_strategy = codes "ipv6" }
    else resolve
