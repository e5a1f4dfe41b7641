-- ===== src/Wireguard/Request.antt =====
-- The IPC request as a list of lines, each a key and its value.
use wireproxy.Base.{
  ◌≡◌, refl, sym, ap, ◌∙◌, not, Option, none, some, List, [], ◌∷◌, ◌++◌, map, ℤ, is_empty,
  append-nil, append_assoc, if◌then◌else◌,
}
use wireproxy.Config.Types.{DeviceConfig, PeerConfig}
use wireproxy.Host.{Prefix}
use wireproxy.Text.Numbers.{itoa}
use wireproxy.Text.Strings.Cut.{unlines}
use wireproxy.Text.{Text, codes}
use wireproxy.Wireguard.{
  write_pair, write_listen_port, write_endpoint, write_allowed, write_peer, write_peers,
  create_ipc_request,
}

-- A key and its value.
abbrev pub Pair : Type 0
Pair = Text × Text

abbrev pub line_of : Pair → Text
line_of (key, value) = key ++ b'=' ∷ value

abbrev pub port_pairs : Option ℤ → List Pair
port_pairs none = []
port_pairs (some port) = (codes "listen_port", itoa port) ∷ []

abbrev pub endpoint_pairs : Option Text → List Pair
endpoint_pairs none = []
endpoint_pairs (some endpoint) = (codes "endpoint", endpoint) ∷ []

abbrev pub prefix_pairs : List Prefix → List Pair
prefix_pairs [] = []
prefix_pairs (ip ∷ ips) = (codes "allowed_ip", ip.string) ∷ prefix_pairs ips

-- Every address, of both families, where the peer names none.
abbrev pub allowed_pairs : List Prefix → List Pair
allowed_pairs [] =
    (codes "allowed_ip", codes "0.0.0.0/0") ∷ (codes "allowed_ip", codes "::0/0") ∷ []
allowed_pairs (ip ∷ ips) = prefix_pairs (ip ∷ ips)

abbrev pub peer_pairs : PeerConfig → List Pair
peer_pairs peer =
    (codes "public_key", peer.public_key)
    ∷ (codes "persistent_keepalive_interval", itoa peer.keep_alive)
    ∷ (codes "preshared_key", peer.pre_shared_key)
    ∷ (endpoint_pairs peer.endpoint ++ allowed_pairs peer.allowed_ips)

abbrev pub peers_pairs : List PeerConfig → List Pair
peers_pairs [] = []
peers_pairs (peer ∷ peers) = peer_pairs peer ++ peers_pairs peers

abbrev pub device_pairs : DeviceConfig → List Pair
device_pairs conf =
    (codes "private_key", conf.secret_key) ∷ (port_pairs conf.listen_port ++ peers_pairs conf.peers)

abbrev pub render : List Pair → Text
render pairs = unlines (map line_of pairs)

render-append : (ps qs : List Pair) → render (ps ++ qs) ≡ render ps ++ render qs
render-append [] qs = refl
render-append (p ∷ ps) qs =
    ap (λ t. line_of p ++ b'\n' ∷ t) (render-append ps qs)
    ∙ sym (append_assoc (line_of p) (b'\n' ∷ render ps) (render qs))

write_pair-render :
    (request key value : Text)
    → write_pair request key value ≡ request ++ render ((key, value) ∷ [])
write_pair-render request key value =
    ap (λ t. request ++ t) (sym (append_assoc key (b'=' ∷ value) (b'\n' ∷ [])))

-- One more pair behind those of a list.
write_pair-after :
    (request key value : Text) (ps : List Pair)
    → write_pair request key value ++ render ps ≡ request ++ render ((key, value) ∷ ps)
write_pair-after request key value ps =
    ap (λ t. t ++ render ps) (write_pair-render request key value)
    ∙ append_assoc request (render ((key, value) ∷ [])) (render ps)
    ∙ ap (λ t. request ++ t) (sym (render-append ((key, value) ∷ []) ps))

write_allowed-render :
    (ips : List Prefix) (request : Text)
    → write_allowed ips request ≡ request ++ render (prefix_pairs ips)
unfolding write_allowed
write_allowed-render [] request = sym (append-nil request)
write_allowed-render (ip ∷ ips) request =
    write_allowed-render ips (write_pair request (codes "allowed_ip") ip.string)
    ∙ write_pair-after request (codes "allowed_ip") ip.string (prefix_pairs ips)

write_endpoint-render :
    (endpoint : Option Text) (request : Text)
    → write_endpoint endpoint request ≡ request ++ render (endpoint_pairs endpoint)
unfolding write_endpoint
write_endpoint-render none request = sym (append-nil request)
write_endpoint-render (some endpoint) request =
    write_pair-render request (codes "endpoint") endpoint

write_listen_port-render :
    (port : Option ℤ) (request : Text)
    → write_listen_port port request ≡ request ++ render (port_pairs port)
unfolding write_listen_port
write_listen_port-render none request = sym (append-nil request)
write_listen_port-render (some port) request =
    write_pair-render request (codes "listen_port") (itoa port)

-- The first three lines of a peer.
abbrev head_pairs : PeerConfig → List Pair
head_pairs peer =
    (codes "public_key", peer.public_key)
    ∷ (codes "persistent_keepalive_interval", itoa peer.keep_alive)
    ∷ (codes "preshared_key", peer.pre_shared_key)
    ∷ []

abbrev write_head : PeerConfig → Text → Text
write_head peer request =
    write_pair
      (write_pair (write_pair request (codes "public_key") peer.public_key)
        (codes "persistent_keepalive_interval") (itoa peer.keep_alive))
      (codes "preshared_key") peer.pre_shared_key

abbrev write_allowed_or_all : List Prefix → Text → Text
write_allowed_or_all ips request =
    if not (is_empty ips)
    then write_allowed ips request
    else request ++ codes "allowed_ip=0.0.0.0/0\nallowed_ip=::0/0\n"

write_head-render :
    (peer : PeerConfig) (request : Text)
    → write_head peer request ≡ request ++ render (head_pairs peer)
write_head-render peer request =
    sym (append-nil (write_head peer request))
    ∙ write_pair-after _ (codes "preshared_key") peer.pre_shared_key []
    ∙ write_pair-after _ (codes "persistent_keepalive_interval") (itoa peer.keep_alive)
        ((codes "preshared_key", peer.pre_shared_key) ∷ [])
    ∙ write_pair-after request (codes "public_key") peer.public_key (
        (codes "persistent_keepalive_interval", itoa peer.keep_alive)
        ∷ (codes "preshared_key", peer.pre_shared_key)
        ∷ [])

write_allowed_or_all-render :
    (ips : List Prefix) (request : Text)
    → write_allowed_or_all ips request ≡ request ++ render (allowed_pairs ips)
write_allowed_or_all-render [] request = refl
write_allowed_or_all-render (ip ∷ ips) request = write_allowed-render (ip ∷ ips) request

write_peer-render :
    (peer : PeerConfig) (request : Text)
    → write_peer peer request ≡ request ++ render (peer_pairs peer)
unfolding write_peer
write_peer-render peer request =
    write_allowed_or_all-render peer.allowed_ips
      (write_endpoint peer.endpoint (write_head peer request))
    ∙ ap (λ t. t ++ render (allowed_pairs peer.allowed_ips))
        (write_endpoint-render peer.endpoint (write_head peer request)
          ∙ ap (λ t. t ++ render (endpoint_pairs peer.endpoint)) (write_head-render peer request))
    ∙ append_assoc (request ++ render (head_pairs peer)) (render (endpoint_pairs peer.endpoint)) _
    ∙ append_assoc request (render (head_pairs peer)) _
    ∙ ap (λ t. request ++ (render (head_pairs peer) ++ t))
        (sym (render-append (endpoint_pairs peer.endpoint) (allowed_pairs peer.allowed_ips)))
    ∙ ap (λ t. request ++ t)
        (sym (
          render-append (head_pairs peer)
            (endpoint_pairs peer.endpoint ++ allowed_pairs peer.allowed_ips)))

write_peers-render :
    (peers : List PeerConfig) (request : Text)
    → write_peers peers request ≡ request ++ render (peers_pairs peers)
unfolding write_peers
write_peers-render [] request = sym (append-nil request)
write_peers-render (peer ∷ peers) request =
    write_peers-render peers (write_peer peer request)
    ∙ ap (λ t. t ++ render (peers_pairs peers)) (write_peer-render peer request)
    ∙ append_assoc request (render (peer_pairs peer)) (render (peers_pairs peers))
    ∙ ap (λ t. request ++ t) (sym (render-append (peer_pairs peer) (peers_pairs peers)))

-- The request is, line by line, the private key, the port if there is one, and for each peer in
-- order its key, its interval, its pre-shared key, its endpoint if there is one, and its allowed
-- prefixes, or both families in full where it has none. The other settings are the device's own.
pub create_ipc_request-render :
    (conf : DeviceConfig)
    → ((create_ipc_request conf).ipc_request ≡ render (device_pairs conf))
      × ((create_ipc_request conf).dns ≡ conf.dns)
      × ((create_ipc_request conf).device_addr ≡ conf.endpoint)
      × ((create_ipc_request conf).mtu ≡ conf.mtu)
unfolding create_ipc_request
create_ipc_request-render conf =
    let key = write_pair [] (codes "private_key") conf.secret_key in
    (
      write_peers-render conf.peers (write_listen_port conf.listen_port key)
          ∙ ap (λ t. t ++ render (peers_pairs conf.peers))
              (write_listen_port-render conf.listen_port key)
          ∙ append_assoc key (render (port_pairs conf.listen_port))
              (render (peers_pairs conf.peers))
          ∙ ap (λ t. key ++ t)
              (sym (render-append (port_pairs conf.listen_port) (peers_pairs conf.peers)))
          ∙ write_pair-after [] (codes "private_key") conf.secret_key
              (port_pairs conf.listen_port ++ peers_pairs conf.peers),
      refl,
      refl,
      refl,
    )
