-- ===== src/Backend.antt =====
-- `StartConnection`, `StartWireguard` and `startTsnet` of connections.go, wireguard.go and tailscale.go:
-- what a start does, in order, and the tunnel or the error that it returns. The WireGuard device, the
-- netstack and the Tailscale node are third-party code: their answers are the record `World`.
pub mod Gate
pub mod Released
use wireproxy.Base.{
  ℕ, zero, suc, Bool, true, false, ◌||◌, ◌+◌, ltb, Option, none, some, List, [], ◌∷◌, ◌++◌, Outcome,
  ok, err, ℤ, pos, is_empty, if◌then◌else◌,
}
use wireproxy.Config.Types.{
  DeviceConfig, TailscaleConfig, ResolveConfig, Configuration, ConnectionSpec,
}
use wireproxy.Connections.StateDir.{effective_state_dir}
use wireproxy.Host.{Host, Addr}
use wireproxy.Text.{Text, codes, text_eq}
use wireproxy.Wireguard.{DeviceSetting, create_ipc_request, resolve_strategy}

-- `VirtualTun`: whether `Net` is a tailnet, and whether `Tnet` and `Dev` are set.
pub record VirtualTun : Type 0 where
  pub name : Text
  pub is_tailnet : Bool
  pub has_tnet : Bool
  pub has_dev : Bool
  pub system_dns : Bool
  pub conf : DeviceConfig
  pub resolve : ResolveConfig
  pub ping_record : List (Text × ℕ)

-- `no_device` stands for the panic on a configuration with neither backend, which no parser returns.
pub data StartError : Type 0 where
  no_device no_tun ipc_refused not_up no_local_api unsupported endless : StartError
  no_dir not_started : Text → StartError

-- The calls on a device or a node. `made` follows the call that makes it.
pub data Act : Type 0 where
  created_tun : List Addr → List Addr → ℤ → Act
  made_dir : Text → Act
  made : Act
  ipc_set : Text → Act
  brought_up : Act
  started_node : TailscaleConfig → Text → Act
  asked_client gated : Act
  closed : Act

-- What a poll of the node's state answers.
pub data Poll : Type 0 where
  failed : Poll
  in_state : Text → Poll

-- Which calls succeed; `polls` has the answer of each poll and how long it took, in milliseconds.
pub record World : Type 0 where
  pub creates_tun : List Addr → List Addr → ℤ → Bool
  pub sets : Text → Bool
  pub ups : Bool
  pub has_tsnet : Bool
  pub makes_dir : Text → Bool
  pub starts_node : TailscaleConfig → Text → Bool
  pub has_client : Bool
  pub polls : ℕ → Poll × ℕ

abbrev pub Result : Type 0
Result = List Act × Outcome StartError VirtualTun

unfoldable pub wireguard_tun : Configuration → DeviceConfig → VirtualTun
unfolding create_ipc_request resolve_strategy
wireguard_tun conf device =
    let setting = create_ipc_request device in
    record {
      name = conf.name;
      is_tailnet = false;
      has_tnet = true;
      has_dev = true;
      system_dns = is_empty setting.dns;
      conf = device;
      resolve = resolve_strategy conf.resolve setting.device_addr;
      ping_record = [];
    }

unfoldable pub start_device : World → Configuration → DeviceConfig → Result
unfolding create_ipc_request wireguard_tun
start_device w conf device =
    let setting = create_ipc_request device in
    let create = created_tun setting.device_addr setting.dns setting.mtu in
    if w.creates_tun setting.device_addr setting.dns setting.mtu
    then if w.sets setting.ipc_request
      then if w.ups
        then (
          create ∷ made ∷ ipc_set setting.ipc_request ∷ brought_up ∷ [],
          ok (wireguard_tun conf device),
        )
        else (create ∷ made ∷ ipc_set setting.ipc_request ∷ brought_up ∷ closed ∷ [], err not_up)
      else (create ∷ made ∷ ipc_set setting.ipc_request ∷ closed ∷ [], err ipc_refused)
    else (create ∷ [], err no_tun)

unfoldable pub start_wireguard : World → Configuration → Result
unfolding start_device
start_wireguard w conf = elim conf.device [
  | none ↦ ([], err no_device)
  | some device ↦ start_device w conf device
]

-- The loop that waits for the node, on fuel: the milliseconds at the answer of its last poll. The
-- context is done at 15 seconds.
unfoldable pub gate : (ℕ → Poll × ℕ) → ℕ → ℕ → ℕ → Option ℕ
gate polls zero k now = none
gate polls (suc fuel) k now =
    let later = now + (polls k).1 in
    let rest = gate polls fuel (suc k) (later + 250) in
    elim (polls k).0 [
      | failed ↦ some later
      | in_state state ↦
          if text_eq state (codes "Running") || text_eq state (codes "NeedsLogin")
          then some later
          else if ltb 15_000 (later + 250)
          then some later
          else rest
    ]

-- As many polls as fit before the context is done, and one more.
abbrev pub enough_polls : ℕ
enough_polls = 61

abbrev pub empty_device : DeviceConfig
empty_device = record {
  secret_key = [];
  endpoint = [];
  peers = [];
  dns = [];
  mtu = pos 0;
  listen_port = none;
  check_alive = [];
  check_alive_interval = pos 0;
}

abbrev pub tailscale_tun : Text → VirtualTun
tailscale_tun name = record {
  name = name;
  is_tailnet = true;
  has_tnet = false;
  has_dev = false;
  system_dns = false;
  conf = empty_device;
  resolve = record { resolve_strategy = codes "ipv4" };
  ping_record = [];
}

-- The end of `startTsnet`, behind the loop.
abbrev pub gated_tun : Text → List Act → Option ℕ → Result
gated_tun name acts none = (acts, err endless)
gated_tun name acts (some now) = (acts ++ gated ∷ [], ok (tailscale_tun name))

unfoldable pub start_tsnet : Host → World → Text → TailscaleConfig → Result
unfolding gate effective_state_dir
start_tsnet host w name conf =
    let dir = effective_state_dir host conf name in
    if w.has_tsnet
    then if w.makes_dir dir
      then if w.starts_node conf dir
        then if w.has_client
          then gated_tun name (made_dir dir ∷ made ∷ started_node conf dir ∷ asked_client ∷ [])
              (gate w.polls enough_polls 0 0)
          else (
            made_dir dir ∷ made ∷ started_node conf dir ∷ asked_client ∷ closed ∷ [],
            err no_local_api,
          )
        else (
          made_dir dir ∷ made ∷ started_node conf dir ∷ closed ∷ [],
          err (not_started conf.hostname),
        )
      else (made_dir dir ∷ [], err (no_dir dir))
    else ([], err unsupported)

unfoldable pub start_connection : Host → World → ConnectionSpec → Result
unfolding start_tsnet start_wireguard
start_connection host w spec = elim spec.conf.tailscale [
  | some conf ↦ start_tsnet host w spec.name conf
  | none ↦ start_wireguard w spec.conf
]
