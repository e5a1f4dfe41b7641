-- ===== src/Backend/Released.antt =====
-- The device or the node that a start makes, uses and closes.
use wireproxy.Backend.Gate.{gate-ends}
use wireproxy.Backend.{
  VirtualTun, StartError, endless, no_device, no_tun, ipc_refused, not_up, no_local_api,
  unsupported, no_dir, not_started, start_device, Act, created_tun, made_dir, made, ipc_set,
  brought_up, started_node, asked_client, gated, closed, World, Result, wireguard_tun,
  start_wireguard, enough_polls, tailscale_tun, start_tsnet, start_connection,
}
use wireproxy.Base.{
  ◌⊎◌, ◌≡◌, ◌≢◌, refl, true, false, Bool, Option, none, some, List, [], ◌∷◌, ok, err, inl, inr,
  Bool-cases, Option-cases, is_some, not, arith,
}
use wireproxy.Config.Types.{Configuration, ConnectionSpec, DeviceConfig, TailscaleConfig}
use wireproxy.Connections.StateDir.{effective_state_dir}
use wireproxy.Host.{Host}
use wireproxy.Text.{Text}
use wireproxy.Traffic.{Hold, absent, in_hand, shut}
use wireproxy.Wireguard.{create_ipc_request}

-- The device or the node after an act; none where it is used, but not in hand, or made twice.
unfoldable pub hold : Act → Hold → Option Hold
hold (created_tun a d m) h = some h
hold (made_dir dir) h = some h
hold made h = elim h [ absent ↦ some in_hand | _ ↦ none ]
hold closed h = elim h [ in_hand ↦ some shut | _ ↦ none ]
hold (ipc_set request) h = elim h [ in_hand ↦ some in_hand | _ ↦ none ]
hold brought_up h = elim h [ in_hand ↦ some in_hand | _ ↦ none ]
hold (started_node conf dir) h = elim h [ in_hand ↦ some in_hand | _ ↦ none ]
hold asked_client h = elim h [ in_hand ↦ some in_hand | _ ↦ none ]
hold gated h = elim h [ in_hand ↦ some in_hand | _ ↦ none ]

unfoldable pub hold_all : List Act → Hold → Option Hold
unfolding hold
hold_all [] h = some h
hold_all (act ∷ acts) h = elim (hold act h) [ none ↦ none | some next ↦ hold_all acts next ]

-- A tunnel has the netstack and the device exactly where it is no tailnet.
abbrev pub HasBackend : Bool → VirtualTun → Type 0
HasBackend is_tailnet vt =
    (vt.is_tailnet ≡ is_tailnet) × (vt.has_dev ≡ not is_tailnet) × (vt.has_tnet ≡ not is_tailnet)

-- The device or node is used only between its making and its closing, and is in hand at the end for
-- a tunnel, whose backend is the one asked for, and closed or never made for an error, which is
-- never that the wait for a node does not end.
pub Keeps : Bool → Result → Type 0
unfolding hold_all
Keeps is_tailnet (acts, ok vt) = (hold_all acts absent ≡ some in_hand) × HasBackend is_tailnet vt
Keeps is_tailnet (acts, err e) =
    ((hold_all acts absent ≡ some shut) ⊎ (hold_all acts absent ≡ some absent)) × (e ≢ endless)

module _ (is_tailnet : Bool) (acts : List Act) where
  starts-Keeps :
      (vt : VirtualTun)
      → hold_all acts absent ≡ some in_hand
      → HasBackend is_tailnet vt
      → Keeps is_tailnet (acts, ok vt)
  unfolding Keeps
  starts-Keeps vt h b = (h, b)

  closes-Keeps :
      (e : StartError)
      → hold_all acts absent ≡ some shut
      → e ≢ endless
      → Keeps is_tailnet (acts, err e)
  unfolding Keeps
  closes-Keeps e h n = (inl h, n)

  makes_none-Keeps :
      (e : StartError)
      → hold_all acts absent ≡ some absent
      → e ≢ endless
      → Keeps is_tailnet (acts, err e)
  unfolding Keeps
  makes_none-Keeps e h n = (inr h, n)

device-Keeps :
    (w : World) (conf : Configuration) (device : DeviceConfig)
    → Keeps false (start_device w conf device)
unfolding start_device hold_all wireguard_tun
device-Keeps w conf device =
    let setting = create_ipc_request device in
    elim (Bool-cases (w.creates_tun setting.device_addr setting.dns setting.mtu)) [
      | inr fails ↦ rw fails (makes_none-Keeps false _ no_tun refl (λ e. cc e))
      | inl creates ↦ elim (Bool-cases (w.sets setting.ipc_request)) [
        | inr refuses ↦ rw creates (rw refuses (closes-Keeps false _ ipc_refused refl (λ e. cc e)))
        | inl sets ↦ elim (Bool-cases w.ups) [
          | inr down ↦ rw creates (rw sets (rw down (closes-Keeps false _ not_up refl (λ e. cc e))))
          | inl ups ↦ rw creates (
              rw sets
                (rw ups (starts-Keeps false _ (wireguard_tun conf device) refl (refl, refl, refl))))
        ]
      ]
    ]

wireguard-Keeps : (w : World) (conf : Configuration) → Keeps false (start_wireguard w conf)
unfolding start_wireguard hold_all
wireguard-Keeps w conf = elim (Option-cases conf.device) [
  | inl without ↦ rw without (makes_none-Keeps false [] no_device refl (λ e. cc e))
  | inr (device, found) ↦ rw found (device-Keeps w conf device)
]

tsnet-Keeps :
    (host : Host) (w : World) (name : Text) (conf : TailscaleConfig)
    → Keeps true (start_tsnet host w name conf)
unfolding start_tsnet hold_all
tsnet-Keeps host w name conf =
    let dir = effective_state_dir host conf name in
    let (now, ends) = gate-ends w.polls enough_polls 0 0 (omega arith) (omega arith) in
    elim (Bool-cases w.has_tsnet) [
      | inr without ↦ rw without (makes_none-Keeps true [] unsupported refl (λ e. cc e))
      | inl built ↦ elim (Bool-cases (w.makes_dir dir)) [
        | inr fails ↦ rw built (rw fails (makes_none-Keeps true _ (no_dir dir) refl (λ e. cc e)))
        | inl makes ↦ elim (Bool-cases (w.starts_node conf dir)) [
          | inr fails ↦ rw built (
              rw makes
                (rw fails (closes-Keeps true _ (not_started conf.hostname) refl (λ e. cc e))))
          | inl starts ↦ elim (Bool-cases w.has_client) [
            | inr fails ↦ rw built (
                rw makes (rw starts (rw fails (closes-Keeps true _ no_local_api refl (λ e. cc e)))))
            | inl client ↦ rw built (
                rw makes (
                  rw starts (
                    rw client (
                      rw ends (starts-Keeps true _ (tailscale_tun name) refl (refl, refl, refl))))))
          ]
        ]
      ]
    ]

-- Whatever the calls answer, a start returns: with a tunnel of the backend that the connection asks
-- for, whose device or node has been used only once made and is not closed, or with an error, and
-- then every device or node that was made has been closed, once and last.
pub start_connection-Keeps :
    (host : Host) (w : World) (spec : ConnectionSpec)
    → Keeps (is_some spec.conf.tailscale) (start_connection host w spec)
unfolding start_connection
start_connection-Keeps host w spec = elim (Option-cases spec.conf.tailscale) [
  | inl wireguard ↦ rw wireguard (wireguard-Keeps w spec.conf)
  | inr (conf, tailnet) ↦ rw tailnet (tsnet-Keeps host w spec.name conf)
]
