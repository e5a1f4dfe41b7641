-- ===== src/Main/Watch/Readied.antt =====
-- The last stage of `lock` and what leads to it, from the decision on the network.
use wireproxy.Base.{
  >>=-eq-ok, ◌≡◌, refl, Bool, true, false, Option, none, some, List, [], ◌∷◌, ◌++◌, ok, inl, inr,
  Bool-cases, all, arith,
}
use wireproxy.Config.Types.{ConnectionSpec}
use wireproxy.Connections.StateDir.{tailscale_state_dirs}
use wireproxy.Main.{World, run_bound, make_dirs, ready_options, run_ready}
use wireproxy.Sandbox.Stages.{ready, Act, ready_promises, lock}
use wireproxy.Sandbox.{Rule, info_rules, add_spec_rules, lock_network}
use wireproxy.Connections.StateDir.{needs_open_egress}
use wireproxy.Text.{Text, text_eq}
use wireproxy.Main.Watch.{Watch, is_among, is_decided, is_confined, is_safe}
use wireproxy.Main.Watch.Locked.{run_bound-is_safe}
use wireproxy.Main.Watch.Made.{path_rules-exist, made_after, all_made}

-- Before the paths are restricted.
abbrev pub going : Bool → List Text → Bool → List Text → Watch
going egress held net made = record {
  open_egress = egress;
  promises = some held;
  net = net;
  paths = false;
  made = made;
}

ready-is_confined :
    (egress write : Bool) (made : List Text)
    → is_confined (record {
      open_egress = egress;
      promises = some (ready_promises write);
      net = true;
      paths = true;
      made = made;
    })
      ≡ true
unfolding is_confined text_eq
ready-is_confined egress true made = refl
ready-is_confined egress false made = refl

-- The network is left alone exactly where the connections need open egress.
pub lock_network-is_decided :
    (specs : List ConnectionSpec) (info : Text) (rules : Option (List Rule))
    → lock_network specs info ≡ ok rules
    → is_decided (needs_open_egress specs) rules ≡ true
unfolding lock_network
lock_network-is_decided specs info rules h = elim (Bool-cases (needs_open_egress specs)) [
  | inl wide ↦ let same : none ≡ rules = ground arith in rw wide (rw (← same) refl)
  | inr closed ↦
      let (first, p, h0) = >>=-eq-ok (info_rules info) _ (rw (closed, lock_network) at h) in
      let (all_rules, p0, h1) = >>=-eq-ok (add_spec_rules specs first) _ h0 in
      let same : some all_rules ≡ rules = ground arith in rw closed (rw (← same) refl)
]

-- From the pledge of an earlier stage on.
module _ (egress : Bool) (held : List Text)
    (enough : (write : Bool) → all (is_among held) (ready_promises write) ≡ true) where
  ready-is_safe :
      (world : World) (exe info : Text) (specs : List ConnectionSpec) (made : List Text)
      → all (is_among made) (tailscale_state_dirs world.host specs) ≡ true
      → is_safe
          (going egress held true made)
          (lock exe ready (ready_options world specs) ++ run_bound world info specs)
        ≡ true
  unfolding is_safe lock
  ready-is_safe world exe info specs made h = ground (
    arith,
    enough (ready_options world specs).needs_write_access,
    path_rules-exist made (ready_options world specs) h,
    run_bound-is_safe
        (record {
          open_egress = egress;
          promises = some (ready_promises (ready_options world specs).needs_write_access);
          net = true;
          paths = true;
          made = made;
        })
        (ready-is_confined egress (ready_options world specs).needs_write_access made) world info
        specs,
  )

  make_dirs-is_safe :
      (world : World) (dirs made : List Text) (next : List Act)
      → is_safe (going egress held true (made_after made dirs)) next ≡ true
      → is_safe (going egress held true made) (make_dirs world dirs next) ≡ true
  unfolding is_safe make_dirs
  make_dirs-is_safe world [] made next h = h
  make_dirs-is_safe world (dir ∷ dirs) made next h = elim (Bool-cases (world.mkdir_all dir)) [
    | inl makes ↦ rw makes (make_dirs-is_safe world dirs (dir ∷ made) next h)
    | inr fails ↦ rw fails
  ]

  pub run_ready-is_safe :
      (world : World) (exe info : Text) (specs : List ConnectionSpec)
      → is_safe (going egress held true []) (run_ready world exe info specs) ≡ true
  unfolding run_ready
  run_ready-is_safe world exe info specs =
      let dirs = tailscale_state_dirs world.host specs in
      make_dirs-is_safe world dirs []
        (lock exe ready (ready_options world specs) ++ run_bound world info specs)
        (ready-is_safe world exe info specs (made_after [] dirs) (all_made dirs []))
