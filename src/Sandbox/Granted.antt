-- ===== src/Sandbox/Granted.antt =====
-- The rules are those that the routines need, and no others.
use wireproxy.Base.{
  ℕ, ◌<◌, ◌%◌, ◌≡◌, refl, ap, ◌∙◌, false, some, List, [], ◌∷◌, ◌++◌, ok, >>=-eq-ok, inl, inr,
  Option-cases, Outcome-cases, Bool-cases, ℤ, pos, negsuc, append-nil, append_assoc, arith,
}
use wireproxy.Config.Types.{
  ConnectionSpec, Routine, tcp_client, stdio, tcp_server, socks5, http, sni, udp_proxy,
}
use wireproxy.Connections.StateDir.{needs_open_egress}
use wireproxy.Sandbox.{
  Rule, bind_tcp, connect_tcp, port_of_text, extract_port, bind_rule, add_rule, add_rules,
  add_spec_rules, info_rules, lock_network,
}
use wireproxy.Text.HostPort.RoundTrip.{split_host_port-join_host_port, split_host_port-IsClean}
use wireproxy.Text.HostPort.{split_host_port, join_host_port}
use wireproxy.Text.Numbers.{atoi}
use wireproxy.Text.{Text}

-- The address names this port: its text after the last colon is the number, in decimal.
pub record Names (addr : Text) (port : ℕ) : Type 0 where
  pub host : Text
  pub text : Text
  pub parts : split_host_port addr ≡ some (host, text)
  pub number : atoi text ≡ some (pos port)
  pub in_range : port < 65536

port_of_text_lem :
    (addr : Text) (n : ℤ) (port : ℕ)
    → port_of_text addr (some n) ≡ ok port
    → (n ≡ pos port) × (port < 65536)
port_of_text_lem addr (pos n) port h = ground arith
port_of_text_lem addr (negsuc n) port h = absurd (ground arith)

pub extract_port-Names : (addr : Text) (port : ℕ) → extract_port addr ≡ ok port → Names addr port
unfolding extract_port
extract_port-Names addr port h = elim (Option-cases (split_host_port addr)) [
  | inl bad ↦ absurd (ground arith)
  | inr ((host, text), parts) ↦ elim (Option-cases (atoi text)) [
    | inl bad ↦ absurd (ground arith)
    | inr (n, number) ↦
        let (same, in_range) = port_of_text_lem addr n port (ground arith) in
        record {
          host = host;
          text = text;
          parts = parts;
          number = number ∙ ap some same;
          in_range = in_range;
        }
  ]
]

-- The rules that one routine needs: to bind the port of a TCP listener, to connect to the port of
-- a server tunnel's target, and none for a UDP proxy or a tunnel on stdin and stdout.
abbrev pub BindsPort : Text → List Rule → Type 0
BindsPort addr rules = (port : ℕ) × Names addr port × (rules ≡ bind_tcp port ∷ [])

abbrev pub Needs : Routine → List Rule → Type 0
Needs (tcp_server c) rules = (port : ℕ) × Names c.target port × (rules ≡ connect_tcp port ∷ [])
Needs (http c) rules = BindsPort c.bind_address rules
Needs (socks5 c) rules = BindsPort c.bind_address rules
Needs (sni c) rules = BindsPort c.bind_address rules
Needs (tcp_client c) rules = rules ≡ bind_tcp (c.bind_address.port % 65536) ∷ []
Needs (udp_proxy c) rules = rules ≡ []
Needs (stdio c) rules = rules ≡ []

-- The rules of some routines are those of each, in order.
pub data RulesOf : List Routine → List Rule → Type 0 where
  nil : RulesOf [] []
  cons :
      {r : Routine} {rs : List Routine} {zs : List Rule} (xs ys : List Rule)
      → Needs r xs
      → RulesOf rs ys
      → zs ≡ xs ++ ys
      → RulesOf (r ∷ rs) zs

bind_rule_lem :
    (name addr : Text) (before after : List Rule)
    → bind_rule name addr before ≡ ok after
    → (rules : List Rule) × BindsPort addr rules × (after ≡ before ++ rules)
bind_rule_lem name addr before after h = elim (Outcome-cases (extract_port addr)) [
  | inl (port, found) ↦
      (bind_tcp port ∷ [], (port, extract_port-Names addr port found, refl), ground arith)
  | inr (e, bad) ↦ absurd (ground arith)
]

-- Joining the parts of a target names the port that the target names.
Names-join :
    (target host text : Text) (port : ℕ)
    → split_host_port target ≡ some (host, text)
    → Names (join_host_port host text) port
    → Names target port
Names-join target host text port parts n =
    let joined =
      split_host_port-join_host_port host text (split_host_port-IsClean target host text parts) in
    let same : text ≡ n.text = ground (arith, joined, n.parts) in
    record {
      host = host;
      text = text;
      parts = parts;
      number = ap atoi same ∙ n.number;
      in_range = n.in_range;
    }

add_rule_lem :
    (name : Text) (r : Routine) (before after : List Rule)
    → add_rule name r before ≡ ok after
    → (rules : List Rule) × Needs r rules × (after ≡ before ++ rules)
unfolding add_rule
add_rule_lem name (tcp_server c) before after h = elim (Option-cases (split_host_port c.target)) [
  | inl bad ↦ absurd (ground arith)
  | inr ((host, text), parts) ↦ elim (Outcome-cases (extract_port (join_host_port host text))) [
    | inl (port, found) ↦ (
      connect_tcp port ∷ [],
      (port, Names-join c.target host text port parts (extract_port-Names _ port found), refl),
      ground arith,
    )
    | inr (e, bad) ↦ absurd (ground arith)
  ]
]
add_rule_lem name (http c) before after h = bind_rule_lem name c.bind_address before after h
add_rule_lem name (socks5 c) before after h = bind_rule_lem name c.bind_address before after h
add_rule_lem name (sni c) before after h = bind_rule_lem name c.bind_address before after h
add_rule_lem name (tcp_client c) before after h =
    (bind_tcp (c.bind_address.port % 65536) ∷ [], refl, ground arith)
add_rule_lem name (udp_proxy c) before after h = ([], refl, ground (arith, append-nil before))
add_rule_lem name (stdio c) before after h = ([], refl, ground (arith, append-nil before))

add_rules_lem :
    (name : Text) (rs : List Routine) (before after : List Rule)
    → add_rules name rs before ≡ ok after
    → (rules : List Rule) × RulesOf rs rules × (after ≡ before ++ rules)
unfolding add_rules
add_rules_lem name [] before after h = ([], nil, ground (arith, append-nil before))
add_rules_lem name (r ∷ rs) before after h =
    let (more, p, q) = >>=-eq-ok (add_rule name r before) _ h in
    let (xs, needs, here) = add_rule_lem name r before more p in
    let (ys, rest, later) = add_rules_lem name rs more after q in
    (
      xs ++ ys,
      cons xs ys needs rest refl,
      later ∙ ap (λ t. t ++ ys) here ∙ append_assoc before xs ys,
    )

-- The routines of all connections, in order.
abbrev pub all_routines : List ConnectionSpec → List Routine
all_routines [] = []
all_routines (spec ∷ specs) = spec.conf.routines ++ all_routines specs

RulesOf-append :
    {rs ss : List Routine} {xs ys : List Rule}
    → RulesOf rs xs
    → RulesOf ss ys
    → RulesOf (rs ++ ss) (xs ++ ys)
RulesOf-append nil k = k
RulesOf-append {ys} (cons us vs n h e) k =
    cons us (vs ++ ys) n (RulesOf-append h k) (ap (λ t. t ++ ys) e ∙ append_assoc us vs ys)

add_spec_rules_lem :
    (specs : List ConnectionSpec) (before after : List Rule)
    → add_spec_rules specs before ≡ ok after
    → (rules : List Rule) × RulesOf (all_routines specs) rules × (after ≡ before ++ rules)
unfolding add_spec_rules
add_spec_rules_lem [] before after h = ([], nil, ground (arith, append-nil before))
add_spec_rules_lem (spec ∷ specs) before after h =
    let (more, p, q) = >>=-eq-ok (add_rules spec.name spec.conf.routines before) _ h in
    let (xs, here, e) = add_rules_lem spec.name spec.conf.routines before more p in
    let (ys, rest, f) = add_spec_rules_lem specs more after q in
    (xs ++ ys, RulesOf-append here rest, f ∙ ap (λ t. t ++ ys) e ∙ append_assoc before xs ys)

abbrev pub InfoRules : Text → List Rule → Type 0
InfoRules [] rules = rules ≡ []
InfoRules (c ∷ addr) rules = BindsPort (c ∷ addr) rules

info_rules_lem :
    (info_addr : Text) (rules : List Rule)
    → info_rules info_addr ≡ ok rules
    → InfoRules info_addr rules
unfolding info_rules
info_rules_lem [] rules h = ground arith
info_rules_lem (c ∷ addr) rules h = elim (Outcome-cases (extract_port (c ∷ addr))) [
  | inl (port, found) ↦ (port, extract_port-Names (c ∷ addr) port found, ground arith)
  | inr (e, bad) ↦ absurd (ground arith)
]

-- Where the network is locked down, no connection needs open egress, and the rules are exactly
-- the health endpoint's, if it is asked for, followed by those that the routines of all
-- connections need, in order: nothing else may be bound or connected to.
pub lock_network-RulesOf :
    (specs : List ConnectionSpec) (info_addr : Text) (rules : List Rule)
    → lock_network specs info_addr ≡ ok (some rules)
    → (needs_open_egress specs ≡ false)
      × ((info needed : List Rule) × InfoRules info_addr info
          × RulesOf (all_routines specs) needed
          × (rules ≡ info ++ needed))
unfolding lock_network
lock_network-RulesOf specs info_addr rules h = elim (Bool-cases (needs_open_egress specs)) [
  | inl open' ↦ absurd (ground arith)
  | inr closed ↦
      let h' = rw (closed, lock_network) at h in
      let (info, p, q) = >>=-eq-ok (info_rules info_addr) _ h' in
      let (all', r, s) = >>=-eq-ok (add_spec_rules specs info) _ q in
      let (needed, listed, e) = add_spec_rules_lem specs info all' r in
      (closed, (info, needed, info_rules_lem info_addr info p, listed, ground (arith, e)))
]
