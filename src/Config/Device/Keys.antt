-- ===== src/Config/Device/Keys.antt =====
-- Key material: what the parsers accept as a WireGuard key.
use wireproxy.Base.{
  ◌+◌, pos, All-concat, length-append, ◌≡◌, refl, List, [], ◌∷◌, ◌++◌, ok, >>=-eq-ok, inl, inr,
  Option-cases, All, arith, length,
}
use wireproxy.Config.Device.{
  no_pre_shared_key, optional_pre_shared_key, optional_endpoint, parse_peer_section,
  parse_peer_sections, parse_interface_section, parse_check_interval,
}
use wireproxy.Config.Keys.{
  parse_string, encode_base64_to_hex, parse_base64_key_to_hex, parse_cidr_net_ip, parse_net_ip,
  int_key_or, int_key_pointer, parse_allowed_ips,
}
use wireproxy.Config.Types.{PeerConfig, DeviceConfig}
use wireproxy.Host.{Host, Section}
use wireproxy.Text.Encoding.Bytes.{
  IsHex, IsHex-all, length-hex_encode, hex_encode-IsHex, base64_decode-AreBytes,
}
use wireproxy.Text.Encoding.{base64_decode, hex_encode}
use wireproxy.Text.{Text, codes}

-- 32 bytes in lower-case hexadecimal
abbrev pub IsKey : Text → Type 0
IsKey key = (length key ≡ 64) × IsHex key

pub encode_base64_to_hex-IsKey :
    (key : Text) {shown : Text} → encode_base64_to_hex key ≡ ok shown → IsKey shown
unfolding encode_base64_to_hex
encode_base64_to_hex-IsKey key {shown} h = elim (Option-cases (base64_decode key)) [
  | inl bad ↦ absurd (ground arith)
  | inr (bytes, good) ↦
      let size : length bytes ≡ 32 = ground arith in
      let same : hex_encode bytes ≡ shown = ground arith in
      rw (← same) (
        omega (arith, length-hex_encode bytes),
        hex_encode-IsHex bytes (base64_decode-AreBytes key good),
      )
]

-- The public key and the pre-shared key of a peer.
pub record HasKeys (peer : PeerConfig) : Type 0 where
  pub public : IsKey peer.public_key
  pub pre_shared : IsKey peer.pre_shared_key

module _ (host : Host) where
  pub parse_base64_key_to_hex-IsKey :
      (section : Section) (key_name : Text) {shown : Text}
      → parse_base64_key_to_hex host section key_name ≡ ok shown
      → IsKey shown
  unfolding parse_base64_key_to_hex
  parse_base64_key_to_hex-IsKey section key_name h =
      let (key, read, encoded) = >>=-eq-ok (parse_string host section key_name) _ h in
      encode_base64_to_hex-IsKey key encoded

  optional_pre_shared_key-IsKey :
      (section : Section) {shown : Text}
      → optional_pre_shared_key host section ≡ ok shown
      → IsKey shown
  optional_pre_shared_key-IsKey section {shown} h =
      elim (Option-cases (section.get_key (codes "PreSharedKey"))) [
        | inl absent ↦
            let same : no_pre_shared_key ≡ shown = ground arith in
            rw (← same) (refl, IsHex-all no_pre_shared_key refl)
        | inr (key, found) ↦ encode_base64_to_hex-IsKey key.string (ground arith)
      ]

  parse_peer_section-HasKeys :
      (section : Section) (peer : PeerConfig)
      → parse_peer_section host section ≡ ok peer
      → HasKeys peer
  unfolding parse_peer_section
  parse_peer_section-HasKeys section peer h =
      let (public, p, h1) =
        >>=-eq-ok (parse_base64_key_to_hex host section (codes "PublicKey")) _ h in
      let (shared, q, h2) = >>=-eq-ok (optional_pre_shared_key host section) _ h1 in
      let (endpoint, r, h3) = >>=-eq-ok (optional_endpoint host section) _ h2 in
      let (alive, s, h4) =
        >>=-eq-ok (int_key_or section (codes "PersistentKeepalive") (pos 0)) _ h3 in
      let (allowed, t, h5) = >>=-eq-ok (parse_allowed_ips host section) _ h4 in
      let same_public : public ≡ peer.public_key = ground arith in
      let same_shared : shared ≡ peer.pre_shared_key = ground arith in
      record {
        public = rw (← same_public) (parse_base64_key_to_hex-IsKey section (codes "PublicKey") p);
        pre_shared = rw (← same_shared) (optional_pre_shared_key-IsKey section q);
      }

  -- Every peer that is added has the keys, and there is one for each section.
  pub parse_peer_sections-HasKeys :
      (sections : List Section) (before after : List PeerConfig)
      → parse_peer_sections host sections before ≡ ok after
      → All HasKeys before
      → All HasKeys after × (length after ≡ length before + length sections)
  unfolding parse_peer_sections
  parse_peer_sections-HasKeys [] before after h a =
      let same : before ≡ after = ground arith in rw (← same) (a, omega arith)
  parse_peer_sections-HasKeys (section ∷ sections) before after h a =
      let (peer, p, later) = >>=-eq-ok (parse_peer_section host section) _ h in
      let (keys, size) =
        parse_peer_sections-HasKeys sections (before ++ peer ∷ []) after later
          (All-concat HasKeys before a (parse_peer_section-HasKeys section peer p)) in
      (keys, omega (arith, size, length-append before (peer ∷ [])))

  -- An `[Interface]` section gives a key and an interval that is the section's own, and leaves the
  -- peers alone.
  pub parse_interface_section_lem :
      (section : Section) (device device' : DeviceConfig)
      → parse_interface_section host section device ≡ ok device'
      → IsKey device'.secret_key
        × (parse_check_interval section device'.check_alive ≡ ok device'.check_alive_interval)
        × (device'.peers ≡ device.peers)
  unfolding parse_interface_section
  parse_interface_section_lem section device device' h =
      let (address, p0, h0) = >>=-eq-ok (parse_cidr_net_ip host section (codes "Address")) _ h in
      let (key, p1, h1) =
        >>=-eq-ok (parse_base64_key_to_hex host section (codes "PrivateKey")) _ h0 in
      let (dns, p2, h2) = >>=-eq-ok (parse_net_ip host section (codes "DNS")) _ h1 in
      let (mtu, p3, h3) = >>=-eq-ok (int_key_or section (codes "MTU") device.mtu) _ h2 in
      let (port, p4, h4) =
        >>=-eq-ok (int_key_pointer section (codes "ListenPort") device.listen_port) _ h3 in
      let (alive, p5, h5) = >>=-eq-ok (parse_net_ip host section (codes "CheckAlive")) _ h4 in
      let (interval, p6, h6) = >>=-eq-ok (parse_check_interval section alive) _ h5 in
      let same : key ≡ device'.secret_key = ground arith in
      (
        rw (← same) (parse_base64_key_to_hex-IsKey section (codes "PrivateKey") p1),
        ground arith,
        ground arith,
      )
