-- ===== src/Connections/Validate/Dirs.antt =====
-- The state directories of Tailscale connections, in the loop over the connections.
use wireproxy.Base.Fresh.{IsFresh, FreshRun, cons?}
use wireproxy.Base.{
  ◌≡◌, refl, false, Option, none, some, List, [], ◌∷◌, ℤ, is_empty, arith, if◌then◌else◌,
}
use wireproxy.Config.Types.{ConnectionSpec, TailscaleConfig}
use wireproxy.Connections.StateDir.{effective_state_dir}
use wireproxy.Connections.Validate.Rounds.{with_node, with_port, state_dir, IsUnused}
use wireproxy.Connections.Validate.{Seen, is_in, find}
use wireproxy.Host.{Host}
use wireproxy.Text.{Text, text_eq, text_eq_iff}

abbrev pub dir_of : Host → ConnectionSpec → Option Text
dir_of host spec = state_dir host spec.name spec.conf.tailscale

-- The state directories behind one connection.
abbrev pub dirs_after : Host → ConnectionSpec → List (Text × Text) → List (Text × Text)
dirs_after host spec m = elim spec.conf.tailscale [
  | none ↦ m
  | some c ↦ (effective_state_dir host c spec.name, spec.name) ∷ m
]

pub after_spec-dirs :
    (host : Host) (name : Text) (node : Option TailscaleConfig) (port : Option ℤ) (seen : Seen)
    → (with_port name port (with_node host name node seen)).state_dirs ≡ elim node [
      | none ↦ seen.state_dirs
      | some c ↦ (effective_state_dir host c name, name) ∷ seen.state_dirs
    ]
after_spec-dirs host name none none seen = refl
after_spec-dirs host name none (some port) seen = refl
after_spec-dirs host name (some c) none seen = refl
after_spec-dirs host name (some c) (some port) seen = refl

-- The loop comes to unused directories.
abbrev pub DirsRun : Host → List (Text × Text) → List ConnectionSpec → Type 0
DirsRun host m [] = Unit
DirsRun host m (spec ∷ specs) =
    IsUnused (dir_of host spec) m × DirsRun host (dirs_after host spec m) specs

-- A directory that is not among the keys is not in the map.
abbrev Knows : List Text → List (Text × Text) → Type 0
Knows ks m = (d : Text) → is_empty d ≡ false → is_in d ks ≡ false → find d m ≡ none

dir-step :
    (host : Host) (name : Text) (node : Option TailscaleConfig) (ks : List Text)
    (m : List (Text × Text))
    → Knows ks m
    → IsFresh text_eq (state_dir host name node) ks
    → IsUnused (state_dir host name node) m
      × Knows
          (cons? (state_dir host name node) ks)
          (elim node [ none ↦ m | some c ↦ (effective_state_dir host c name, name) ∷ m ])
dir-step host name none ks m knows fresh = (tt, knows)
dir-step host name (some c) ks m knows fresh = go (effective_state_dir host c name) fresh
  where
    go :
        (dir : Text)
        → IsFresh text_eq (if is_empty dir then none else some dir) ks
        → IsUnused (if is_empty dir then none else some dir) m
          × Knows (cons? (if is_empty dir then none else some dir) ks) ((dir, name) ∷ m)
    go [] f = (tt, λ d given new. ground (arith, knows d given new, text_eq_iff [] d))
    go (b ∷ dir) f = (knows (b ∷ dir) refl f, λ d given new. ground (arith, knows d given))

pub FreshRun-DirsRun :
    (host : Host) (specs : List ConnectionSpec) (ks : List Text) (m : List (Text × Text))
    → Knows ks m
    → FreshRun text_eq (dir_of host) ks specs
    → DirsRun host m specs
FreshRun-DirsRun host [] ks m knows f = tt
FreshRun-DirsRun host (spec ∷ specs) ks m knows (f, fs) =
    let (unused, next) = dir-step host spec.name spec.conf.tailscale ks m knows f in
    (unused, FreshRun-DirsRun host specs _ (dirs_after host spec m) next fs)
