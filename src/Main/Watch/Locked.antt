-- ===== src/Main/Watch/Locked.antt =====
-- The part of `main` behind the last stage of `lock`.
use wireproxy.Base.{
  ◌≡◌, refl, ◌∙◌, true, List, [], ◌∷◌, ◌++◌, inl, inr, Bool-cases, append_assoc, arith,
}
use wireproxy.Config.Types.{ConnectionSpec, Routine}
use wireproxy.Main.{World, spawn_all, start_one, start_all, run_connections, run_bound}
use wireproxy.Sandbox.Stages.{Act, serving_health, waiting, died, none_started}
use wireproxy.Text.{Text}
use wireproxy.Main.Watch.{Watch, is_confined, is_safe}

module _ (w : Watch) (confined : is_confined w ≡ true) where
  spawn_all-is_safe :
      (name : Text) (rs : List Routine) (acts : List Act)
      → is_safe w (spawn_all name rs ++ acts) ≡ is_safe w acts
  unfolding is_safe
  spawn_all-is_safe name [] acts = refl
  spawn_all-is_safe name (r ∷ rs) acts = rw confined (spawn_all-is_safe name rs acts)

  start_one-is_safe :
      (world : World) (spec : ConnectionSpec) (acts : List Act)
      → is_safe w (start_one world spec ++ acts) ≡ is_safe w acts
  unfolding is_safe start_one
  start_one-is_safe world spec acts = elim (Bool-cases (world.starts spec)) [
    | inl starts ↦ rw starts (rw confined (spawn_all-is_safe spec.name spec.conf.routines acts))
    | inr fails ↦ rw fails (rw confined refl)
  ]

  start_all-is_safe :
      (world : World) (specs : List ConnectionSpec) (acts : List Act)
      → is_safe w (start_all world specs ++ acts) ≡ is_safe w acts
  unfolding start_all
  start_all-is_safe world [] acts = refl
  start_all-is_safe world (spec ∷ specs) acts =
      rw (append_assoc (start_one world spec) (start_all world specs) acts) (
        start_one-is_safe world spec (start_all world specs ++ acts)
        ∙ start_all-is_safe world specs acts)

  run_connections-is_safe :
      (world : World) (info : Text) (specs : List ConnectionSpec)
      → is_safe w (run_connections world info specs) ≡ true
  unfolding run_connections is_safe
  run_connections-is_safe world info specs = ground (
    arith,
    start_all-is_safe world (world.order specs) (waiting ∷ []),
    start_all-is_safe world (world.order specs) (serving_health ∷ waiting ∷ []),
    start_all-is_safe world (world.order specs) (died none_started ∷ []),
  )

  pub run_bound-is_safe :
      (world : World) (info : Text) (specs : List ConnectionSpec)
      → is_safe w (run_bound world info specs) ≡ true
  unfolding run_bound is_safe
  run_bound-is_safe world info specs = ground (arith, run_connections-is_safe world info specs)
