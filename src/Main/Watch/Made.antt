-- ===== src/Main/Watch/Made.antt =====
-- The state directories that `main` creates, and the path rules of the last stage of `lock`.
use wireproxy.Base.{◌≡◌, refl, ◌∙◌, true, ◌&&◌, List, [], ◌∷◌, ◌++◌, map, all, arith}
use wireproxy.Sandbox.Stages.{
  PathRule, ro_file, rw_file, rw_dir, LockOptions, path_rules, static_ro, static_rw,
}
use wireproxy.Text.{Text, text_eq_refl}
use wireproxy.Main.Watch.{is_among, exists_in}

is_among-cons :
    (made dirs : List Text) (text : Text)
    → all (is_among made) dirs ≡ true
    → all (is_among (text ∷ made)) dirs ≡ true
is_among-cons made [] text h = refl
is_among-cons made (dir ∷ dirs) text h = ground (arith, is_among-cons made dirs text)

exist-append :
    (made : List Text) (xs ys : List PathRule)
    → all (exists_in made) (xs ++ ys) ≡ (all (exists_in made) xs && all (exists_in made) ys)
exist-append made [] ys = refl
exist-append made (x ∷ xs) ys = ground (arith, exist-append made xs ys)

exist_files :
    (made : List Text) (file : Text → PathRule)
    → ((text : Text) → exists_in made (file text) ≡ true)
    → (files : List Text) → all (exists_in made) (map file files) ≡ true
exist_files made file harmless [] = refl
exist_files made file harmless (f ∷ files) =
    ground (arith, harmless f, exist_files made file harmless files)

exist_dirs :
    (made dirs : List Text) → all (exists_in made) (map rw_dir dirs) ≡ all (is_among made) dirs
exist_dirs made [] = refl
exist_dirs made (dir ∷ dirs) = ground (arith, exist_dirs made dirs)

pub path_rules-exist :
    (made : List Text) (opts : LockOptions)
    → all (is_among made) opts.rw_dirs ≡ true
    → all (exists_in made) (path_rules opts) ≡ true
unfolding path_rules
path_rules-exist made opts h =
    exist-append made (map ro_file static_ro)
      (map rw_file static_rw ++ (map ro_file opts.ro_files ++ map rw_dir opts.rw_dirs))
    ∙ exist-append made (map ro_file opts.ro_files) (map rw_dir opts.rw_dirs)
    ∙ ground
        (arith, exist_dirs made opts.rw_dirs, exist_files made ro_file (λ t. refl) opts.ro_files)

-- The directories that exist after the loop.
abbrev pub made_after : List Text → List Text → List Text
made_after made [] = made
made_after made (dir ∷ dirs) = made_after (dir ∷ made) dirs

is_among-made_after :
    (text : Text) (dirs made : List Text)
    → is_among made text ≡ true
    → is_among (made_after made dirs) text ≡ true
is_among-made_after text [] made h = h
is_among-made_after text (dir ∷ dirs) made h =
    is_among-made_after text dirs (dir ∷ made) (ground arith)

pub all_made : (dirs made : List Text) → all (is_among (made_after made dirs)) dirs ≡ true
all_made [] made = refl
all_made (dir ∷ dirs) made = ground (
  arith,
  is_among-made_after dir dirs (dir ∷ made) (ground (arith, text_eq_refl dir)),
  all_made dirs (dir ∷ made),
)
