-- ===== src/Server/Paths.antt =====
-- The files that the command finds: the first candidate, in the order of the source.
use split_flap_display_web.Prelude.{
  ◌≡◌, ◌⊎◌, refl, inl, inr, Bool, true, false, ◌&&◌, none, some, List, [], ◌∷◌, ◌++◌, Text, codes,
  All, Bool-cases, ap,
}
use split_flap_display_web.Server.{
  Files, first_that, config_candidates, found_config, find_config_path, or_else, static_candidates,
  find_static_dir,
}

-- The first candidate that passes, with those before it and after it.
pub record FirstOf (p : Text → Bool) (cs : List Text) (c : Text) : Type 0 where
  pub before : List Text
  pub after : List Text
  pub split : cs ≡ before ++ c ∷ after
  pub passes : p c ≡ true
  pub others_fail : All (λ b. p b ≡ false) before

one_later :
    (p : Text → Bool) (b c : Text) (cs : List Text)
    → p b ≡ false
    → FirstOf p cs c
    → FirstOf p (b ∷ cs) c
one_later p b c cs e f = record {
  before = b ∷ f.before;
  after = f.after;
  split = ap (λ l. b ∷ l) f.split;
  passes = f.passes;
  others_fail = (e, f.others_fail);
}

first_that_cases :
    (p : Text → Bool) (cs : List Text)
    → ((c : Text) × (first_that p cs ≡ some c) × FirstOf p cs c)
      ⊎ ((first_that p cs ≡ none) × All (λ c. p c ≡ false) cs)
unfolding first_that
first_that_cases p [] = inr (refl, tt)
first_that_cases p (b ∷ cs) = elim (Bool-cases (p b)) [
  | inl e ↦
      inl (
        b,
        rw e refl,
        record { before = []; after = cs; split = refl; passes = e; others_fail = tt },
      )
  | inr e ↦ elim (first_that_cases p cs) [
    | inl (c, k, f) ↦ inl (c, rw e k, one_later p b c cs e f)
    | inr (k, none_pass) ↦ inr (rw e k, (e, none_pass))
  ]
]

-- The configuration file is the first candidate that exists, made absolute where that is possible; if
-- none does, it is "app.conf" in the working directory, or "backend-go/app.conf".
pub find_config_path_cases :
    (f : Files)
    → ((c : Text) × FirstOf f.exists (config_candidates f) c
        × (find_config_path f ≡ or_else (f.absolute c) c))
      ⊎ (All (λ c. f.exists c ≡ false) (config_candidates f)
          × (find_config_path f
              ≡ or_else (f.absolute (codes "app.conf")) (codes "backend-go/app.conf")))
unfolding find_config_path
find_config_path_cases f = elim (first_that_cases f.exists (config_candidates f)) [
  | inl (c, k, first) ↦ inl (c, first, ap (found_config f) k)
  | inr (k, none_exist) ↦ inr (none_exist, ap (found_config f) k)
]

-- The directory of static files is the first candidate that exists and is a directory, or else
-- "frontend/static".
pub find_static_dir_cases :
    (f : Files)
    → ((c : Text) × FirstOf (λ p. f.exists p && f.is_dir p) (static_candidates f) c
        × (find_static_dir f ≡ c))
      ⊎ (All (λ c. f.exists c && f.is_dir c ≡ false) (static_candidates f)
          × (find_static_dir f ≡ codes "frontend/static"))
unfolding find_static_dir
find_static_dir_cases f =
    elim (first_that_cases (λ c. f.exists c && f.is_dir c) (static_candidates f)) [
      | inl (c, k, first) ↦ inl (c, first, rw k refl)
      | inr (k, none_exist) ↦ inr (none_exist, rw k refl)
    ]
