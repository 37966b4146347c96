-- ===== src/Ftrace/Lists/Laws.antt =====
-- The list of the enabled options and the question whether an option is set agree.
use trace_cruncher.Base.{
  ◌==◌, ℕ, zero, suc, ◌+◌, ◌≤◌, ◌<◌, ◌≡◌, ◌∙◌, ap, sym, subst, inl, inr, Bool, true, false, List,
  [], ◌∷◌, some, if◌then◌else◌, arith, Bool-cases,
}
use trace_cruncher.Text.{Str, str_eq}
use trace_cruncher.Text.Laws.{str_eq_self, eq_of_str_eq}
use trace_cruncher.Ftrace.{Tracefs}
use trace_cruncher.Ftrace.Methods.{InstanceArg, get_optional_instance}
use trace_cruncher.Ftrace.Lists.{
  ListLib, option_names, get_option_list, option_is_set, py_options, done,
}

-- What libtracefs documents of the options: the number 0 stands for no option and is never set, and
-- the others and the names are one to one.
pub record OptionLaws (fs : Tracefs) (lib : ListLib fs) : Type 0 where
  pub same :
      (w : fs.World) (inst : fs.Instance) (mask : ℕ → Bool) (i : ℕ)
      → lib.options_enabled w inst ≡ some mask
      → lib.option_is_enabled w inst i ≡ mask i
  pub invalid :
      (w : fs.World) (inst : fs.Instance) (mask : ℕ → Bool)
      → lib.options_enabled w inst ≡ some mask
      → mask 0 ≡ false
  pub id_of_name : (i : ℕ) → 0 < i → i < lib.option_max → lib.option_id (lib.option_name i) ≡ i
  pub name_of_id : (s : Str) → 0 < lib.option_id s → lib.option_name (lib.option_id s) ≡ s
  pub below_max : (s : Str) → lib.option_id s < lib.option_max

abbrev pub is_in : Str → List Str → Bool
is_in s [] = false
is_in s (t ∷ ts) = if str_eq t s then true else is_in s ts

module _ (fs : Tracefs) (lib : ListLib fs) where
  option_names-is_in :
      (mask : ℕ → Bool) (i n j : ℕ)
      → i ≤ j
      → j < i + n
      → mask j ≡ true
      → is_in (lib.option_name j) (option_names fs lib mask i n) ≡ true
  unfolding option_names
  option_names-is_in mask i zero j l u m = absurd (omega arith)
  option_names-is_in mask i (suc n) j l u m = elim (Bool-cases (i == j)) [
    | inl e ↦
        let same : i ≡ j = ground (arith, e) in
        ground (arith, m, str_eq_self (lib.option_name j), ap mask same, ap lib.option_name same)
    | inr e ↦
        ground (arith, option_names-is_in mask (i + 1) n j (ground (arith, e, l)) (omega arith) m)
  ]

  is_in-option_names :
      (mask : ℕ → Bool) (i n : ℕ) (s : Str)
      → is_in s (option_names fs lib mask i n) ≡ true
      → (j : ℕ) × (j < i + n) × (mask j ≡ true) × (lib.option_name j ≡ s)
  unfolding option_names
  is_in-option_names mask i zero s h = absurd (ground (arith, h))
  is_in-option_names mask i (suc n) s h = elim (Bool-cases (mask i)) [
    | inr m ↦
        let (j, u, t, e) = is_in-option_names mask (i + 1) n s (ground (arith, h, m)) in
        (j, omega arith, t, e)
    | inl m ↦ elim (Bool-cases (str_eq (lib.option_name i) s)) [
      | inl e ↦ (i, omega arith, m, eq_of_str_eq (lib.option_name i) s e)
      | inr e ↦
          let (j, u, t, f) = is_in-option_names mask (i + 1) n s (ground (arith, h, m, e)) in
          (j, omega arith, t, f)
    ]
  ]

  module _ (laws : OptionLaws fs lib) where
    open laws use {same, invalid, id_of_name, name_of_id, below_max}

    positive_of_set :
        (w : fs.World) (inst : fs.Instance) (mask : ℕ → Bool) (i : ℕ)
        → lib.options_enabled w inst ≡ some mask
        → mask i ≡ true
        → 0 < i
    positive_of_set w inst mask zero given e = absurd (ground (arith, e, invalid w inst mask given))
    positive_of_set w inst mask (suc i) given e = omega arith

    listed_if_enabled :
        (w : fs.World) (inst : fs.Instance) (mask : ℕ → Bool) (opt : Str)
        → lib.options_enabled w inst ≡ some mask
        → mask (lib.option_id opt) ≡ true
        → is_in opt (option_names fs lib mask 0 lib.option_max) ≡ true
    listed_if_enabled w inst mask opt given e =
        let positive = positive_of_set w inst mask (lib.option_id opt) given e in
        subst (λ s. is_in s (option_names fs lib mask 0 lib.option_max) ≡ true)
          (name_of_id opt positive)
          (option_names-is_in mask 0 lib.option_max (lib.option_id opt) (omega arith)
            (omega (arith, below_max opt)) e)

    enabled_if_listed :
        (w : fs.World) (inst : fs.Instance) (mask : ℕ → Bool) (opt : Str)
        → lib.options_enabled w inst ≡ some mask
        → is_in opt (option_names fs lib mask 0 lib.option_max) ≡ true
        → mask (lib.option_id opt) ≡ true
    enabled_if_listed w inst mask opt given h =
        let (j, u, t, e) = is_in-option_names mask 0 lib.option_max opt h in
        let number =
          ap lib.option_id (sym e)
          ∙ id_of_name j (positive_of_set w inst mask j given t) (omega (arith, u)) in
        ap mask number ∙ t

    -- Where the numbers and the names of the options are one to one and the mask of the enabled ones
    -- can be had, `PyFtrace_enabled_options` gives a list, and `PyFtrace_option_is_set` says that an
    -- option is set exactly if the list has its name.
    pub option_is_set-listed :
        (top inst : fs.Instance) (py_inst : InstanceArg fs.Instance) (opt : Str) (w : fs.World)
        (mask : ℕ → Bool)
        → get_optional_instance top py_inst ≡ some inst
        → lib.options_enabled w inst ≡ some mask
        → (names : List Str) × (py_options fs lib top py_inst true w ≡ done (some names))
          × (option_is_set fs lib top opt py_inst w ≡ some (is_in opt names))
    unfolding option_is_set py_options get_option_list
    option_is_set-listed top inst py_inst opt w mask e given =
        let names = option_names fs lib mask 0 lib.option_max in
        (
          names,
          ground (arith, e, given),
          elim (Bool-cases (mask (lib.option_id opt))) [
            | inl set ↦ ground (
              arith,
              e,
              same w inst mask (lib.option_id opt) given,
              set,
              listed_if_enabled w inst mask opt given set,
            )
            | inr unset ↦ elim (Bool-cases (is_in opt names)) [
              | inl listed ↦
                  absurd (ground (arith, unset, enabled_if_listed w inst mask opt given listed))
              | inr unlisted ↦
                  ground (arith, e, same w inst mask (lib.option_id opt) given, unset, unlisted)
            ]
          ],
        )
