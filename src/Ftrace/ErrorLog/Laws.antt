-- ===== src/Ftrace/ErrorLog/Laws.antt =====
-- What the error functions leave in Python and in the log.
use trace_cruncher.Base.{
  ◌≡◌, refl, ◌⊎◌, inl, inr, Bool, true, false, Option, none, some, if◌then◌else◌, Option-cases,
  Bool-cases, ap₂, subst, sym, ◌∙◌, not, ap,
}
use trace_cruncher.Base.Int.{is_neg}
use trace_cruncher.Text.{Str, codes}
use trace_cruncher.Ftrace.{Tracefs}
use trace_cruncher.Ftrace.ErrorLog.{
  LogLib, PyError, tfs_error_setstr, tfs_error_fmt, cannot_get, tfs_error_log, cannot_clear,
  tfs_clear_error_log, message, error_log, with_log, get_instance_name,
}

-- What libtracefs documents of clearing: a log that was cleared with success has no text, and reading
-- it is no error.
pub record LawfulLog (fs : Tracefs) (lib : LogLib fs) : Type 0 where
  pub clear_lem :
      (inst : fs.Instance) (w : fs.World)
      → ((lib.error_all inst (lib.error_clear inst w).1
          ≡ (if is_neg (lib.error_clear inst w).0 then lib.error_all inst w else (none, false))))

module _ (fs : Tracefs) (lib : LogLib fs) where
  open fs use {World, Instance}
  open lib use {error_all, error_clear}

  -- The error has the message, alone or with the log.
  abbrev pub Mentions : Str → Option PyError → Type 0
  Mentions msg none = ⊥
  Mentions msg (some (cannot_get name)) = ⊥
  Mentions msg (some (cannot_clear name)) = ⊥
  Mentions msg (some (message s)) = s ≡ msg
  Mentions msg (some (with_log s text)) = s ≡ msg

  log_text :
      (inst : Instance) (w : World) (err : Option PyError) (text : Str) (errno : Bool)
      → error_all inst w ≡ (some text, errno)
      → tfs_error_log fs lib inst w err ≡ (some text, not errno, err)
  unfolding tfs_error_log
  log_text inst w err text errno h = rw h refl

  log_none :
      (inst : Instance) (w : World) (err : Option PyError)
      → error_all inst w ≡ (none, false)
      → tfs_error_log fs lib inst w err ≡ (none, true, err)
  unfolding tfs_error_log
  log_none inst w err h = let f : (error_all inst w).1 ≡ false = ap (λ p. p.1) h in rw (h, f) refl

  setstr_plain :
      (inst : Instance) (msg : Str) (w : World) (err : Option PyError)
      → (error_all inst w).0 ≡ none
      → tfs_error_setstr fs lib inst msg w err ≡ (some (message msg), w)
  unfolding tfs_error_setstr tfs_error_log
  setstr_plain inst msg w err e = simp (e, tfs_error_setstr, tfs_error_log) refl

  setstr_log :
      (inst : Instance) (msg text : Str) (w : World) (err : Option PyError)
      → (error_all inst w).0 ≡ some text
      → is_neg (error_clear inst w).0 ≡ false
      → tfs_error_setstr fs lib inst msg w err ≡ (some (with_log msg text), (error_clear inst w).1)
  unfolding tfs_error_setstr tfs_error_log tfs_clear_error_log
  setstr_log inst msg text w err e f =
      simp (e, f, tfs_error_setstr, tfs_error_log, tfs_clear_error_log) refl

  setstr_stuck :
      (inst : Instance) (msg text : Str) (w : World) (err : Option PyError)
      → (error_all inst w).0 ≡ some text
      → is_neg (error_clear inst w).0 ≡ true
      → tfs_error_setstr fs lib inst msg w err
        ≡ (some (cannot_clear (get_instance_name fs lib inst)), (error_clear inst w).1)
  unfolding tfs_error_setstr tfs_error_log tfs_clear_error_log
  setstr_stuck inst msg text w err e f =
      simp (e, f, tfs_error_setstr, tfs_error_log, tfs_clear_error_log) refl

  error_log_empty :
      (inst : Instance) (w : World)
      → error_all inst w ≡ (none, false)
      → (error_log fs lib inst w none).0 ≡ some (codes "(nil)")
  unfolding error_log
  error_log_empty inst w h =
      let l = log_none inst w none h in
      let ok : (tfs_error_log fs lib inst w none).1 ≡ true = ap (λ p. p.1) l in
      rw (l, error_log, ok) refl

  abbrev Told : Instance → Str → Option PyError × World → Type 0
  Told inst msg (err, w) =
      Mentions msg err × ((error_log fs lib inst w none).0 ≡ some (codes "(nil)"))

  module _ (laws : LawfulLog fs lib) where
    -- An error that is raised takes the log with it: Python is left with the message, whatever error
    -- there was before, and the log then reads as empty; unless the log cannot be cleared, which is
    -- then the error in place of the message, or cannot be read: then the error is the message.
    pub tfs_error_setstr-error_log :
        (inst : Instance) (msg : Str) (w : World) (err : Option PyError)
        → ((Mentions msg (tfs_error_setstr fs lib inst msg w err).0)
            × ((error_log fs lib inst (tfs_error_setstr fs lib inst msg w err).1 none).0
                ≡ some (codes "(nil)")))
          ⊎ (((is_neg (error_clear inst w).0 ≡ true)
                × ((tfs_error_setstr fs lib inst msg w err).0
                    ≡ some (cannot_clear (get_instance_name fs lib inst))))
              ⊎ ((error_all inst w ≡ (none, true))
                  × ((tfs_error_setstr fs lib inst msg w err).0 ≡ some (message msg))))
    tfs_error_setstr-error_log inst msg w err = elim (Option-cases (error_all inst w).0) [
      | inl e ↦ elim (Bool-cases (error_all inst w).1) [
        | inl f ↦ inr (inr (ap₂ (λ a b. (a, b)) e f, ap (λ r. r.0) (setstr_plain inst msg w err e)))
        | inr f ↦ inl (
            subst (Told inst msg) (sym (setstr_plain inst msg w err e))
              (refl, error_log_empty inst w (ap₂ (λ a b. (a, b)) e f)))
      ]
      | inr (text, e) ↦ elim (Bool-cases (is_neg (error_clear inst w).0)) [
        | inl f ↦ inr (inl (f, ap (λ r. r.0) (setstr_stuck inst msg text w err e f)))
        | inr f ↦
            let cleared : error_all inst (error_clear inst w).1 ≡ (none, false) =
              laws.clear_lem inst w ∙ rw f refl in
            inl (
              subst (Told inst msg) (sym (setstr_log inst msg text w err e f))
                (refl, error_log_empty inst (error_clear inst w).1 cleared))
      ]
    ]

  -- A message that `vasprintf` cannot make, where the log has a text, leaves Python with no error if
  -- there was none: the call that failed returns NULL without one.
  pub tfs_error_fmt_lost :
      (inst : Instance) (msg text : Str) (errno : Bool) (w : World)
      → error_all inst w ≡ (some text, errno)
      → tfs_error_fmt fs lib inst none msg w none ≡ (none, w)
  unfolding tfs_error_fmt
  tfs_error_fmt_lost inst msg text errno w h =
      let l = log_text inst w none text errno h in
      let err : (tfs_error_log fs lib inst w none).2 ≡ none = ap (λ p. p.2) l in
      rw (l, tfs_error_fmt, err) refl
