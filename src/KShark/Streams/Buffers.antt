-- ===== src/KShark/Streams/Buffers.antt =====
-- The file of a buffer is opened once.
use trace_cruncher.Base.{
  ◌≡◌, refl, ◌∙◌, ap, sym, ◌&&◌, Bool, true, false, some, if◌then◌else◌, arith, Bool-cases, inl,
  inr, subst,
}
use trace_cruncher.Base.Int.{ℤ, is_neg}
use trace_cruncher.Text.{Str}
use trace_cruncher.KShark.Streams.{
  KsharkLib, id_or_error, top_stream, open_buffer_of, open_tep_buffer,
}

-- What libkshark documents: its context is made once, the top stream of a `trace.dat` file that was
-- not open and is opened is found, and opening a buffer does not change which one it is.
pub record StreamLaws (lib : KsharkLib) : Type 0 where
  pub ready :
      (w : lib.World)
      → (lib.instance_of w).0 ≡ true
      → lib.instance_of (lib.instance_of w).1 ≡ (true, (lib.instance_of w).1)
  pub ready_open :
      (f : Str) (w : lib.World)
      → lib.instance_of w ≡ (true, w)
      → lib.instance_of (lib.open_stream f w).1 ≡ (true, (lib.open_stream f w).1)
  pub ready_buffer :
      (sd : ℤ) (b : Str) (w : lib.World)
      → lib.instance_of w ≡ (true, w)
      → lib.instance_of (lib.tep_open_buffer sd b w).1 ≡ (true, (lib.tep_open_buffer sd b w).1)
  pub found :
      (f : Str) (w : lib.World)
      → lib.tep_check_data f ≡ true
      → is_neg (lib.tep_find_top_stream f w) ≡ true
      → is_neg (lib.open_stream f w).0 ≡ false
      → lib.tep_find_top_stream f (lib.open_stream f w).1 ≡ (lib.open_stream f w).0
  pub same_top :
      (f b : Str) (sd : ℤ) (w : lib.World)
      → lib.tep_find_top_stream f (lib.tep_open_buffer sd b w).1 ≡ lib.tep_find_top_stream f w

module _ (lib : KsharkLib) (laws : StreamLaws lib) where
  open laws use {ready, ready_open, ready_buffer, found, same_top}

  -- The context is there, and a stream that is found is the top one of the file.
  abbrev IsReady : Str → ℤ × lib.World → Type 0
  IsReady f (sd, w) = (lib.instance_of w ≡ (true, w)) × (lib.tep_find_top_stream f w ≡ sd)

  top_stream-IsReady :
      (f : Str) (w : lib.World)
      → lib.instance_of w ≡ (true, w)
      → lib.tep_check_data f ≡ true
      → is_neg (top_stream lib f w).0 ≡ false
      → IsReady f (top_stream lib f w)
  unfolding top_stream
  top_stream-IsReady f w r c n = elim (Bool-cases (is_neg (lib.tep_find_top_stream f w))) [
    | inl e ↦
        subst (IsReady f) (opened e)
          (ready_open f w r, found f w c e (ap (λ x. is_neg x.0) (opened e) ∙ n))
    | inr e ↦ subst (IsReady f) (kept e) (r, refl)
  ]
    where
      opened :
          is_neg (lib.tep_find_top_stream f w) ≡ true → lib.open_stream f w ≡ top_stream lib f w
      opened e = ground (arith, e)

      kept :
          is_neg (lib.tep_find_top_stream f w) ≡ false
          → (lib.tep_find_top_stream f w, w) ≡ top_stream lib f w
      kept e = rw e refl

  -- A buffer that was opened for the top stream `r` leaves it ready.
  open_buffer_of-IsReady :
      (f b : Str) (r : ℤ × lib.World) (sd : ℤ) (w' : lib.World)
      → IsReady f r
      → open_buffer_of lib b r ≡ (some sd, w')
      → (is_neg (lib.tep_find_top_stream f w') ≡ false) × (lib.instance_of w' ≡ (true, w'))
  unfolding open_buffer_of id_or_error
  open_buffer_of-IsReady f b (top, w) sd w' (r, g) h = elim (Bool-cases (is_neg top)) [
    | inl e ↦ absurd (ground (arith, e, h))
    | inr e ↦
        let same : (lib.tep_open_buffer top b w).1 ≡ w' = ground (arith, e, h) in
        (
          ap (λ x. is_neg (lib.tep_find_top_stream f x)) (sym same)
              ∙ (ap is_neg (same_top f b top w ∙ g) ∙ e),
          subst (λ x. lib.instance_of x ≡ (true, x)) same (ready_buffer top b w r),
        )
  ]

  not-negative :
      (b : Str) (r : ℤ × lib.World) (sd : ℤ) (w' : lib.World)
      → open_buffer_of lib b r ≡ (some sd, w')
      → is_neg r.0 ≡ false
  unfolding open_buffer_of
  not-negative b (top, w) sd w' h = elim (Bool-cases (is_neg top)) [
    | inl e ↦ absurd (ground (arith, e, h))
    | inr e ↦ e
  ]

  chosen {ℓ} :
      {A : Type ℓ} (ok check : Bool) (x y : A)
      → ok ≡ true
      → check ≡ true
      → (if ok && check then x else y) ≡ x
  chosen ok check x y e c = ground (arith, e, c)

  opened_buffer :
      (f b : Str) (w w' : lib.World) (sd : ℤ)
      → open_tep_buffer lib f b w ≡ (some sd, w')
      → ((lib.instance_of w).0 ≡ true)
        × (lib.tep_check_data f ≡ true)
        × (open_buffer_of lib b (top_stream lib f (lib.instance_of w).1) ≡ (some sd, w'))
  unfolding open_tep_buffer
  opened_buffer f b w w' sd h = elim (Bool-cases (lib.instance_of w).0) [
    | inr e ↦ absurd (ground (arith, e, h))
    | inl e ↦ elim (Bool-cases (lib.tep_check_data f)) [
      | inr c ↦ absurd (ground (arith, e, c, h))
      | inl c ↦ (e, c, sym (checked e c) ∙ h)
    ]
  ]
    where
      checked :
          (lib.instance_of w).0 ≡ true
          → lib.tep_check_data f ≡ true
          → open_tep_buffer lib f b w
            ≡ open_buffer_of lib b (top_stream lib f (lib.instance_of w).1)
      checked e c = chosen (lib.instance_of w).0 (lib.tep_check_data f) _ _ e c

  top_found :
      (f : Str) (w : lib.World)
      → is_neg (lib.tep_find_top_stream f w) ≡ false
      → top_stream lib f w ≡ (lib.tep_find_top_stream f w, w)
  unfolding top_stream
  top_found f w n = rw n refl

  buffer_of_top :
      (b : Str) (sd : ℤ) (w : lib.World)
      → is_neg sd ≡ false
      → open_buffer_of lib b (sd, w) ≡ id_or_error lib (lib.tep_open_buffer sd b w)
  unfolding open_buffer_of
  buffer_of_top b sd w n = rw n refl

  reopened :
      (f b : Str) (w : lib.World)
      → lib.instance_of w ≡ (true, w)
      → lib.tep_check_data f ≡ true
      → is_neg (lib.tep_find_top_stream f w) ≡ false
      → open_tep_buffer lib f b w
        ≡ id_or_error lib (lib.tep_open_buffer (lib.tep_find_top_stream f w) b w)
  unfolding open_tep_buffer
  reopened f b w r c n =
      chosen (lib.instance_of w).0 (lib.tep_check_data f) _ _ (ap (λ x. x.0) r) c
      ∙ (ap (λ x. open_buffer_of lib b (top_stream lib f x.1)) r
          ∙ (ap (open_buffer_of lib b) (top_found f w n)
              ∙ buffer_of_top b (lib.tep_find_top_stream f w) w n))

  -- Where libkshark finds the top stream of a `trace.dat` file that it has opened: once
  -- `PyKShark_open_tep_buffer` has opened a buffer of a file, a second buffer of the file is
  -- opened with its top stream, and the file is not opened again.
  pub open_tep_buffer-again :
      (f b b' : Str) (w w' : lib.World) (sd : ℤ)
      → open_tep_buffer lib f b w ≡ (some sd, w')
      → open_tep_buffer lib f b' w'
        ≡ id_or_error lib (lib.tep_open_buffer (lib.tep_find_top_stream f w') b' w')
  open_tep_buffer-again f b b' w w' sd h =
      let (e, c, g) = opened_buffer f b w w' sd h in
      let w₁ = (lib.instance_of w).1 in
      let r = top_stream lib f w₁ in
      let is_ready = top_stream-IsReady f w₁ (ready w e) c (not-negative b r sd w' g) in
      let (n, r') = open_buffer_of-IsReady f b r sd w' is_ready g in reopened f b' w' r' c n
