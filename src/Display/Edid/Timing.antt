-- ===== src/Display/Edid/Timing.antt =====
-- src/display/MttVddSettings.cpp, CvtRbTiming: the timings that the search can take.
use opendisplay_win.Display.Edid.{
  CvtTiming, Precision, round_clock, timing, clock_of, search, cvt_rb_timing, Best, timing_of,
  total_of, better,
}
use opendisplay_win.Common.{
  ℕ, zero, suc, ◌+◌, ◌*◌, ltb, sym, subst, ap, ◌∙◌, some_injective, none, some, ◌≡◌, ◌<◌, ◌≤◌, ◌⊎◌,
  inl, inr, arith, refl, Bool-cases, true, false, ◌||◌,
}

-- The clock is the nearest number of 10 kHz.
pub round_clock_nearest :
    (n : ℕ) → (round_clock n * 10000 ≤ n + 5000) × (n ≤ round_clock n * 10000 + 5000)
unfolding round_clock
round_clock_nearest n = ground arith

abbrev pub InRange : ℕ → Type 0
InRange q = (1 ≤ q) × (q ≤ 65535)

module _ (P : Precision) (w h r : ℕ) where
  -- A timing of one of the rounds from `v` on.
  abbrev pub IsRound : ℕ → ℕ → CvtTiming → Type 0
  IsRound v rounds t =
      (b : ℕ) × (v ≤ b)
      × (b < v + rounds)
      × (t ≡ timing w h b (clock_of P w h r b))
      × InRange (clock_of P w h r b)

  later-IsRound :
      (v rounds : ℕ) (t : CvtTiming) → IsRound (v + 1) rounds t → IsRound v (suc rounds) t
  later-IsRound v rounds t (b, l, u, e, i) = (b, omega arith, omega arith, e, i)

  -- The best timing after the round `v` takes it.
  abbrev taken_at : ℕ → Best P
  taken_at v = let q = clock_of P w h r v in some (P.err q (total_of P w h v) r, timing w h v q)

  true_never : true ≡ false → ⊥
  true_never h = cc

  -- One round goes on with the best so far, or has a clock in range and takes its own timing.
  search_step :
      (rounds v : ℕ) (best : Best P)
      → ((search P (suc rounds) w h r v best ≡ search P rounds w h r (v + 1) best)
          × (best ≡ none → ¬ InRange (clock_of P w h r v)))
        ⊎ (InRange (clock_of P w h r v)
            × ((search P (suc rounds) w h r v best ≡ taken_at v)
                ⊎ (search P (suc rounds) w h r v best
                    ≡ search P rounds w h r (v + 1) (taken_at v))))
  unfolding search
  search_step rounds v best =
      let q = clock_of P w h r v in
      let e = P.err q (total_of P w h v) r in
      elim (Bool-cases (ltb q 1 || ltb 65535 q)) [
        | inl o ↦ inl (rw o refl, λ n i. ground (arith, o, i.0, i.1))
        | inr o ↦ elim (Bool-cases (better P e best)) [
          | inl b ↦ elim (Bool-cases (P.tiny e)) [
            | inl t ↦ inr (ground (arith, o), inl (rw (o, b, t) refl))
            | inr t ↦ inr (ground (arith, o), inr (rw (o, b, t) refl))
          ]
          | inr b ↦ inl (rw (o, b) refl, λ n i. true_never (sym (ap (better P e) n) ∙ b))
        ]
      ]

  -- What a search ends with: the timing that it starts with, or that of a round.
  pub search-IsRound :
      (rounds v : ℕ) (best : Best P) (t : CvtTiming)
      → timing_of P (search P rounds w h r v best) ≡ some t
      → (timing_of P best ≡ some t) ⊎ IsRound v rounds t
  unfolding search
  search-IsRound zero v best t e = inl e
  search-IsRound (suc rounds) v best t e = elim (search_step rounds v best) [
    | inl (s, n) ↦ elim (search-IsRound rounds (v + 1) best t (rw s at e)) [
      | inl k ↦ inl k
      | inr k ↦ inr (later-IsRound v rounds t k)
    ]
    | inr (i, inl s) ↦
        inr (v, omega arith, omega arith, sym (some_injective (sym (ap (timing_of P) s) ∙ e)), i)
    | inr (i, inr s) ↦ elim (search-IsRound rounds (v + 1) (taken_at v) t (rw s at e)) [
      | inl k ↦ inr (v, omega arith, omega arith, sym (some_injective k), i)
      | inr k ↦ inr (later-IsRound v rounds t k)
    ]
  ]

  -- A search that ends without a timing starts without one and meets no clock in range.
  search-none :
      (rounds v : ℕ) (best : Best P)
      → search P rounds w h r v best ≡ none
      → (best ≡ none) × ((b : ℕ) → v ≤ b → b < v + rounds → ¬ InRange (clock_of P w h r b))
  unfolding search
  search-none zero v best e = (e, λ b l u. absurd (omega arith))
  search-none (suc rounds) v best e = elim (search_step rounds v best) [
    | inl (s, n) ↦
        let (none_best, later) = search-none rounds (v + 1) best (rw s at e) in
        (
          none_best,
          λ b l u. elim (Bool-cases (ltb v b)) [
            | inl k ↦ later b (ground arith) (omega arith)
            | inr k ↦
                let same : (v ≡ b) = ground arith in
                subst (λ x. ¬ InRange (clock_of P w h r x)) same (n none_best)
          ],
        )
    | inr (i, inl s) ↦ let k : (taken_at v ≡ none) = sym s ∙ e in cc
    | inr (i, inr s) ↦ let k = (search-none rounds (v + 1) (taken_at v) (rw s at e)).0 in cc
  ]

  none_stays : (best : Best P) → timing_of P best ≡ none → best ≡ none
  none_stays none e = refl
  none_stays (some b) e = cc

  -- The timing of a size and a refresh rate is that of a vertical back porch from 6 to 119 lines,
  -- and its clock is the nearest to the frame's pixels times the rate and fits 16 bits.
  pub cvt_rb_timing-IsRound : (t : CvtTiming) → cvt_rb_timing P w h r ≡ some t → IsRound 6 114 t
  unfolding cvt_rb_timing
  cvt_rb_timing-IsRound t e = elim (search-IsRound 114 6 none t e) [ inl k ↦ cc | inr k ↦ k ]

  -- There is no timing only where no vertical back porch from 6 to 119 lines has a clock that fits.
  pub cvt_rb_timing-none :
      (b : ℕ) → cvt_rb_timing P w h r ≡ none → 6 ≤ b → b < 120 → ¬ InRange (clock_of P w h r b)
  unfolding cvt_rb_timing
  cvt_rb_timing-none b e l u =
      let k = none_stays (search P 114 w h r 6 none) e in
      (search-none 114 6 none k).1 b l (omega arith)
