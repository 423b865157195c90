-- ===== src/App/Frames/Timing.antt =====
-- src/app/SenderApp.cpp, PrefixAnnexBWithTiming: what a receiver makes of a frame.
use opendisplay_win.Common.{
  ℕ, suc, ◌==◌, true, false, List, [], ◌∷◌, ◌++◌, some, Bytes, codes, digits, is_digit,
  digits_plain, ℤ, pos, negsuc, All, All-append, ◌≡◌, refl, sym, ◌∙◌, arith,
}
use opendisplay_win.App.Frames.{decimal, timing_head, prefix_annex_b_with_timing}
use opendisplay_win.Encode.AnnexB.{NalUnit, scan_start_codes, build_access_unit}
use opendisplay_win.Encode.AnnexB.Split.{lead, scan_start_codes-lead}
use opendisplay_win.Net.Protocol.Scan.{is_control_payload, no_zero_byte}

abbrev IsText : ℕ → Type 0
IsText c = (c == 0) ≡ false

digits_text : (ds : Bytes) → All (λ c. is_digit c ≡ true) ds → All IsText ds
digits_text [] h = tt
digits_text (d ∷ ds) h = (ground (arith, h.0), digits_text ds h.1)

decimal_text : (n : ℤ) → All IsText (decimal n)
decimal_text (pos n) = digits_text (digits n) (digits_plain n)
decimal_text (negsuc n) = (refl, digits_text (digits (suc n)) (digits_plain (suc n)))

head_text : (cap_ms snd_ms : ℤ) → All IsText (timing_head cap_ms snd_ms)
unfolding timing_head
head_text cap_ms snd_ms =
    All-append IsText (codes "{\"cap\":") _
      (refl, (refl, (refl, (refl, (refl, (refl, (refl, tt)))))))
      (All-append IsText (decimal cap_ms) _ (decimal_text cap_ms) (
        All-append IsText (codes ",\"snd\":") _
          (refl, (refl, (refl, (refl, (refl, (refl, (refl, tt)))))))
          (All-append IsText (decimal snd_ms) _ (decimal_text snd_ms) (refl, tt))))

lead_step : (c : ℕ) (t : Bytes) → IsText c → lead (c ∷ t) ≡ lead t
unfolding lead
lead_step c [] h = refl
lead_step c (x ∷ []) h = refl
lead_step c (x ∷ y ∷ []) h = refl
lead_step c (x ∷ y ∷ z ∷ t) h = rw h refl

lead_text : (w f : Bytes) → All IsText w → lead (w ++ f) ≡ lead f
lead_text [] f h = refl
lead_text (c ∷ w) f h = lead_step c (w ++ f) h.0 ∙ lead_text w f h.1

zero_inside : (w f : Bytes) → no_zero_byte (w ++ 0 ∷ f) ≡ false
zero_inside [] f = refl
zero_inside (c ∷ w) f = ground (arith, zero_inside w f)

not_control : (w : Bytes) → no_zero_byte w ≡ false → is_control_payload (some w) ≡ false
unfolding is_control_payload
not_control w h = ground (arith, h)

-- The timing before a frame is skipped by a scan for start codes, which finds the units that it
-- finds without it; and with an access unit behind it the payload is not taken for a control message.
pub prefix_annex_b_with_timing_lem :
    (n : NalUnit) (ns : List NalUnit) (cap_ms snd_ms : ℤ)
    → (scan_start_codes (prefix_annex_b_with_timing (build_access_unit (n ∷ ns)) cap_ms snd_ms)
        ≡ scan_start_codes (build_access_unit (n ∷ ns)))
      × (is_control_payload
            (some (prefix_annex_b_with_timing (build_access_unit (n ∷ ns)) cap_ms snd_ms))
          ≡ false)
unfolding prefix_annex_b_with_timing build_access_unit
prefix_annex_b_with_timing_lem n ns cap_ms snd_ms =
    let frame = build_access_unit (n ∷ ns) in
    let head = timing_head cap_ms snd_ms in
    (
      scan_start_codes-lead (head ++ frame)
          ∙ lead_text head frame (head_text cap_ms snd_ms)
          ∙ sym (scan_start_codes-lead frame),
      not_control (head ++ frame) (zero_inside head _),
    )
