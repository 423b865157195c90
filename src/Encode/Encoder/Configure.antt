-- ===== src/Encode/Encoder/Configure.antt =====
-- src/encode/H264Encoder.cpp, Configure: a new transform. What EnumAndBind binds, of the hardware
-- and of the software transforms, is an argument, none where it fails: the transform and what
-- ProbeFirstFrame has left, after the black pictures that it has put in.
use opendisplay_win.Encode.AnnexB.{SpsPpsCache}
use opendisplay_win.Common.{ℕ, leb, if◌then◌else◌, Bool, true, false, Option, none, some, ◌≡◌, refl}
use opendisplay_win.Encode.Encoder.{Mft, Impl, request_key_frame}
use opendisplay_win.Encode.Encoder.Inside.{IsMft}

module _ {P : Type 0} (F : Mft P) where
  pub record Bound : Type 0 where
    pub transform : F.State
    pub async_events : Bool
    pub in_flight : ℕ
    pub pending_need_input : Bool
    pub async_timed_out : Bool
    pub sps_pps_cache : SpsPpsCache

  unfoldable pub reset_mft : Impl F → Impl F
  reset_mft e = record e { in_flight = 0; is_async = false; pending_need_input = false }

  unfoldable pub bound : Bound → Impl F → Impl F
  bound b e = record e {
    mft = b.transform;
    is_async = b.async_events;
    in_flight = b.in_flight;
    pending_need_input = b.pending_need_input;
    async_timed_out = b.async_timed_out;
    sps_pps_cache = b.sps_pps_cache;
    configured = true;
  }

  -- Hardware that was missed once is not tried again.
  abbrev pub bind_first : Option Bound → Option Bound → Impl F → Bool × Impl F
  bind_first (some hardware) software e = (true, bound hardware e)
  bind_first none (some software) e = (true, record (bound software e) { allow_hardware = false })
  bind_first none none e = (false, e)

  unfoldable pub configure : Option Bound → Option Bound → Impl F → Bool × Impl F
  configure hardware software before =
      let e = reset_mft (record before {
        configured = false;
        sps_pps_cache = record { sps = none; pps = none };
        consecutive_async_timeouts = 0;
        last_async_timed_out = false;
      }) in
      bind_first (if before.allow_hardware then hardware else none) software e

  -- After three timeouts in a row the hardware is given up.
  unfoldable pub give_up_hardware : Option Bound → Option Bound → Impl F → Impl F
  give_up_hardware hardware software e =
      let (ok, e') = configure hardware software (record e { allow_hardware = false }) in
      if leb 3 e.consecutive_async_timeouts then (if ok then request_key_frame F e' else e') else e

module _ {P : Type 0} (F : Mft P) (L : IsMft F) (Q : P → Type 0) where
  -- A transform that was just bound has only pictures of `Q`, those of the probe.
  abbrev pub IsFresh : Option (Bound F) → Type 0
  IsFresh none = Unit
  IsFresh (some b) = (q : P) → L.Inside q b.transform → Q q

  bind_first_lem :
      (hardware software : Option (Bound F)) (e : Impl F) (q : P)
      → IsFresh hardware
      → IsFresh software
      → e.configured ≡ false
      → (bind_first F hardware software e).1.configured ≡ true
      → L.Inside q (bind_first F hardware software e).1.mft
      → Q q
  unfolding bound
  bind_first_lem (some b) software e q h s n c i = h q i
  bind_first_lem none (some b) e q h s n c i = s q i
  bind_first_lem none none e q h s n c i = cc

  either-IsFresh : (b : Bool) (x : Option (Bound F)) → IsFresh x → IsFresh (if b then x else none)
  either-IsFresh true x h = h
  either-IsFresh false x h = tt

  -- An encoder that Configure leaves configured holds only pictures of `Q`.
  pub configure_lem :
      (hardware software : Option (Bound F)) (e : Impl F) (q : P)
      → IsFresh hardware
      → IsFresh software
      → (configure F hardware software e).1.configured ≡ true
      → L.Inside q (configure F hardware software e).1.mft
      → Q q
  unfolding configure reset_mft
  configure_lem hardware software e q h s c i =
      bind_first_lem (if e.allow_hardware then hardware else none) software _ q
        (either-IsFresh e.allow_hardware hardware h) s refl c i
