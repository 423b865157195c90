-- ===== src/App/Pause/Loop.antt =====
-- src/app/SenderApp.cpp, RunLoop: the loop over passes that stream or are paused. What one thread does
-- in a pass is here, without the cursor, the sizes and the sends.
use opendisplay_win.Common.{
  if◌then◌else◌, Bool, true, false, not, ◌&&◌, ◌||◌, Option, none, some, List, [], ◌∷◌, ◌++◌,
}
use opendisplay_win.App.Pause.{
  Picture, desktop, Reads, Session, Build, access_lost, head_of_pass, paused_pass,
}
use opendisplay_win.Encode.Encoder.{Mft, EncodedFrame, Impl, encode_nv12, collect_pending}
use opendisplay_win.Encode.Encoder.Configure.{Bound, give_up_hardware}

-- Whether there is a picture of the desktop to encode: no texture before the first present, or the
-- picture does not fit the encoder.
pub data Supply : Type 0 where
  frame_captured no_texture not_padded : Supply

module _ (F : Mft Picture) where
  -- What capture and the clock say in a pass that streams: whether access was lost, the desktop has
  -- changed, the slot is open, and a keepalive or the tail is due; the picture to encode; and what
  -- Configure can bind when the encoder has stalled.
  pub record Capture : Type 0 where
    pub lost_access : Bool
    pub changed : Bool
    pub slot_open : Bool
    pub keepalive_due : Bool
    pub tail_due : Bool
    pub supply : Supply
    pub hardware : Option (Bound F)
    pub software : Option (Bound F)

  abbrev pub encodes_now : Capture → Session F → Bool
  encodes_now c s =
      c.slot_open
      && (s.frame_pending || c.keepalive_due || s.tail_pending && not s.frame_pending && c.tail_due)

  -- The rebuild that follows a loss of access. The session is over where it fails.
  abbrev pub rebuilt : Bool × Impl F → Session F → Option (Session F)
  rebuilt (true, e) s = some (record s { encoder = e })
  rebuilt (false, e) s = none

  -- The frames of an encode, and of a pass without one; then the software encoder, if the hardware
  -- has stalled. The encode of a texture is that of the picture in it.
  abbrev pub supplied :
      Supply
      → Capture
      → Session F
      → Impl F
      → Impl F
      → Option (Session F) × List (EncodedFrame Picture)
  supplied frame_captured c s idle encoded =
      (some (record s { encoder = give_up_hardware F c.hardware c.software encoded }), encoded.out)
  supplied no_texture c s idle encoded =
      (some (record s { encoder = give_up_hardware F c.hardware c.software idle }), [])
  supplied not_padded c s idle encoded = (some s, [])

  unfoldable pub stream_frame :
      Reads → Capture → Session F → Option (Session F) × List (EncodedFrame Picture)
  stream_frame r c s =
      let encoded = encode_nv12 F desktop r.sample_made r.arrivals s.encoder in
      let collected = collect_pending F r.arrivals.drained s.encoder in
      let t = record s { frame_pending = false; tail_pending = s.frame_pending } in
      if encodes_now c s
      then supplied c.supply c t (record s.encoder { out = [] }) encoded
      else (some (record s { encoder = collected }), collected.out)

  -- One pass of the loop while it streams.
  unfoldable pub streaming_pass :
      Reads → Capture → Build F → Session F → Option (Session F) × List (EncodedFrame Picture)
  streaming_pass r c build s =
      let t = record s { frame_pending = s.frame_pending || c.changed } in
      if c.lost_access
      then elim (access_lost F r t) [
        | some p ↦ (some p, [])
        | none ↦ (rebuilt (build t.encoder) t, [])
      ]
      else stream_frame r c t

  -- What a pass reads at its head and after it.
  pub record Pass : Type 0 where
    pub head : Reads
    pub body : Reads
    pub capture : Capture

  unfoldable pub session_pass :
      Pass → Build F → Session F → Option (Session F) × List (EncodedFrame Picture)
  session_pass p build s =
      let t = head_of_pass F p.head s in
      let (q, frames) = paused_pass F p.body build t in
      if t.paused then (some q, frames) else streaming_pass p.body p.capture build t

  -- What a session sends in passes, one after the other.
  unfoldable pub session_passes : List Pass → Build F → Session F → List (EncodedFrame Picture)
  session_passes [] build s = []
  session_passes (p ∷ ps) build s =
      let (next, frames) = session_pass p build s in
      frames ++ elim next [ some t ↦ session_passes ps build t | none ↦ [] ]
