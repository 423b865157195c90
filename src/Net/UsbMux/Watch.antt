-- ===== src/Net/UsbMux/Watch.antt =====
-- src/net/UsbMux.cpp, WatchLoop: the generation that counts what is attached and detached. The wait
-- at the end of a round, and the event that ends it, are system calls.
use opendisplay_win.Common.{
  ℕ, zero, suc, ◌+◌, ◌%◌, ◌^◌, ◌≤◌, ◌<◌, ◌==◌, if◌then◌else◌, Bool, true, false, ◌||◌, Option, none,
  some, value_or, List, [], ◌∷◌, ◌++◌, Bytes, codes, length, All, ◌≡◌, refl, ap, ◌∙◌, arith,
  Bool-cases, inl, inr,
}
use opendisplay_win.Net.Socket.{Socket, IsStream, read_loop_short, first_is}
use opendisplay_win.Net.UsbMux.{
  plist_head, has, send_plist, recv_plist, recv_all, extract_key_integer,
}
use opendisplay_win.Net.UsbMux.Plist.{message, max_xml, recv_plist_lem}
use opendisplay_win.Net.UsbMux.Queries.{ask, ask_lem, Answers}

abbrev pub listen_plist : Bytes
listen_plist =
    plist_head
    ++ (codes "<key>MessageType</key><string>Listen</string>"
        ++ (codes "<key>ProgName</key><string>opendisplay-win</string>"
            ++ codes "<key>kLibUSBMuxVersion</key><integer>3</integer></dict></plist>"))

pub record UsbMuxWatch : Type 0 where
  pub gen : ℕ
  pub up : Bool
  pub logged_down : Bool

unfoldable pub bump : UsbMuxWatch → UsbMuxWatch
bump w = record w { gen = (w.gen + 1) % 2 ^ 64 }

abbrev pub is_change : Bytes → Bool
is_change xml =
    has (codes "<string>Attached</string>") xml || has (codes "<string>Detached</string>") xml

module _ (S : Socket) where
  -- The loop over the events, with rounds for the messages that come; none where these are used up.
  unfoldable pub watch_events : ℕ → UsbMuxWatch → S.State → Option UsbMuxWatch
  watch_events zero w s = none
  watch_events (suc rounds) w s =
      let (xml, s') = recv_plist S s in
      let bumped = watch_events rounds (bump w) s' in
      let same = watch_events rounds w s' in
      elim xml [ none ↦ some w | some text ↦ if is_change text then bumped else same ]

  -- What a round does before it waits, or before the next round: `continue` reopens at once.
  abbrev waits : UsbMuxWatch → UsbMuxWatch × Bool
  waits w = (record w { logged_down = true }, false)

  abbrev reopens : Option UsbMuxWatch → Option (UsbMuxWatch × Bool)
  reopens none = none
  reopens (some w) = some (bump (record w { up = false }), true)

  abbrev is_listening : Bytes → Bool
  is_listening xml = value_or 1 (extract_key_integer xml (codes "Number")) == 0

  abbrev heard : ℕ → UsbMuxWatch → Option Bytes × S.State → Option (UsbMuxWatch × Bool)
  heard rounds w (none, s) = some (waits w)
  heard rounds w (some xml, s) =
      let listening =
        reopens (watch_events rounds (bump (record w { up = true; logged_down = false })) s) in
      if is_listening xml then listening else some (waits w)

  unfoldable pub watch_round : ℕ → UsbMuxWatch → Option S.State → Option (UsbMuxWatch × Bool)
  watch_round rounds w none = some (waits w)
  watch_round rounds w (some s) = heard rounds w (ask S 1 listen_plist s)

-- How many of the events attach or detach a device.
unfoldable pub changes : List (ℕ × Bytes) → ℕ
changes [] = 0
changes (e ∷ es) = let rest = changes es in if is_change e.1 then suc rest else rest

abbrev pub events_text : List (ℕ × Bytes) → Bytes
events_text [] = []
events_text (e ∷ es) = message e.0 e.1 ++ events_text es

abbrev watch_at : ℕ → Bool → UsbMuxWatch
watch_at g up = record { gen = g; up = up; logged_down = false }

module _ (S : Socket) (L : IsStream S) where
  recv_plist_ended : (s : S.State) → L.pending s ≡ [] → (recv_plist S s).0 ≡ none
  unfolding recv_plist
  recv_plist_ended s e =
      let short = read_loop_short S L 16 16 [] s (rw e (omega arith)) in
      rw (first_is (recv_all S 16 s) none short) refl

  watch_events_end :
      (rounds : ℕ) (w : UsbMuxWatch) (s : S.State)
      → (recv_plist S s).0 ≡ none
      → watch_events S (suc rounds) w s ≡ some w
  unfolding watch_events
  watch_events_end rounds w s e = rw (e, watch_events) refl

  watch_events_step :
      (rounds : ℕ) (w : UsbMuxWatch) (s : S.State) (xml : Bytes)
      → (recv_plist S s).0 ≡ some xml
      → watch_events S (suc rounds) w s ≡ (
          if is_change xml
          then watch_events S rounds (bump w) (recv_plist S s).1
          else watch_events S rounds w (recv_plist S s).1)
  unfolding watch_events
  watch_events_step rounds w s xml e = rw (e, watch_events) refl

  watch_events_lem :
      (es : List (ℕ × Bytes)) (rounds g : ℕ) (up : Bool) (s : S.State)
      → All (λ e. length e.1 ≤ max_xml) es
      → length es < rounds
      → g < 2 ^ 64
      → L.pending s ≡ events_text es
      → watch_events S rounds (watch_at g up) s ≡ some (watch_at ((g + changes es) % 2 ^ 64) up)
  unfolding changes bump
  watch_events_lem es zero g up s h r b e = absurd (omega arith)
  watch_events_lem [] (suc rounds) g up s h r b e =
      watch_events_end rounds (watch_at g up) s (recv_plist_ended s e)
      ∙ ap (λ n. some (watch_at n up)) (omega arith)
  watch_events_lem (x ∷ es) (suc rounds) g up s h r b e =
      let (got, later) = recv_plist_lem S L x.0 x.1 (events_text es) s h.0 e in
      watch_events_step rounds (watch_at g up) s x.1 got ∙ elim (Bool-cases (is_change x.1)) [
        | inl c ↦ rw c (
            watch_events_lem es rounds ((g + 1) % 2 ^ 64) up (recv_plist S s).1 h.1 (omega arith)
              (omega arith) later
            ∙ ap (λ n. some (watch_at n up)) (omega arith))
        | inr c ↦
            rw c (watch_events_lem es rounds g up (recv_plist S s).1 h.1 (omega arith) b later)
      ]

  -- A round of the watcher on a link whose answer has the number 0, and which then brings some
  -- events and ends, with more rounds of its loop than events: the generation has gone up by one
  -- for the start, one for each device attached or detached, and one for the end; the watcher is
  -- down, and reopens at once.
  pub watch_round_lem :
      (es : List (ℕ × Bytes)) (rounds : ℕ) (w : UsbMuxWatch) (xml : Bytes) (s : S.State)
      → length xml ≤ max_xml
      → is_listening S xml ≡ true
      → All (λ e. length e.1 ≤ max_xml) es
      → length es < rounds
      → Answers S L xml (events_text es) (send_plist S 1 listen_plist s).1
      → watch_round S rounds w (some s)
        ≡ some (watch_at ((w.gen + (changes es + 2)) % 2 ^ 64) false, true)
  unfolding watch_round bump
  watch_round_lem es rounds w xml s hx l h r a =
      let (got, later) = ask_lem S L 1 listen_plist xml (events_text es) s hx a in
      let answer = ask S 1 listen_plist s in
      let heard_all =
        watch_events_lem es rounds ((w.gen + 1) % 2 ^ 64) true answer.1 h r (omega arith) later in
      rw (first_is answer (some xml) got, l, heard_all)
        (ap (λ n. some (watch_at n false, true)) (omega arith))
