-- ===== src/Encode/AnnexB/ParameterSets.antt =====
-- SpsPpsCache::EnsureParameterSets over a stream of access units.
use opendisplay_win.Common.{
  ℕ, ◌==◌, if◌then◌else◌, true, false, ◌&&◌, Bool-cases, Option-cases, inl, inr, Option, none, some,
  List, [], ◌∷◌, All, ◌≡◌, refl, ◌∙◌, arith,
}
use opendisplay_win.Encode.AnnexB.{
  NalUnit, nal_type_sps, nal_type_pps, SpsPpsCache, remember, has_type, before_idr, prepend_cached,
  ensure_parameter_sets,
}

-- The last unit of type `t`, or what was held before.
abbrev pub last_of : ℕ → Option NalUnit → List NalUnit → Option NalUnit
last_of t held [] = held
last_of t held (n ∷ ns) = last_of t (if n.nal_type == t then some n else held) ns

-- The cache holds the latest SPS and the latest PPS that any access unit carried.
pub ensure_parameter_sets_cache :
    (c : SpsPpsCache) (nals : List NalUnit)
    → (ensure_parameter_sets c nals).0
      ≡ record { sps = last_of nal_type_sps c.sps nals; pps = last_of nal_type_pps c.pps nals }
unfolding ensure_parameter_sets remember
ensure_parameter_sets_cache c [] = refl
ensure_parameter_sets_cache c (n ∷ ns) = elim (Bool-cases (n.nal_type == nal_type_sps)) [
  | inl e ↦ rw e (ensure_parameter_sets_cache (record c { sps = some n }) ns ∙ ground arith)
  | inr e ↦ elim (Bool-cases (n.nal_type == nal_type_pps)) [
    | inl f ↦ rw (e, f) (ensure_parameter_sets_cache (record c { pps = some n }) ns)
    | inr f ↦ rw (e, f) (ensure_parameter_sets_cache c ns)
  ]
]

abbrev pub Holds : ℕ → Option NalUnit → Type 0
Holds t none = ⊥
Holds t (some n) = n.nal_type ≡ t

pub record IsReady (c : SpsPpsCache) : Type 0 where
  pub sps_held : Holds nal_type_sps c.sps
  pub pps_held : Holds nal_type_pps c.pps

abbrev HasBoth : Option (List NalUnit) → Type 0
HasBoth none = Unit {0}
HasBoth (some front) = (has_type nal_type_sps front ≡ true) × (has_type nal_type_pps front ≡ true)

-- If the unit has an IDR slice, an SPS and a PPS stand before the first one.
abbrev pub IsDecodable : List NalUnit → Type 0
IsDecodable nals = HasBoth (before_idr nals)

last_of-Holds :
    (t : ℕ) (held : Option NalUnit) (nals : List NalUnit)
    → Holds t held
    → Holds t (last_of t held nals)
last_of-Holds t held [] h = h
last_of-Holds t held (n ∷ ns) h = elim (Bool-cases (n.nal_type == t)) [
  | inl e ↦ rw e (last_of-Holds t (some n) ns (ground arith))
  | inr e ↦ rw e (last_of-Holds t held ns h)
]

last_of-seen :
    (t : ℕ) (held : Option NalUnit) (nals : List NalUnit)
    → has_type t nals ≡ true
    → Holds t (last_of t held nals)
last_of-seen t held [] h = cc
last_of-seen t held (n ∷ ns) h = elim (Bool-cases (n.nal_type == t)) [
  | inl e ↦ rw e (last_of-Holds t (some n) ns (ground arith))
  | inr e ↦ rw e (last_of-seen t held ns (rw e at h))
]

before_idr_prepend :
    (s p : NalUnit) (nals front : List NalUnit)
    → s.nal_type ≡ nal_type_sps
    → p.nal_type ≡ nal_type_pps
    → before_idr nals ≡ some front
    → IsDecodable (s ∷ p ∷ nals)
unfolding before_idr
before_idr_prepend s p nals front hs hp e = rw (hs, hp, e) (ground arith, ground arith)

prepend_cached-IsDecodable :
    (s p : Option NalUnit) (nals front : List NalUnit)
    → Holds nal_type_sps s
    → Holds nal_type_pps p
    → before_idr nals ≡ some front
    → IsDecodable (prepend_cached s p nals)
unfolding prepend_cached
prepend_cached-IsDecodable none p nals front hs hp e = absurd hs
prepend_cached-IsDecodable (some s) none nals front hs hp e = absurd hp
prepend_cached-IsDecodable (some s) (some p) nals front hs hp e =
    before_idr_prepend s p nals front hs hp e

module _ (c : SpsPpsCache) (nals : List NalUnit) where
  sent_inter : before_idr nals ≡ none → (ensure_parameter_sets c nals).1 ≡ nals
  unfolding ensure_parameter_sets
  sent_inter e = rw (e, ensure_parameter_sets)

  sent_own :
      (front : List NalUnit)
      → before_idr nals ≡ some front
      → (has_type nal_type_sps front && has_type nal_type_pps front) ≡ true
      → (ensure_parameter_sets c nals).1 ≡ nals
  unfolding ensure_parameter_sets
  sent_own front e h = rw (e, h, ensure_parameter_sets)

  sent_cached :
      (front : List NalUnit)
      → before_idr nals ≡ some front
      → (has_type nal_type_sps front && has_type nal_type_pps front) ≡ false
      → (ensure_parameter_sets c nals).1
        ≡ prepend_cached
            (ensure_parameter_sets c nals).0.sps
            (ensure_parameter_sets c nals).0.pps
            nals
  unfolding ensure_parameter_sets
  sent_cached front e h = rw (e, h, ensure_parameter_sets)

  -- Once the cache holds both parameter sets, also if this very unit brought them, the unit that
  -- is sent has an SPS and a PPS before its first IDR slice, or no IDR slice.
  pub ensure_parameter_sets-IsDecodable :
      IsReady (ensure_parameter_sets c nals).0 → IsDecodable (ensure_parameter_sets c nals).1
  ensure_parameter_sets-IsDecodable r = elim (Option-cases (before_idr nals)) [
    | inl e ↦ rw (sent_inter e) (rw e tt)
    | inr (front, e) ↦
        elim (Bool-cases (has_type nal_type_sps front && has_type nal_type_pps front)) [
          | inl h ↦ rw (sent_own front e h) (rw e (ground arith))
          | inr h ↦
              rw (sent_cached front e h)
                (prepend_cached-IsDecodable _ _ nals front r.sps_held r.pps_held e)
        ]
  ]

  ensure_parameter_sets-IsReady : IsReady c → IsReady (ensure_parameter_sets c nals).0
  ensure_parameter_sets-IsReady r = rw (ensure_parameter_sets_cache c nals) (record {
    sps_held = last_of-Holds nal_type_sps c.sps nals r.sps_held;
    pps_held = last_of-Holds nal_type_pps c.pps nals r.pps_held;
  })

  ensure_parameter_sets_first :
      has_type nal_type_sps nals ≡ true
      → has_type nal_type_pps nals ≡ true
      → IsReady (ensure_parameter_sets c nals).0
  ensure_parameter_sets_first hs hp = rw (ensure_parameter_sets_cache c nals) (record {
    sps_held = last_of-seen nal_type_sps c.sps nals hs;
    pps_held = last_of-seen nal_type_pps c.pps nals hp;
  })

-- The encoder's output loop: one cache for the whole stream.
pub ensure_stream : SpsPpsCache → List (List NalUnit) → List (List NalUnit)
ensure_stream c [] = []
ensure_stream c (nals ∷ more) =
    (ensure_parameter_sets c nals).1 ∷ ensure_stream (ensure_parameter_sets c nals).0 more

ensure_stream_ready :
    (c : SpsPpsCache) (stream : List (List NalUnit))
    → IsReady c
    → All IsDecodable (ensure_stream c stream)
unfolding ensure_stream
ensure_stream_ready c [] r = tt
ensure_stream_ready c (nals ∷ more) r =
    let r' = ensure_parameter_sets-IsReady c nals r in
    (
      ensure_parameter_sets-IsDecodable c nals r',
      ensure_stream_ready (ensure_parameter_sets c nals).0 more r',
    )

-- From the first access unit that carries an SPS and a PPS on, whatever was cached before, each
-- unit that is sent is decodable on its own if it has an IDR slice.
pub ensure_stream-IsDecodable :
    (c : SpsPpsCache) (first : List NalUnit) (stream : List (List NalUnit))
    → has_type nal_type_sps first ≡ true
    → has_type nal_type_pps first ≡ true
    → All IsDecodable (ensure_stream c (first ∷ stream))
unfolding ensure_stream
ensure_stream-IsDecodable c first stream hs hp =
    let r = ensure_parameter_sets_first c first hs hp in
    (ensure_parameter_sets-IsDecodable c first r, ensure_stream_ready _ stream r)
