-- ===== src/Tap/Streams.antt =====
-- phraseguard/tap.py: what the steps of RtpDemux.feed keep of each stream and of the table.
use voip.Prelude.{
  ℕ, ◌-◌, ◌*◌, ◌≤◌, true, List, [], ◌∷◌, ◌++◌, Text, Text-eq, ◌≡◌, if_keeps, refl, subst, ◌⊎◌, inl,
  inr, All, Bool-cases, Option-cases, arith, member, ltb, ◌==◌, length, length-drop,
}
use voip.Prelude.Dict
use voip.Tap.G711.{Bytes, decode_g711}
use voip.Tap.Sip.{StreamKey, SipTracker, second}
use voip.Tap.Rtp.{StreamKey-eq, Stream, RtpDemux, counted, close_idle, gc}
use voip.Tap.RtpFeed.{attribute, attributed, attribute_stream, buffered, push_audio, put_stream}

module _ {Float : Type 0} where
  -- A stream under its own key, from an address of the customers, within the size of the ring, with no
  -- audio before its gate is open, and with counts that agree.
  abbrev pub IsStream : List Text → ℕ → StreamKey × Stream Float → Type 0
  IsStream ips ring p =
      (p.1.key ≡ p.0)
      × (member p.0.src ips ≡ true)
      × (length p.1.pcm ≤ ring)
      × ((p.1.gate_open ≡ true) ⊎ (p.1.pcm ≡ []))
      × (p.1.voiced_packets ≤ p.1.packets)
      × (p.1.rms_n ≡ p.1.packets)

  abbrev pub IsDemux : RtpDemux Float → Type 0
  IsDemux d = All (IsStream d.media_ips d.ring_bytes) d.streams

  abbrev pub SameLimits : RtpDemux Float → RtpDemux Float → Type 0
  SameLimits d d' = (d'.media_ips ≡ d.media_ips) × (d'.ring_bytes ≡ d.ring_bytes)

  pub limits_moved :
      (ips ips' : List Text) (ring ring' : ℕ) (p : StreamKey × Stream Float)
      → ips ≡ ips'
      → ring ≡ ring'
      → IsStream ips ring p
      → IsStream ips' ring' p
  limits_moved ips ips' ring ring' p e f h =
      subst (λ i. IsStream i ring' p) e (subst (λ r. IsStream ips r p) f h)

  close_idle-All {κ} :
      (P : StreamKey × Stream Float → Type κ) (idle now : ℕ)
      (streams : List (StreamKey × Stream Float))
      → All P streams
      → All P (close_idle idle now streams).0
  unfolding close_idle
  close_idle-All P idle now [] h = tt
  close_idle-All P idle now ((k, s) ∷ streams) h = elim (Bool-cases (ltb idle (now - s.last_ts))) [
    | inl old ↦ rw (close_idle, old) (close_idle-All P idle now streams h.1)
    | inr live ↦ rw (close_idle, live) (h.0, close_idle-All P idle now streams h.1)
  ]

  pub gc-IsDemux :
      (now : ℕ) (d : RtpDemux Float) → IsDemux d → IsDemux (gc now d) × SameLimits d (gc now d)
  unfolding gc
  gc-IsDemux now d h = elim (Bool-cases (ltb (now - d.last_gc) (30 * second))) [
    | inl early ↦ rw (gc, early) (h, (refl, refl))
    | inr due ↦
        rw (gc, due)
          (
            close_idle-All (IsStream d.media_ips d.ring_bytes) d.idle_timeout now d.streams h,
            (refl, refl),
          )
  ]

  pub put_stream-IsDemux :
      (s : Stream Float) (d : RtpDemux Float)
      → IsStream d.media_ips d.ring_bytes (s.key, s)
      → IsDemux d
      → IsDemux (put_stream s d)
  unfolding put_stream
  put_stream-IsDemux s d hs h =
      Dict.put-All (IsStream d.media_ips d.ring_bytes) s.key s d.streams hs h

  pub push_audio-IsStream :
      (audio : Bytes) (s : Stream Float) (d : RtpDemux Float)
      → IsStream d.media_ips d.ring_bytes (s.key, s)
      → IsDemux d
      → let (s', d') = push_audio audio s d in
        IsStream d.media_ips d.ring_bytes (s'.key, s')
        × (s'.gate_open ≡ true)
        × IsDemux d'
        × SameLimits d d'
  unfolding push_audio buffered
  push_audio-IsStream audio s d (e, src, _, _, voiced, n) h =
      let pcm = s.pcm ++ decode_g711 s.codec_alaw audio in
      elim (Bool-cases (ltb d.ring_bytes (length pcm))) [
        | inl over ↦
            rw (push_audio, over)
              (
                (
                  refl,
                  src,
                  omega (arith, length-drop (length pcm - d.ring_bytes) pcm),
                  inl refl,
                  voiced,
                  n,
                ),
                refl,
                h,
                (refl, refl),
              )
        | inr fits ↦
            rw (push_audio, fits)
              ((refl, src, ground arith, inl refl, voiced, n), refl, h, (refl, refl))
      ]

  pub attribute_stream-IsStream :
      (s : Stream Float) (t : SipTracker) (d : RtpDemux Float)
      → IsStream d.media_ips d.ring_bytes (s.key, s)
      → IsDemux d
      → let (s', t', d') = attribute_stream s t d in
        IsStream d.media_ips d.ring_bytes (s'.key, s') × IsDemux d' × SameLimits d d'
  unfolding attribute_stream attributed
  attribute_stream-IsStream s t d hs h = elim (Option-cases s.call_id) [
    | inr (cid, known) ↦ rw (attribute_stream, known) (hs, h, (refl, refl))
    | inl unknown ↦ elim (Option-cases (attribute s.key t)) [
      | inr (c, found) ↦ rw (attribute_stream, unknown, found) (hs, h, (refl, refl))
      | inl missing ↦
          let (h', same) =
            if_keeps (λ d'. IsDemux d' × SameLimits d d') (s.packets == 0)
              (counted "streams_unattributed" d) d (h, (refl, refl)) (h, (refl, refl)) in
          rw (attribute_stream, unknown, missing) (hs, h', same)
    ]
  ]
