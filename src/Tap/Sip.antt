-- ===== src/Tap/Sip.antt =====
-- phraseguard/tap.py: SipTracker, from the SIP of a call to the address of its audio.
-- The decoding of UTF-8 is a parameter. Times are in microseconds.
use voip.Prelude.{
  ℕ, zero, suc, ◌+◌, ◌-◌, ◌*◌, Bool, true, false, ◌&&◌, ◌||◌, List, [], ◌∷◌, Option, none, some,
  ltb, ◌==◌, if◌then◌else◌, Text, same_text, Text-eq, same_text_iff, ◌↔◌, ◌≡◌, ==_iff, and-true,
  and_intro, ap,
}
use voip.Prelude.Dict
use voip.Prelude.Keys.{Eq}
use voip.Metaphone.Loop.{is_empty}

-- An address of audio, (ip, port).
abbrev pub Media : Type 0
Media = Text × ℕ

unfoldable pub same_media : Media → Media → Bool
unfolding same_text
same_media a b = same_text a.0 b.0 && a.1 == b.1

pub same_media_iff : (a b : Media) → (same_media a b ≡ true) ↔ (a ≡ b)
unfolding same_media
same_media_iff (a, i) (b, j) = (
  λ h.
      let p = and-true (same_text a b) (i == j) h in
      λ k. ((same_text_iff a b).0 p.0 k, (==_iff i j).0 p.1 k),
  λ e.
      and_intro (same_text a b) (i == j) ((same_text_iff a b).1 (ap (λ m. m.0) e))
        ((==_iff i j).1 (ap (λ m. m.1) e)),
)

instance abbrev pub Media-eq : Eq Media
Media-eq = record { beq = same_media; beq_iff = same_media_iff }

-- (src, sport, dst, dport, ssrc)
pub record StreamKey : Type 0 where
  pub src : Text
  pub sport : ℕ
  pub dst : Text
  pub dport : ℕ
  pub ssrc : ℕ

pub record CallInfo : Type 0 where
  pub call_id : Text
  pub customer_ip : Option Text
  pub ani : Option Text
  pub dnis : Option Text
  pub started : ℕ
  pub answered : Option ℕ
  pub ended : Option ℕ
  pub customer_media : Option Media
  pub sbc_media : Option Media
  pub invite_seen : Bool
  pub streams : List StreamKey

-- CallInfo.__init__
unfoldable pub new_call : Text → ℕ → CallInfo
new_call call_id ts = record {
  call_id = call_id;
  customer_ip = none;
  ani = none;
  dnis = none;
  started = ts;
  answered = none;
  ended = none;
  customer_media = none;
  sbc_media = none;
  invite_seen = false;
  streams = [];
}

-- The counter `stats` of a tracker.
pub record SipStats : Type 0 where
  pub sip_not_customer : ℕ
  pub sip_orphan : ℕ
  pub calls_seen : ℕ
  pub calls_ended : ℕ

pub record SipTracker : Type 0 where
  pub customer_ips : List Text
  pub expiry : ℕ
  pub calls : List (Text × CallInfo)
  pub by_media : List (Media × Text)
  pub stats : SipStats
  pub last_gc : ℕ

abbrev pub second : ℕ
second = 1000000

-- SipTracker.__init__
unfoldable pub new_tracker : List Text → ℕ → SipTracker
new_tracker customer_ips expiry = record {
  customer_ips = customer_ips;
  expiry = expiry;
  calls = [];
  by_media = [];
  stats = record { sip_not_customer = 0; sip_orphan = 0; calls_seen = 0; calls_ended = 0 };
  last_gc = 0;
}

abbrev pub with_calls : List (Text × CallInfo) → SipTracker → SipTracker
with_calls calls t = record {
  customer_ips = t.customer_ips;
  expiry = t.expiry;
  calls = calls;
  by_media = t.by_media;
  stats = t.stats;
  last_gc = t.last_gc;
}

abbrev pub with_media : List (Media × Text) → SipTracker → SipTracker
with_media by_media t = record {
  customer_ips = t.customer_ips;
  expiry = t.expiry;
  calls = t.calls;
  by_media = by_media;
  stats = t.stats;
  last_gc = t.last_gc;
}

abbrev pub with_stats : SipStats → SipTracker → SipTracker
with_stats stats t = record {
  customer_ips = t.customer_ips;
  expiry = t.expiry;
  calls = t.calls;
  by_media = t.by_media;
  stats = stats;
  last_gc = t.last_gc;
}

abbrev pub count_not_customer : SipTracker → SipTracker
count_not_customer t =
    with_stats
      record {
        sip_not_customer = t.stats.sip_not_customer + 1;
        sip_orphan = t.stats.sip_orphan;
        calls_seen = t.stats.calls_seen;
        calls_ended = t.stats.calls_ended;
      }
      t

abbrev pub count_orphan : SipTracker → SipTracker
count_orphan t =
    with_stats
      record {
        sip_not_customer = t.stats.sip_not_customer;
        sip_orphan = t.stats.sip_orphan + 1;
        calls_seen = t.stats.calls_seen;
        calls_ended = t.stats.calls_ended;
      }
      t

abbrev pub count_seen : SipTracker → SipTracker
count_seen t =
    with_stats
      record {
        sip_not_customer = t.stats.sip_not_customer;
        sip_orphan = t.stats.sip_orphan;
        calls_seen = t.stats.calls_seen + 1;
        calls_ended = t.stats.calls_ended;
      }
      t

abbrev pub count_ended : SipTracker → SipTracker
count_ended t =
    with_stats
      record {
        sip_not_customer = t.stats.sip_not_customer;
        sip_orphan = t.stats.sip_orphan;
        calls_seen = t.stats.calls_seen;
        calls_ended = t.stats.calls_ended + 1;
      }
      t

-- c.ended and now - c.ended > 120: a time of 0 is false.
unfoldable pub long_ended : ℕ → CallInfo → Bool
long_ended now c = elim c.ended [
  | none ↦ false
  | some zero ↦ false
  | some (suc e) ↦ ltb (120 * second) (now - suc e)
]

unfoldable pub is_dead : ℕ → ℕ → CallInfo → Bool
unfolding long_ended
is_dead expiry now c = long_ended now c || ltb expiry (now - c.started)

-- The ids of `dead`.
unfoldable pub dead_ids : ℕ → ℕ → List (Text × CallInfo) → List Text
unfolding is_dead
dead_ids expiry now [] = []
dead_ids expiry now ((cid, c) ∷ calls) =
    let rest = dead_ids expiry now calls in if is_dead expiry now c then cid ∷ rest else rest

-- if key and self.by_media.get(key) == cid: self.by_media.pop(key, None)
unfoldable pub release : Text → Option Media → List (Media × Text) → List (Media × Text)
unfolding same_text Dict.get Dict.erase
release cid none by_media = by_media
release cid (some key) by_media = elim (Dict.get key by_media) [
  | none ↦ by_media
  | some owner ↦ (if same_text owner cid then Dict.erase key by_media else by_media)
]

-- One round of the loop over `dead`.
unfoldable pub forget : Text → SipTracker → SipTracker
unfolding release Dict.get Dict.erase
forget cid t = elim (Dict.get cid t.calls) [
  | none ↦ t
  | some c ↦
      with_media (release cid c.sbc_media (release cid c.customer_media t.by_media))
        (with_calls (Dict.erase cid t.calls) t)
]

unfoldable pub forget_all : List Text → SipTracker → SipTracker
unfolding forget
forget_all [] t = t
forget_all (cid ∷ cids) t = forget_all cids (forget cid t)

abbrev pub at_gc : ℕ → SipTracker → SipTracker
at_gc now t = record {
  customer_ips = t.customer_ips;
  expiry = t.expiry;
  calls = t.calls;
  by_media = t.by_media;
  stats = t.stats;
  last_gc = now;
}

-- _gc
unfoldable pub gc : ℕ → SipTracker → SipTracker
unfolding forget_all dead_ids
gc now t =
    if ltb (now - t.last_gc) (60 * second)
    then t
    else forget_all (dead_ids t.expiry now t.calls) (at_gc now t)

-- call_for_media: an empty id is false.
unfoldable pub call_for_media : Text → ℕ → SipTracker → Option CallInfo
unfolding Dict.get
call_for_media ip port t = elim (Dict.get (ip, port) t.by_media) [
  | none ↦ none
  | some cid ↦ (if is_empty cid then none else Dict.get cid t.calls)
]
