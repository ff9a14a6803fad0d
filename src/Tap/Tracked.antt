-- ===== src/Tap/Tracked.antt =====
-- phraseguard/tap.py: the calls that a SipTracker holds, whatever datagrams it was fed.
use voip.Prelude.{
  ℕ, Bool, true, false, List, Option, none, some, Text, Text-eq, ◌≡◌, refl, sym, subst, ◌⊎◌, inl,
  inr, All, Bool-cases, Option-cases, member, ◌||◌, ◌&&◌, not, if◌then◌else◌, codes,
}
use voip.Prelude.Dict
use voip.Metaphone.Loop.{is_empty}
use voip.Actuator.Lines.{strip, starts_with}
use voip.Tap.G711.{Bytes}
use voip.Tap.SipText.{before_first, has_text, header, sdp_audio, body_of}
use voip.Tap.Sip.{Media-eq, CallInfo, new_call, SipTracker, with_media, count_seen, count_ended, gc}
use voip.Tap.SipFeed.{
  Message, message_of, Reply, nothing, touched, raised, is_method, identify, set_media, answer,
  end_call, is_ok, is_failure, is_none, put_call, finish, media_key, read_body, handle, status_code,
  feed_call, may_have_id, feed,
}
use voip.Tap.Swept.{gc-cases, erase_all-All}

-- A call under its own id, with its INVITE seen, between us and a customer.
abbrev pub IsCustomerCall : List Text → Text × CallInfo → Type 0
IsCustomerCall ips p =
    (p.1.call_id ≡ p.0)
    × (p.1.invite_seen ≡ true)
    × ((ip : Text) × (p.1.customer_ip ≡ some ip) × (member ip ips ≡ true))

abbrev pub IsTracker : SipTracker → Type 0
IsTracker t = All (IsCustomerCall t.customer_ips) t.calls

-- What a reply says of the state.
abbrev pub Replied : SipTracker → SipTracker → Reply → Type 0
Replied t t' nothing = (t'.calls ≡ t.calls) × (t'.by_media ≡ t.by_media)
Replied t t' (touched c) = IsCustomerCall t.customer_ips (c.call_id, c)
Replied t t' raised = Unit

abbrev pub Fed : SipTracker → SipTracker × Reply → Type 0
Fed t r = IsTracker r.0 × (r.0.customer_ips ≡ t.customer_ips) × Replied t r.0 r.1

-- What holds behind the steps on a call.
abbrev Handled : List Text → Reply → Type 0
Handled ips nothing = ⊥
Handled ips (touched c) = IsCustomerCall ips (c.call_id, c)
Handled ips raised = Unit

abbrev Done : List Text → SipTracker × Reply → Type 0
Done ips r = IsTracker r.0 × (r.0.customer_ips ≡ ips) × Handled ips r.1

Done-Fed : (t : SipTracker) (r : SipTracker × Reply) → Done t.customer_ips r → Fed t r
Done-Fed t (t', nothing) h = absurd h.2
Done-Fed t (t', touched c) h = h
Done-Fed t (t', raised) h = h

gc-IsTracker :
    (now : ℕ) (t : SipTracker)
    → IsTracker t
    → IsTracker (gc now t) × ((gc now t).customer_ips ≡ t.customer_ips)
gc-IsTracker now t h = elim (gc-cases now t) [
  | inl (early, e) ↦ rw e (h, refl)
  | inr (calls, _, ips, _) ↦
      (rw (ips, calls) (erase_all-All (IsCustomerCall t.customer_ips) _ t.calls h), ips)
]

if_keeps {ℓ κ} :
    {A : Type ℓ} (P : A → Type κ) (b : Bool) (x y : A) → P x → P y → P (if b then x else y)
if_keeps P true x y hx hy = hx
if_keeps P false x y hx hy = hy

put_call-IsTracker :
    (cid : Text) (c : CallInfo) (t : SipTracker)
    → IsCustomerCall t.customer_ips (cid, c)
    → IsTracker t
    → IsTracker (put_call cid c t)
unfolding put_call
put_call-IsTracker cid c t hc h = Dict.put-All (IsCustomerCall t.customer_ips) cid c t.calls hc h

-- The end of feed, on the state behind it.
gc-Done :
    (ts : ℕ) (cid : Text) (c : CallInfo) (t : SipTracker)
    → IsCustomerCall t.customer_ips (cid, c)
    → IsTracker t
    → Done t.customer_ips (gc ts t, touched c)
gc-Done ts cid c t hc h = let (kept, ips) = gc-IsTracker ts t h in (kept, ips, (refl, hc.1, hc.2))

finish-Done :
    (ts : ℕ) (m : Message) (c : CallInfo) (t : SipTracker)
    → IsCustomerCall t.customer_ips (m.call_id, c)
    → IsTracker t
    → Done t.customer_ips (finish ts m c t)
unfolding finish answer end_call put_call
finish-Done ts m c t hc h =
    let answers = is_ok m.code && (is_none c.answered && c.invite_seen) in
    let c' = if answers then answer ts c else c in
    let hc' =
      if_keeps (λ c. IsCustomerCall t.customer_ips (m.call_id, c)) answers (answer ts c) c hc hc in
    let ended = end_call ts c' in
    if_keeps (Done t.customer_ips)
      ((is_method "BYE" m.method || is_failure m.code) && is_none c'.ended)
      (gc ts (count_ended (put_call m.call_id ended t)), touched ended)
      (gc ts (put_call m.call_id c' t), touched c')
      (gc-Done ts m.call_id ended (count_ended (put_call m.call_id ended t)) hc'
        (put_call-IsTracker m.call_id ended t hc' h))
      (gc-Done ts m.call_id c' (put_call m.call_id c' t) hc'
        (put_call-IsTracker m.call_id c' t hc' h))

module _ (is_digit : Text → Bool) (to_int : Text → Option ℕ) where
  read_body-Done :
      (ts : ℕ) (src : Text) (m : Message) (c : CallInfo) (t : SipTracker)
      → IsCustomerCall t.customer_ips (m.call_id, c)
      → IsTracker t
      → Done t.customer_ips (read_body is_digit to_int ts src m c t)
  unfolding read_body set_media put_call
  read_body-Done ts src m c t hc h =
      elim (Bool-cases (has_text (codes "m=audio") (body_of m.text))) [
        | inr silent ↦ rw (read_body, silent) (finish-Done ts m c t hc h)
        | inl spoken ↦ elim (Option-cases (sdp_audio is_digit to_int (body_of m.text))) [
          | inl fails ↦
              rw (read_body, spoken, fails) (put_call-IsTracker m.call_id c t hc h, refl, tt)
          | inr (none, e) ↦ rw (read_body, spoken, e) (finish-Done ts m c t hc h)
          | inr (some media, e) ↦
              let key = media_key src media in
              rw (read_body, spoken, e)
                (finish-Done ts m (set_media m.from_customer key c)
                  (with_media (Dict.put key m.call_id t.by_media) t) hc h)
        ]
      ]

  -- The side of the message that is the customer.
  customer_side :
      (src dst : Text) (ips : List Text) (from_customer : Bool)
      → from_customer ≡ member src ips
      → (member src ips || member dst ips) ≡ true
      → member (if from_customer then src else dst) ips ≡ true
  customer_side src dst ips true e h = sym e
  customer_side src dst ips false e h = rw (sym e) at h

  identify-IsCustomerCall :
      (src dst : Text) (m : Message) (c : CallInfo) (ips : List Text)
      → c.call_id ≡ m.call_id
      → m.from_customer ≡ member src ips
      → (member src ips || member dst ips) ≡ true
      → (IsCustomerCall ips (m.call_id, c))
        ⊎ ((c.invite_seen ≡ false) × (is_method "INVITE" m.method ≡ true))
      → IsCustomerCall ips (m.call_id, identify src dst m c)
  unfolding identify
  identify-IsCustomerCall src dst m c ips e from ours known =
      elim (Bool-cases (is_method "INVITE" m.method && not c.invite_seen)) [
        | inl new ↦
            rw (identify, new)
              (
                e,
                refl,
                (
                  (if m.from_customer then src else dst),
                  refl,
                  customer_side src dst ips m.from_customer from ours,
                ),
              )
        | inr old ↦
            rw (identify, old)
              (elim known [
                | inl hc ↦ hc
                | inr (unseen, invite) ↦ absurd (cc (rw (unseen, invite) at old))
              ])
      ]

  handle-Fed :
      (ts : ℕ) (src dst : Text) (m : Message) (t : SipTracker)
      → m.from_customer ≡ member src t.customer_ips
      → (member src t.customer_ips || member dst t.customer_ips) ≡ true
      → IsTracker t
      → Fed t (handle is_digit to_int ts src dst m t)
  unfolding handle new_call
  handle-Fed ts src dst m t from ours h = elim (Option-cases (Dict.get m.call_id t.calls)) [
    | inr (c, known) ↦
        let hc = Dict.get-All (IsCustomerCall t.customer_ips) m.call_id c t.calls known h in
        let hi = identify-IsCustomerCall src dst m c t.customer_ips hc.0 from ours (inl hc) in
        rw (handle, known)
          (Done-Fed t (read_body is_digit to_int ts src m (identify src dst m c) t)
            (read_body-Done ts src m (identify src dst m c) t hi h))
    | inl unknown ↦ elim (Bool-cases (is_method "INVITE" m.method)) [
      | inr other ↦ rw (handle, unknown, other) (h, refl, (refl, refl))
      | inl invite ↦
          let c = new_call m.call_id ts in
          let hi =
            identify-IsCustomerCall src dst m c t.customer_ips refl from ours
              (inr (refl, invite)) in
          let e : handle is_digit to_int ts src dst m t
              ≡ read_body is_digit to_int ts src m (identify src dst m c) (count_seen t) =
            rw (handle, unknown, invite) refl in
          subst (Fed t) (sym e) (
            Done-Fed t (read_body is_digit to_int ts src m (identify src dst m c) (count_seen t))
              (read_body-Done ts src m (identify src dst m c) (count_seen t) hi h))
    ]
  ]

  feed_call-Fed :
      (ts : ℕ) (src dst text call_id : Text) (t : SipTracker)
      → IsTracker t
      → Fed t (feed_call is_digit to_int ts src dst text call_id t)
  unfolding feed_call
  feed_call-Fed ts src dst text call_id t h =
      let first = strip (before_first 10 text) in
      let is_request = not (starts_with (codes "SIP/2.0") first) in
      elim (Option-cases (status_code is_digit to_int is_request first)) [
        | inl fails ↦ rw (feed_call, fails) (h, refl, tt)
        | inr (code, read) ↦
            elim (Bool-cases (member src t.customer_ips || member dst t.customer_ips)) [
              | inr strangers ↦ rw (feed_call, read, strangers) (h, refl, (refl, refl))
              | inl ours ↦
                  rw (feed_call, read, ours)
                    (handle-Fed ts src dst
                      (message_of text call_id first is_request code (member src t.customer_ips)) t
                      refl ours h)
            ]
      ]

  -- Whatever datagram a tracker is fed, each call it holds stands under its own id, had its INVITE, and
  -- is with one of the customers; where feed returns None the calls and the addresses of their audio
  -- are unchanged, and a call that it returns is one of a customer.
  pub feed-Fed :
      (decode : Bytes → Text) (ts : ℕ) (src dst : Text) (payload : Bytes) (t : SipTracker)
      → IsTracker t
      → Fed t (feed is_digit to_int decode ts src dst payload t)
  unfolding feed
  feed-Fed decode ts src dst payload t h = elim (Bool-cases (may_have_id (decode payload))) [
    | inr unlikely ↦ rw (feed, unlikely) (h, refl, (refl, refl))
    | inl likely ↦ elim (Option-cases (header (decode payload) (codes "Call-ID"))) [
      | inl absent ↦ rw (feed, likely, absent) (h, refl, (refl, refl))
      | inr (call_id, present) ↦
          rw (feed, likely, present)
            (if_keeps (Fed t) (is_empty call_id) (t, nothing)
              (feed_call is_digit to_int ts src dst (decode payload) call_id t)
              (h, refl, (refl, refl)) (feed_call-Fed ts src dst (decode payload) call_id t h))
    ]
  ]
