-- ===== src/Tap/SipText.antt =====
-- phraseguard/tap.py: what SipTracker reads out of the text of a SIP message.
-- str.isdigit and int are parameters; int is `none` where it raises.
use voip.Prelude.{
  ℕ, zero, suc, ◌-◌, Bool, true, false, ◌&&◌, List, [], ◌∷◌, ◌++◌, map, Option, none, some, length,
  drop, leb, ◌==◌, if◌then◌else◌, Text, codes, same_text,
}
use voip.Matcher.Normalize.{lower}
use voip.Metaphone.Loop.{is_empty}
use voip.Actuator.Lines.{is_space, strip, pieces, split_on, starts_with, has_char}

-- str.upper, as far as the result can be a word of ASCII letters: two letters outside of ASCII have
-- such a capital.
unfoldable pub upper_char : ℕ → ℕ
upper_char c =
    if leb b'a' c && leb c b'z'
    then c - 32
    else if c == 0x131
    then b'I'
    else if c == 0x17f
    then b'S'
    else c

unfoldable pub upper : Text → Text
unfolding upper_char
upper s = map upper_char s

-- s.split(c, 1)[0], and s.split(c, 1)[1] where `c` is in `s`
unfoldable pub before_first : ℕ → Text → Text
before_first c s = (pieces c s).0

unfoldable pub after_first : ℕ → Text → Text
after_first c [] = []
after_first c (d ∷ ds) = let rest = after_first c ds in if d == c then ds else rest

-- t in s
unfoldable pub has_text : Text → Text → Bool
has_text t [] = is_empty t
has_text t (c ∷ cs) = let later = has_text t cs in if starts_with t (c ∷ cs) then true else later

-- s.split(t, 1)[-1], where `t` is in `s`
unfoldable pub behind_text : Text → Text → Text
behind_text t [] = []
behind_text t (c ∷ cs) =
    let later = behind_text t cs in
    if starts_with t (c ∷ cs) then drop (length t) (c ∷ cs) else later

-- s.split(), with the word so far
unfoldable pub words_onto : Text → Text → List Text
words_onto [] [] = []
words_onto (d ∷ w) [] = (d ∷ w) ∷ []
words_onto w (c ∷ cs) =
    let broken = words_onto [] cs in
    let longer = words_onto (w ++ (c ∷ [])) cs in
    if is_space c then (if is_empty w then broken else w ∷ broken) else longer

unfoldable pub words : Text → List Text
words s = words_onto [] s

-- `s or None`
unfoldable pub or_none : Text → Option Text
or_none [] = none
or_none (c ∷ cs) = some (c ∷ cs)

-- The compact form of a header's name
unfoldable pub compact : Text → Option Text
compact low =
    if same_text low (codes "call-id")
    then some (codes "i:")
    else if same_text low (codes "from")
    then some (codes "f:")
    else if same_text low (codes "to")
    then some (codes "t:")
    else none

unfoldable pub starts_with_short : Option Text → Text → Bool
starts_with_short none s = false
starts_with_short (some short) s = starts_with short s

-- len(short)
unfoldable pub short_length : Option Text → ℕ
short_length none = 0
short_length (some short) = length short

-- The loop of _header.
unfoldable pub find_header : Text → Option Text → List Text → Option Text
find_header want short [] = none
find_header want short (line ∷ lines) =
    let later = find_header want short lines in
    let s = strip line in
    if starts_with want (lower s)
    then some (strip (drop (length want) s))
    else if starts_with_short short (lower s)
    then some (strip (drop (short_length short) s))
    else later

-- _header
unfoldable pub header : Text → Text → Option Text
unfolding find_header
header text name =
    let low = lower name in find_header (low ++ (b':' ∷ [])) (compact low) (split_on 10 text)

unfoldable pub inside_angles : Text → Text
inside_angles s = if has_char b'<' s then before_first b'>' (after_first b'<' s) else s

unfoldable pub behind_scheme : Text → Text
behind_scheme s = if has_char b':' s then after_first b':' s else s

-- _user
unfoldable pub user : Option Text → Option Text
user none = none
user (some uri) =
    if is_empty uri
    then none
    else or_none (strip (before_first b';' (before_first b'@' (behind_scheme (inside_angles uri)))))

module _ (is_digit : Text → Bool) (to_int : Text → Option ℕ) where
  -- int(parts[1]) where parts[1].isdigit(), and else what was there; `none` is an exception.
  unfoldable pub number_after : List Text → Option ℕ → Option (Option ℕ)
  number_after (_ ∷ word ∷ _) old =
      if is_digit word
      then elim (to_int word) [ none ↦ none | some n ↦ some (some n) ]
      else some old
  number_after _ old = some old

  -- The loop of _sdp_audio.
  unfoldable pub sdp_loop : List Text → Option Text → Option ℕ → Option (Option Text × Option ℕ)
  unfolding number_after
  sdp_loop [] ip port = some (ip, port)
  sdp_loop (line ∷ lines) ip port =
      let s = strip line in
      let connection = sdp_loop lines (or_none (strip (before_first b'/' (drop 9 s)))) port in
      let audio : Option (Option Text × Option ℕ) = elim (number_after (words s) port) [
        | none ↦ none
        | some port' ↦ sdp_loop lines ip port'
      ] in
      let other = sdp_loop lines ip port in
      if starts_with (codes "c=IN IP4 ") s
      then connection
      else if starts_with (codes "m=audio ") s
      then audio
      else other

  -- _sdp_audio: the outer `none` is an exception.
  unfoldable pub sdp_audio : Text → Option (Option (Option Text × ℕ))
  unfolding sdp_loop
  sdp_audio text = elim (sdp_loop (split_on 10 text) none none) [
    | none ↦ none
    | some (ip, none) ↦ some none
    | some (ip, some zero) ↦ some none
    | some (ip, some (suc n)) ↦ some (some (ip, suc n))
  ]

abbrev pub crlf2 : Text
crlf2 = 13 ∷ 10 ∷ 13 ∷ 10 ∷ []

abbrev pub lf2 : Text
lf2 = 10 ∷ 10 ∷ []

-- The body of a message.
unfoldable pub body_of : Text → Text
unfolding has_text behind_text
body_of text =
    if has_text lf2 text
    then behind_text lf2 text
    else if has_text crlf2 text
    then behind_text crlf2 text
    else []
