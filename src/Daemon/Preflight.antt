-- ===== src/Daemon/Preflight.antt =====
-- phraseguard/phraseguardd.py: what Config reads of the environment, and the refusals of preflight.
-- Whether tcpdump is on PATH and the recogniser has a model are arguments.
use voip.Prelude.{
  Bool, true, false, ◌&&◌, ◌||◌, not, List, [], ◌∷◌, ◌++◌, map, none, some, ◌==◌, if◌then◌else◌,
  Text, codes, Text-eq, member, ◌≡◌, ◌↔◌, ◌⊎◌, inl, inr, refl,
}
use voip.Prelude.Dict
use voip.Metaphone.Loop.{is_empty}
use voip.Matcher.Normalize.{lower}
use voip.Actuator.Lines.{strip}
use voip.Tap.SipText.{words}

abbrev pub Env : Type 0
Env = List (Text × Text)

-- e.get(name)
unfoldable pub setting : Text → Env → Text
unfolding Dict.get
setting name env = elim (Dict.get name env) [ none ↦ [] | some v ↦ v ]

-- v.replace(",", " ")
unfoldable pub commas_to_spaces : Text → Text
commas_to_spaces s = map (λ c. if c == b',' then 32 else c) s

-- _csv: the words of split() have no white space to strip.
unfoldable pub csv : Text → List Text
unfolding words commas_to_spaces
csv v = words (commas_to_spaces v)

pub data Problem : Type 0 where
  no_customers : Problem
  no_tcpdump : Problem
  scripted : Problem
  no_recogniser : Problem
  heuristic_enforced : Problem

-- What preflight looks at.
pub record Setup : Type 0 where
  pub enforce : Bool
  pub customer_ips : List Text
  pub script_path : Text
  pub allow_heuristic : Bool
  pub replayed : Bool
  pub tcpdump : Bool
  pub model_loaded : Bool

abbrev note_if : Bool → Problem → List Problem
note_if b p = if b then p ∷ [] else []

unfoldable pub no_ips : List Text → Bool
no_ips [] = true
no_ips (ip ∷ ips) = false

-- The `problems` of preflight, in order.
unfoldable pub problems : Setup → List Problem
unfolding no_ips
problems s =
    note_if (no_ips s.customer_ips) no_customers
    ++ note_if (not s.replayed && not s.tcpdump) no_tcpdump
    ++ (if s.enforce && not (is_empty s.script_path)
        then scripted ∷ []
        else note_if (s.enforce && not s.model_loaded) no_recogniser)
    ++ note_if (s.enforce && s.allow_heuristic) heuristic_enforced

-- _bool
unfoldable pub truthy : Text → Bool → Bool
unfolding lower member strip
truthy v default =
    if is_empty v
    then default
    else member (lower (strip v)) (codes "1" ∷ codes "yes" ∷ codes "true" ∷ codes "on" ∷ [])

-- The arguments of the command line.
pub record Args : Type 0 where
  pub enforce : Bool
  pub shadow : Bool
  pub script : Text

-- Config.__init__, as far as preflight looks at it: --shadow wins over --enforce.
unfoldable pub configure : Env → Args → Bool → Bool → Bool → Setup
unfolding truthy setting csv
configure env args replayed tcpdump model_loaded = record {
  enforce =
      not args.shadow && (args.enforce || truthy (setting (codes "PHRASEGUARD_ENFORCE") env) false);
  customer_ips = csv (setting (codes "PK_CLIENT_IPS") env);
  script_path =
      if is_empty args.script then setting (codes "PHRASEGUARD_SCRIPT") env else args.script;
  allow_heuristic = truthy (setting (codes "PHRASEGUARD_ALLOW_HEURISTIC_MATCH") env) false;
  replayed = replayed;
  tcpdump = tcpdump;
  model_loaded = model_loaded;
}

-- The same refusals, of the tests alone.
note_all : Bool → Bool → Bool → Bool → Bool → Bool → List Problem
note_all ips tap enforce script model heuristic =
    note_if ips no_customers
    ++ note_if tap no_tcpdump
    ++ (if enforce && script then scripted ∷ [] else note_if (enforce && not model) no_recogniser)
    ++ note_if (enforce && heuristic) heuristic_enforced

Fine : Bool → Bool → Bool → Bool → Bool → Bool → Type 0
Fine ips tap enforce script model heuristic =
    (ips ≡ false)
    × (tap ≡ false)
    × ((enforce ≡ false) ⊎ ((script ≡ false) × (model ≡ true) × (heuristic ≡ false)))

note_all_empty :
    (ips tap enforce script model heuristic : Bool)
    → (note_all ips tap enforce script model heuristic ≡ [])
      ↔ Fine ips tap enforce script model heuristic
unfolding note_all Fine
note_all_empty true tap enforce script model heuristic =
    (λ e. absurd (cc e), λ h. absurd (cc (h.0)))
note_all_empty false true enforce script model heuristic =
    (λ e. absurd (cc e), λ h. absurd (cc (h.1)))
note_all_empty false false false script model heuristic = (λ e. (refl, refl, inl refl), λ h. refl)
note_all_empty false false true true model heuristic =
    (λ e. absurd (cc e), λ h. elim h.2 [ inl e ↦ absurd (cc e) | inr (s, m, n) ↦ absurd (cc s) ])
note_all_empty false false true false false heuristic =
    (λ e. absurd (cc e), λ h. elim h.2 [ inl e ↦ absurd (cc e) | inr (s, m, n) ↦ absurd (cc m) ])
note_all_empty false false true false true true =
    (λ e. absurd (cc e), λ h. elim h.2 [ inl e ↦ absurd (cc e) | inr (s, m, n) ↦ absurd (cc n) ])
note_all_empty false false true false true false =
    (λ e. (refl, refl, inr (refl, refl, refl)), λ h. refl)

not-false : (b : Bool) → (not b ≡ false) ↔ (b ≡ true)
not-false true = (λ e. refl, λ e. refl)
not-false false = (λ e. absurd (cc e), λ e. absurd (cc e))

neither-false : (a b : Bool) → ((not a && not b) ≡ false) ↔ ((a || b) ≡ true)
neither-false true b = (λ e. refl, λ e. refl)
neither-false false b = not-false b

-- preflight finds no problem exactly when there is a customer address, the packets come from a file or
-- tcpdump is there, and enforcement is off or has a recogniser that is no script and resolves calls by
-- their Call-ID alone.
pub problems_iff :
    (s : Setup)
    → (problems s ≡ []) ↔ (
        (no_ips s.customer_ips ≡ false)
        × ((s.replayed || s.tcpdump) ≡ true)
        × ((s.enforce ≡ false)
            ⊎ ((is_empty s.script_path ≡ true)
                × (s.model_loaded ≡ true)
                × (s.allow_heuristic ≡ false))))
unfolding problems note_all Fine
problems_iff s =
    let tests =
      note_all_empty (no_ips s.customer_ips) (not s.replayed && not s.tcpdump) s.enforce
        (not (is_empty s.script_path)) s.model_loaded s.allow_heuristic in
    let packets = neither-false s.replayed s.tcpdump in
    let spoken = not-false (is_empty s.script_path) in
    (
      λ e.
          let (ips, tap, fine) = tests.0 e in
          (
            ips,
            packets.0 tap,
            elim fine [
              | inl off ↦ inl off
              | inr (script, model, exact) ↦ inr (spoken.0 script, model, exact)
            ],
          ),
      λ h. tests.1 (
        h.0,
        packets.1 h.1,
        elim h.2 [
          | inl off ↦ inl off
          | inr (script, model, exact) ↦ inr (spoken.1 script, model, exact)
        ],
      ),
    )
