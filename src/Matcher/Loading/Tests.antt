-- ===== src/Matcher/Loading/Tests.antt =====
-- Loading and reloading at concrete inputs.
use voip.Prelude.{◌≡◌, refl, String, false, List, [], ◌∷◌, Option, none, some, arith, Text, codes}
use voip.Matcher.Index.{build_index}
use voip.Actuator.Lines.{split_on}
use voip.Matcher.Loading.{LoadError, Outcome, State, reload_if_changed, read_corpus}
use voip.Matcher.Loading.Reload.{
  WellFormed, Reloaded, reload_if_changed-Reloaded, reload_if_changed_once,
}
use voip.Matcher.Loading.Rows.{Holds, UsableCorpus, read_corpus-UsableCorpus}
use voip.Matcher.Tests.{any_desk}

abbrev pack : Text → String
pack t = ""

abbrev file : Option (List Text)
file = some (codes "# remote access" ∷ codes "a,A1,en,brand,any desk" ∷ [])

abbrev pub held : State
held = record {
  phrases = any_desk ∷ [];
  by_index = build_index (any_desk ∷ []);
  max_span = 4;
  mtime = 7;
  load_error = none;
  reload_count = 1;
}

abbrev comma : Text → Option (List Text)
comma line = some (split_on 44 line)

read_corpus-UsableCorpus_example :
    Holds
      (UsableCorpus comma pack (codes "en" ∷ []))
      (read_corpus comma pack (codes "en" ∷ []) file)
read_corpus-UsableCorpus_example = read_corpus-UsableCorpus comma pack (codes "en" ∷ []) file

held-WellFormed : WellFormed held
held-WellFormed = record { indexed = refl; spans = (omega arith, tt) }

reload_if_changed-Reloaded_example :
    Reloaded held (reload_if_changed (some 9) 9 (Outcome.refused LoadError.no_phrases) false held)
reload_if_changed-Reloaded_example =
    reload_if_changed-Reloaded (some 9) 9 (Outcome.refused LoadError.no_phrases) false held
      held-WellFormed

reload_if_changed_once_example :
    reload_if_changed
      (some 9)
      9
      (Outcome.loaded [])
      false
      (reload_if_changed (some 9) 9 (Outcome.refused LoadError.no_phrases) false held).1
    ≡ (false, (reload_if_changed (some 9) 9 (Outcome.refused LoadError.no_phrases) false held).1)
reload_if_changed_once_example =
    reload_if_changed_once LoadError.no_phrases 9 9 9 (Outcome.loaded []) false held refl
