-- ===== src/Report/Wire.antt =====
-- internal/report/json.go: the machine-readable report. The encoders are not modelled.
use markdown_linkerator.Base.{
  ℕ, ◌≡◌, refl, Bool, List, [], ◌∷◌, map, arith, length, length-map, length-perm, count, count-perm,
  Text, text, text_eq,
}
use markdown_linkerator.Model.{Result, State, state_string, is_alive, is_dead, is_error}
use markdown_linkerator.RateLimit.{HostStat}
use markdown_linkerator.Report.{Summary, link_display, detail_text, finish}
use markdown_linkerator.Report.Counts.{tally, finish_counts, is_ignored, finish-IsSorted}

pub record WireResult : Type 0 where
  pub file : Text
  pub line : ℕ
  pub url : Text
  pub state : Text
  pub status_code : ℕ
  pub detail : Text

-- jsonHost has the fields of the host statistics.
pub record Wire : Type 0 where
  pub total : ℕ
  pub alive : ℕ
  pub dead : ℕ
  pub ignored : ℕ
  pub errored : ℕ
  pub cached : ℕ
  pub reused : ℕ
  pub exit_code : ℕ
  pub results : List WireResult
  pub hosts : List HostStat

unfoldable pub wire_result : Result → WireResult
unfolding link_display detail_text state_string
wire_result r = record {
  file = r.target.source_file;
  line = r.target.line;
  url = link_display r.target;
  state = state_string r.state;
  status_code = r.status_code;
  detail = detail_text r;
}

unfoldable pub to_wire : Summary → Wire
to_wire s = record {
  total = s.total;
  alive = s.alive;
  dead = s.dead;
  ignored = s.ignored;
  errored = s.errored;
  cached = s.cached;
  reused = s.reused;
  exit_code = s.exit_code;
  results = map wire_result s.results;
  hosts = s.hosts;
}

abbrev pub in_state : Text → WireResult → Bool
in_state s w = text_eq w.state s

count-wire :
    (p : State → Bool) (name : Text) (rs : List Result)
    → ((s : State) → text_eq (state_string s) name ≡ p s)
    → count (in_state name) (map wire_result rs) ≡ tally p rs
unfolding wire_result
count-wire p name [] h = refl
count-wire p name (r ∷ rs) h = ground (arith, h r.state, count-wire p name rs h)

named_alive : (s : State) → text_eq (state_string s) (text "alive") ≡ is_alive s
unfolding state_string text_eq
named_alive State.alive = refl
named_alive _ = refl

named_dead : (s : State) → text_eq (state_string s) (text "dead") ≡ is_dead s
unfolding state_string text_eq
named_dead State.alive = refl
named_dead _ = refl

named_ignored : (s : State) → text_eq (state_string s) (text "ignored") ≡ is_ignored s
unfolding state_string text_eq
named_ignored State.alive = refl
named_ignored _ = refl

named_error : (s : State) → text_eq (state_string s) (text "error") ≡ is_error s
unfolding state_string text_eq
named_error State.alive = refl
named_error _ = refl

-- In the machine-readable report of a run, each figure by state is the number of listed results
-- that carry that state's name, and the total is the number of results listed.
pub to_wire_counts :
    (rs : List Result) (hosts : List HostStat) (f : Bool)
    → let w = to_wire (finish rs hosts f) in
      (w.total ≡ length w.results)
      × (w.alive ≡ count (in_state (text "alive")) w.results)
      × (w.dead ≡ count (in_state (text "dead")) w.results)
      × (w.ignored ≡ count (in_state (text "ignored")) w.results)
      × (w.errored ≡ count (in_state (text "error")) w.results)
unfolding to_wire
to_wire_counts rs hosts f =
    let s = (finish rs hosts f).results in
    let p = (finish-IsSorted rs hosts f).0 in
    omega (
      arith,
      finish_counts rs hosts f,
      length-map s wire_result,
      length-perm p,
      count-wire is_alive (text "alive") s named_alive,
      count-wire is_dead (text "dead") s named_dead,
      count-wire is_ignored (text "ignored") s named_ignored,
      count-wire is_error (text "error") s named_error,
      count-perm (λ (r : Result). is_alive r.state) p,
      count-perm (λ (r : Result). is_dead r.state) p,
      count-perm (λ (r : Result). is_ignored r.state) p,
      count-perm (λ (r : Result). is_error r.state) p,
    )
