-- ===== src/Pipeline/Handle/Examples.antt =====
-- A run over a mail link, a file link and one http job, with rates as whole numbers.
use markdown_linkerator.Base.{
  ℕ, inl, inr, Bool, true, false, Option, none, some, List, [], ◌∷◌, Text, text, pos,
}
use markdown_linkerator.Model.{Target, CheckJob, mailto, zero_result}
use markdown_linkerator.Samples.{sample_config, link_a, link_b, whole_rates}
use markdown_linkerator.RateLimit.{HostState}
use markdown_linkerator.Checker.Http.{Client, responded}
use markdown_linkerator.Pipeline.Dedup.{Dedup, UrlState, zero_target}
use markdown_linkerator.Report.Gauge.{no_gauges}
use markdown_linkerator.Pipeline.Handle.{Run, handle_target, Notice}
use markdown_linkerator.Pipeline.Handle.Outcomes.{Settles, handle_target_offline}

abbrev exists : Text → Option Text
exists path = none

abbrev decoded : Text → Option Text
decoded t = some t

abbrev anchors_of : Text → Option (List Text)
anchors_of path = some (text "intro" ∷ [])

abbrev no_match : ℕ → Text → Bool
no_match re t = false

abbrev address : Text → Option Text
address t = some t

abbrev host_of : Text → Text
host_of t = text "a.org"

abbrev same : Text → Text
same t = t

abbrev mail : Target
mail = record link_a { url = text "mailto:a@b.org"; kind = mailto }

abbrev waiting_a : UrlState
waiting_a = record { done = false; result = zero_result zero_target; occs = link_a ∷ link_b ∷ [] }

abbrev running : Run (HostState ℕ ℕ)
running = record {
  dedup = record {
    seen = (text "k", waiting_a) ∷ [];
    cache = record { entries = []; path = []; ttl = pos 9; enabled = true; fingerprint = [] };
  };
  results = [];
  gauges = no_gauges;
  hosts = [];
  anchor_cache = [];
  jobs = [];
}

handle_target_offline_example :
    Settles whole_rates sample_config host_of no_match exists decoded anchors_of anchors_of address
      same same running mail
      (handle_target whole_rates sample_config host_of no_match exists decoded anchors_of anchors_of
        address same same true []
        (pos 3)
        running
        mail)
handle_target_offline_example =
    handle_target_offline whole_rates sample_config host_of no_match exists decoded anchors_of
      anchors_of address same same true [] (pos 3) running mail (inr (inl (λ e. cc)))

abbrev job_a : CheckJob
job_a = record { key = text "k"; host = text "a.org"; sample = link_a }

abbrev url_host : Text → Text
url_host t = text "a.org:443"

abbrev answers : Client
answers method st = record { outcome = responded 200; ctx_err = none; state = st }

-- The host answered 503 once and is waited for.
abbrev notices : List Notice
notices =
    record {
      url = text "https://a.org/";
      note = text "HTTP 503";
      code = 503;
      wait = pos 9;
      now = pos 2;
    }
    ∷ []
