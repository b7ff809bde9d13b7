-- ===== src/Checker/Http/Examples.antt =====
-- A check whose HEAD is refused with 405 and whose GET succeeds.
use markdown_linkerator.Base.{◌≡◌, none, text}
use markdown_linkerator.Samples.{sample_config, link_a}
use markdown_linkerator.Checker.Http.{head, get, Client, responded, check}
use markdown_linkerator.Checker.Http.Classify.{deciding, state_of, status_of, err_of, check_state}

abbrev get_only : Client
get_only head st = record { outcome = responded 405; ctx_err = none; state = st }
get_only get st = record {
  outcome = responded 200;
  ctx_err = none;
  state = record st { retries = 1 };
}

check_state_example :
    let r = check sample_config get_only link_a (text "a.org") in
    let d = deciding sample_config get_only in
    (r.state ≡ state_of sample_config d)
    × (r.status_code ≡ status_of sample_config d)
    × (r.err ≡ err_of sample_config d)
check_state_example = check_state sample_config link_a (text "a.org") get_only
