-- ===== src/Model/Key/Examples.antt =====
-- Two spellings of one link, parsed by hand: the scheme is https, the host what stands in the text.
use markdown_linkerator.Base.{
  ◌≡◌, ◌≢◌, ap, false, text_eq, before_suffix, refl, Option, some, [], ◌++◌, Text, text, to_lower,
  lower_code, arith,
}
use markdown_linkerator.Model.Key.{
  Url, trim_space, normalize_key, SameResource, https_port, no_port, canonical, before_suffix-add,
  normalize_key-eq,
}

abbrev url_of : Text → Url
url_of t = record {
  scheme = text "HTTPS";
  opaque = [];
  user = [];
  host = t;
  path = text "/p";
  raw_path = [];
  omit_host = false;
  force_query = false;
  raw_query = [];
  fragment = text "top";
  raw_fragment = [];
}

abbrev parse_host : Text → Option Url
parse_host t = some (url_of t)

abbrev render_url : Url → Text
render_url u = u.scheme ++ u.host ++ u.path

abbrev shouted : Text
shouted = text "A.ORG:443"

abbrev spoken : Text
spoken = text "a.org"

trimmed_shouted : parse_host (trim_space shouted) ≡ some (url_of shouted)
unfolding trim_space
trimmed_shouted = refl

trimmed_spoken : parse_host (trim_space spoken) ≡ some (url_of spoken)
unfolding trim_space
trimmed_spoken = refl

bare_already : (b : Text) → text "a.org" ≢ b ++ text ":443"
unfolding before_suffix text_eq
bare_already b e = absurd (
    ground
      (arith, ap (λ t. before_suffix t (text ":443")) e, before_suffix-add b (text "443") b':'))

one_resource : SameResource (url_of shouted) (url_of spoken)
unfolding to_lower lower_code
one_resource = record {
  scheme = refl;
  bare = text "a.org";
  host = https_port refl (λ e. ground arith);
  other_host = no_port (λ b e ne. absurd (ground arith)) (λ b e ne. bare_already b);
  opaque = refl;
  user = refl;
  path = refl;
  raw_path = refl;
  omit_host = refl;
  force_query = refl;
  raw_query = refl;
}

normalize_key-eq_example :
    (normalize_key parse_host render_url shouted
      ≡ render_url (canonical (url_of shouted) (text "a.org")))
    × (normalize_key parse_host render_url spoken
        ≡ render_url (canonical (url_of shouted) (text "a.org")))
unfolding one_resource
normalize_key-eq_example =
    normalize_key-eq parse_host render_url shouted spoken (url_of shouted) (url_of spoken)
      trimmed_shouted trimmed_spoken (λ e. ground arith) one_resource
