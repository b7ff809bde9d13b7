-- ===== src/Pipeline/Dedup/Examples.antt =====
-- Two occurrences of one link: the second arrives while the first is checked.
use markdown_linkerator.Base.{
  ◌≡◌, refl, true, false, some, [], ◌∷◌, ◌++◌, Text, text, text_eq, lookup, insert, pos,
}
use markdown_linkerator.Model.{zero_result}
use markdown_linkerator.Samples.{link_a, link_b, alive_a}
use markdown_linkerator.Cache
use markdown_linkerator.Cache.{Cache}
use markdown_linkerator.Pipeline.Dedup.{
  add_begin, add_finish, complete, Dedup, fan_out, finish_on, new_dedup, zero_target,
}
use markdown_linkerator.Pipeline.Dedup.World.{
  World, start, after_begin, begin, finish, completes, Reach, here, next,
}

abbrev nothing_cached : Cache
nothing_cached = record { entries = []; path = []; ttl = pos 9; enabled = true; fingerprint = [] }

abbrev host_of : Text → Text
host_of t = text "a.org"

abbrev key : Text
key = text "k"

abbrev begun : World
begun =
    after_begin (start nothing_cached) key link_a
      (add_begin host_of (start nothing_cached).dedup key link_a (pos 1))

abbrev found_again : World
found_again = after_begin begun key link_b (add_begin host_of begun.dedup key link_b (pos 2))

two_begun : Reach host_of (start nothing_cached) found_again
two_begun =
    next (next here (begin key link_a (pos 1) begun refl))
      (begin key link_b (pos 2) found_again refl)

found_again-waiting : found_again.waiting ≡ (key, link_b) ∷ []
unfolding add_begin new_dedup Cache.get lookup insert text_eq
found_again-waiting = refl

abbrev both_wait : Dedup
both_wait = record {
  seen =
      (key, record { done = false; result = zero_result zero_target; occs = link_a ∷ link_b ∷ [] })
      ∷ [];
  cache = nothing_cached;
}

abbrev both_done : Dedup
both_done = record {
  seen = (key, record { done = true; result = alive_a; occs = [] }) ∷ [];
  cache = nothing_cached;
}

abbrev joined : World
joined = record found_again { dedup = both_wait; waiting = []; emitted = [] }

joins : add_finish found_again.dedup key link_b ≡ some (both_wait, [])
unfolding add_finish finish_on add_begin new_dedup Cache.get lookup insert text_eq
joins = refl

joined_is_next :
    joined
    ≡ record found_again { dedup = both_wait; waiting = []; emitted = [] ++ found_again.emitted }
unfolding add_begin new_dedup Cache.get lookup insert text_eq
joined_is_next = refl

abbrev completed : World
completed = record joined {
  dedup = both_done;
  emitted = fan_out alive_a false (link_a ∷ link_b ∷ []);
}

completes_both : complete both_wait key alive_a ≡ some (both_done, link_a ∷ link_b ∷ [])
unfolding complete lookup insert text_eq
completes_both = refl

completed_is_next : completed ≡ record joined {
  dedup = both_done;
  emitted = fan_out alive_a false (link_a ∷ link_b ∷ []) ++ [];
}
unfolding fan_out
completed_is_next = refl

completed_reached : Reach host_of (start nothing_cached) completed
completed_reached =
    next
      (next two_begun
        (finish key link_b [] [] both_wait [] joined found_again-waiting joins joined_is_next))
      (completes key alive_a both_done (link_a ∷ link_b ∷ []) completed completes_both
        completed_is_next)
