-- ===== src/Checker/Local/Recipients.antt =====
-- internal/checker/checker.go: the recipients that `CheckMailto` finds in a link.
use markdown_linkerator.Base.{
  ℕ, ◌≡◌, ◌∙◌, refl, sym, ap, ◌⊎◌, inl, inr, true, false, ◌||◌, List, [], ◌∷◌, ◌++◌, arith, All,
  length, length-append, take, drop, leb, Text, text, to_lower, equal_fold, has_char, split_rest,
  split, join_rest, before_char,
}
use markdown_linkerator.Checker.Local.{recipients}

-- A recipient as it stands in a link: 44 is the comma, 63 the question mark.
abbrev pub IsPart : Text → Type 0
IsPart p = (has_char 44 p ≡ false) × (has_char 63 p ≡ false)

-- What follows the recipients: nothing, or a question mark and the header fields.
abbrev pub IsQuery : Text → Type 0
IsQuery query = (query ≡ []) ⊎ ((fields : Text) × (query ≡ 63 ∷ fields))

split_rest-last : (sep : ℕ) (p : Text) → has_char sep p ≡ false → split_rest sep p ≡ (p, [])
unfolding split_rest has_char
split_rest-last sep [] h = refl
split_rest-last sep (c ∷ p) h = ground (arith, split_rest-last sep p)

split_rest-piece :
    (sep : ℕ) (p s : Text)
    → has_char sep p ≡ false
    → split_rest sep (p ++ (sep ∷ s)) ≡ (p, split sep s)
unfolding split_rest has_char
split_rest-piece sep [] s h = ground arith
split_rest-piece sep (c ∷ p) s h = ground (arith, split_rest-piece sep p s)

split_rest-join_rest :
    (p : Text) (ps : List Text) → All IsPart (p ∷ ps) → split_rest 44 (join_rest 44 p ps) ≡ (p, ps)
unfolding join_rest
split_rest-join_rest p [] a = split_rest-last 44 p a.0.0
split_rest-join_rest p (q ∷ ps) a =
    split_rest-piece 44 p (join_rest 44 q ps) a.0.0
    ∙ ap (λ r. (p, r.0 ∷ r.1)) (split_rest-join_rest q ps a.1)

before_char-query :
    (s query : Text) → has_char 63 s ≡ false → IsQuery query → before_char 63 (s ++ query) ≡ s
unfolding before_char has_char
before_char-query [] query h (inl e) = rw e refl
before_char-query [] query h (inr (fields, e)) = rw e (ground arith)
before_char-query (c ∷ s) query h q = ground (arith, before_char-query s query (ground arith) q)

has_char-append : (x : ℕ) (a b : Text) → has_char x (a ++ b) ≡ (has_char x a || has_char x b)
unfolding has_char
has_char-append x [] b = refl
has_char-append x (c ∷ a) b = ground (arith, has_char-append x a b)

has_char-join_rest :
    (p : Text) (ps : List Text) → All IsPart (p ∷ ps) → has_char 63 (join_rest 44 p ps) ≡ false
unfolding join_rest has_char
has_char-join_rest p [] a = a.0.1
has_char-join_rest p (q ∷ ps) a =
    ground
      (arith, a.0.1, has_char-append 63 p (44 ∷ join_rest 44 q ps), has_char-join_rest q ps a.1)

length-to_lower : (s : Text) → length (to_lower s) ≡ length s
unfolding to_lower
length-to_lower [] = refl
length-to_lower (c ∷ s) = omega (arith, length-to_lower s)

take-length : (p s : Text) → take (length p) (p ++ s) ≡ p
unfolding take
take-length [] s = refl
take-length (c ∷ p) s = ap (λ t. c ∷ t) (take-length p s)

drop-length : (p s : Text) → drop (length p) (p ++ s) ≡ s
unfolding drop
drop-length [] s = refl
drop-length (c ∷ p) s = drop-length p s

length_ge : (p s : Text) → leb (length p) (length (p ++ s)) ≡ true
length_ge p s = ground (arith, length-append p s)

-- The recipients of a link that is put together from them.
pub recipients_lem :
    (scheme first query : Text) (others : List Text)
    → to_lower scheme ≡ text "mailto:"
    → All IsPart (first ∷ others)
    → IsQuery query
    → recipients (scheme ++ (join_rest 44 first others ++ query)) ≡ first ∷ others
unfolding recipients equal_fold
recipients_lem scheme first query others is_mail parts q =
    let s = join_rest 44 first others ++ query in
    let seven : length scheme ≡ 7 = sym (length-to_lower scheme) ∙ ap length is_mail in
    let long : leb 7 (length (scheme ++ s)) ≡ true =
      ap (λ n. leb n (length (scheme ++ s))) (sym seven) ∙ length_ge scheme s in
    let begins : take 7 (scheme ++ s) ≡ scheme =
      ap (λ n. take n (scheme ++ s)) (sym seven) ∙ take-length scheme s in
    let ends : drop 7 (scheme ++ s) ≡ s =
      ap (λ n. drop n (scheme ++ s)) (sym seven) ∙ drop-length scheme s in
    let addr : before_char 63 s ≡ join_rest 44 first others =
      before_char-query (join_rest 44 first others) query (has_char-join_rest first others parts)
        q in
    let pieces = split_rest-join_rest first others parts in
    rw (long, begins, is_mail, ends, addr, pieces) refl
