-- ===== src/Extract/Targets/Places.antt =====
-- internal/extract/extract.go: which destinations the walk of `extractTargets` adds, and from where.
use mathlib.Core.List.{Memᴰ}
use mathlib.Core.List.Memᴰ
use markdown_linkerator.Base.{
  ℕ, ◌+◌, ◌-◌, ◌≡◌, ◌↔◌, refl, sym, ◌∙◌, ap, ◌⊎◌, inl, inr, true, false, Option, some, or_else,
  List, [], ◌∷◌, ◌++◌, arith, take, drop, Text, text, text_eq, text_eq_iff, lookup, ℤ, pos, negsuc,
  Bool-cases, Option-cases,
}
use markdown_linkerator.Extract.Targets.Walk.{
  Segment, Node, link, image, auto_link, raw_html, html_block, other_node, TokenKind, start_tag,
  self_closing_tag, other_token, Token, last_stop, html_block_span, tag_dest, scan_tokens,
  scan_html, scan_span, node_calls, walk_calls,
}

-- A tag with a destination: an `a` with its `href` or an `img` with its `src`, which is no closing tag.
abbrev pub HasDest : Token → Text → Type 0
HasDest token dest =
    ((token.token_kind ≡ start_tag) ⊎ (token.token_kind ≡ self_closing_tag))
    × (((token.name ≡ text "a") × (lookup (text "href") token.attributes ≡ some dest))
        ⊎ ((token.name ≡ text "img") × (lookup (text "src") token.attributes ≡ some dest)))

-- A tag among the tokens has the destination, and its text begins at the offset.
pub data InTags (dest : Text) (at : ℕ) : ℕ → List Token → Type 0 where
  this_tag : {token : Token} {ts : List Token} → HasDest token dest → InTags dest at at (token ∷ ts)
  later_tag :
      {start : ℕ} {token : Token} {ts : List Token}
      → InTags dest at (start + token.raw_length) ts
      → InTags dest at start (token ∷ ts)

-- The part of a text from one offset to another.
abbrev pub part : Text → ℕ → ℕ → Text
part src start stop = take (stop - start) (drop start src)

-- The destination stands at a place of the node: it is that of a link, an image or an autolink, a
-- mail address among these with `mailto:` before it, or that of a tag of its HTML.
pub data IsAt (tokenize : Text → List Token) (src dest : Text) : Node → ℤ → Type 0 where
  of_link : {at : ℤ} → IsAt tokenize src dest (link dest at) at
  of_image : {at : ℤ} → IsAt tokenize src dest (image dest at) at
  of_auto_link : {at : ℤ} → IsAt tokenize src dest (auto_link dest false at) at
  of_address :
      {address : Text} {at : ℤ}
      → dest ≡ text "mailto:" ++ address
      → IsAt tokenize src dest (auto_link address true at) at
  of_raw_html :
      {s : Segment} {ss : List Segment} {start stop at : ℕ}
      → s.start ≡ pos start
      → last_stop s ss ≡ pos stop
      → InTags dest at start (tokenize (part src start stop))
      → IsAt tokenize src dest (raw_html (s ∷ ss)) (pos at)
  of_html_block :
      {lines : List Segment} {closure : Option Segment} {start stop at : ℕ}
      → html_block_span lines closure ≡ (pos start, pos stop)
      → InTags dest at start (tokenize (part src start stop))
      → IsAt tokenize src dest (html_block lines closure) (pos at)

a_is_no_img : text "a" ≡ text "img" → ⊥
a_is_no_img e = cc

no_tag :
    (token : Token)
    → token.token_kind ≡ other_token
    → (token.token_kind ≡ start_tag) ⊎ (token.token_kind ≡ self_closing_tag)
    → ⊥
no_tag token k (inl e) = cc
no_tag token k (inr e) = cc

tag_dest_iff :
    (token : Token) (dest : Text)
    → (tag_dest token ≡ some dest) ↔ (
        ((token.name ≡ text "a") × (lookup (text "href") token.attributes ≡ some dest))
        ⊎ ((token.name ≡ text "img") × (lookup (text "src") token.attributes ≡ some dest)))
unfolding tag_dest
tag_dest_iff token dest =
    let a = text_eq_iff token.name (text "a") in
    let img = text_eq_iff token.name (text "img") in
    elim (Bool-cases (text_eq token.name (text "a"))) [
      | inl e ↦
          let name = a.0 e in
          (
            λ d. inl (name, ground arith),
            λ h. elim h [
              | inl (n, l) ↦ ground arith
              | inr (n, l) ↦ absurd (a_is_no_img (sym name ∙ n))
            ],
          )
      | inr e ↦ elim (Bool-cases (text_eq token.name (text "img"))) [
        | inl i ↦
            let name = img.0 i in
            (
              λ d. inr (name, ground arith),
              λ h. elim h [
                | inl (n, l) ↦ absurd (a_is_no_img (sym n ∙ name))
                | inr (n, l) ↦ ground arith
              ],
            )
        | inr i ↦ (
          λ d. absurd (ground arith),
          λ h. elim h [
            | inl (n, l) ↦ absurd (ground (arith, a.1 n))
            | inr (n, l) ↦ absurd (ground (arith, img.1 n))
          ],
        )
      ]
    ]

some_inj : {a b : Text} → some a ≡ some b → a ≡ b
some_inj e = ap (λ o. or_else o []) e

same_dest : (token : Token) (a b : Text) → HasDest token a → HasDest token b → a ≡ b
same_dest token a b h g =
    some_inj ((sym ((tag_dest_iff token a).1 h.1)) ∙ (tag_dest_iff token b).1 g.1)

kind_cases : (k : TokenKind) → ((k ≡ start_tag) ⊎ (k ≡ self_closing_tag)) ⊎ (k ≡ other_token)
kind_cases start_tag = inl (inl refl)
kind_cases self_closing_tag = inl (inr refl)
kind_cases other_token = inr refl

-- What the scan does at one token.
scan_step :
    (start : ℕ) (token : Token) (ts : List Token)
    → ((dest : Text) × HasDest token dest
        × (scan_tokens start (token ∷ ts)
            ≡ (dest, pos start) ∷ scan_tokens (start + token.raw_length) ts))
      ⊎ (((dest : Text) → HasDest token dest → ⊥)
          × (scan_tokens start (token ∷ ts) ≡ scan_tokens (start + token.raw_length) ts))
unfolding scan_tokens
scan_step start token ts = elim (Option-cases (tag_dest token)) [
  | inl e ↦ inr ((λ d h. absurd (ground (arith, (tag_dest_iff token d).1 h.1))), ground arith)
  | inr (d, e) ↦ elim (kind_cases token.token_kind) [
    | inl (inl k) ↦ inl (d, (inl k, (tag_dest_iff token d).0 e), ground arith)
    | inl (inr k) ↦ inl (d, (inr k, (tag_dest_iff token d).0 e), ground arith)
    | inr k ↦ inr ((λ x h. absurd (no_tag token k h.0)), ground arith)
  ]
]

scan_sound :
    (c : Text × ℤ) (start : ℕ) (ts : List Token)
    → Memᴰ c (scan_tokens start ts)
    → (at : ℕ) × (c.1 ≡ pos at) × InTags c.0 at start ts
unfolding scan_tokens
scan_sound c start [] m = absurd (Memᴰ.not-nil m)
scan_sound c start (token ∷ ts) m = elim (scan_step start token ts) [
  | inl (d, h, e) ↦ elim (Memᴰ.cases_cons (rw e at m)) [
    | inl same ↦ (start, ap (λ x. x.1) same, this_tag (rw (ap (λ x. x.0) same) h))
    | inr rest ↦
        let (at, z, t) = scan_sound c (start + token.raw_length) ts rest in (at, z, later_tag t)
  ]
  | inr (n, e) ↦
      let (at, z, t) = scan_sound c (start + token.raw_length) ts (rw e at m) in
      (at, z, later_tag t)
]

scan_complete :
    (dest : Text) (at start : ℕ) (ts : List Token)
    → InTags dest at start ts
    → Memᴰ (dest, pos at) (scan_tokens start ts)
scan_complete dest at start [] t = elim t [ ]
scan_complete dest at _ (token ∷ ts) (this_tag h) = elim (scan_step at token ts) [
  | inl (d, g, e) ↦ rw e (Memᴰ.head (ap (λ x. (x, pos at)) (same_dest token dest d h g)))
  | inr (n, e) ↦ absurd (n dest h)
]
scan_complete dest at start (token ∷ ts) (later_tag t) =
    let rest = scan_complete dest at (start + token.raw_length) ts t in
    elim (scan_step start token ts) [
      | inl (d, g, e) ↦ rw e (Memᴰ.tail rest)
      | inr (n, e) ↦ rw e rest
    ]

pair_eq : {a b c d : ℤ} → a ≡ b → c ≡ d → ◌≡◌ {A = ℤ × ℤ} (a, c) (b, d)
pair_eq e h = cc

module _ (tokenize : Text → List Token) (src : Text) where
  span_sound :
      (c : Text × ℤ) (span : ℤ × ℤ)
      → Memᴰ c (scan_span tokenize src span)
      → (start stop at : ℕ) × (span ≡ (pos start, pos stop))
        × (c.1 ≡ pos at)
        × InTags c.0 at start (tokenize (part src start stop))
  unfolding scan_span scan_html
  span_sound c (pos start, pos stop) m =
      let (at, z, t) = scan_sound c start (tokenize (part src start stop)) m in
      (start, stop, at, refl, z, t)
  span_sound c (pos start, negsuc n) m = absurd (Memᴰ.not-nil m)
  span_sound c (negsuc n, stop) m = absurd (Memᴰ.not-nil m)

  span_complete :
      (dest : Text) (start stop at : ℕ)
      → InTags dest at start (tokenize (part src start stop))
      → Memᴰ (dest, pos at) (scan_span tokenize src (pos start, pos stop))
  unfolding scan_span scan_html
  span_complete dest start stop at t =
      scan_complete dest at start (tokenize (part src start stop)) t

  span_at :
      (dest : Text) (span : ℤ × ℤ) (start stop at : ℕ)
      → span ≡ (pos start, pos stop)
      → InTags dest at start (tokenize (part src start stop))
      → Memᴰ (dest, pos at) (scan_span tokenize src span)
  span_at dest span start stop at e t = rw e (span_complete dest start stop at t)

  node_sound :
      (c : Text × ℤ) (n : Node) → Memᴰ c (node_calls tokenize src n) → IsAt tokenize src c.0 n c.1
  unfolding node_calls
  node_sound c (link dest at) m = let e = Memᴰ.eq_of_singleton m in rw e of_link
  node_sound c (image dest at) m = let e = Memᴰ.eq_of_singleton m in rw e of_image
  node_sound c (auto_link dest true at) m = let e = Memᴰ.eq_of_singleton m in rw e (of_address refl)
  node_sound c (auto_link dest false at) m = let e = Memᴰ.eq_of_singleton m in rw e of_auto_link
  node_sound c (raw_html []) m = absurd (Memᴰ.not-nil m)
  node_sound c (raw_html (s ∷ ss)) m =
      let (start, stop, at, e, z, t) = span_sound c (s.start, last_stop s ss) m in
      rw z (of_raw_html (ap (λ x. x.0) e) (ap (λ x. x.1) e) t)
  node_sound c (html_block lines closure) m =
      let (start, stop, at, e, z, t) = span_sound c (html_block_span lines closure) m in
      rw z (of_html_block e t)
  node_sound c other_node m = absurd (Memᴰ.not-nil m)

  node_complete :
      (dest : Text) (n : Node) (at : ℤ)
      → IsAt tokenize src dest n at
      → Memᴰ (dest, at) (node_calls tokenize src n)
  unfolding node_calls
  node_complete dest _ at of_link = Memᴰ.head refl
  node_complete dest _ at of_image = Memᴰ.head refl
  node_complete dest _ at of_auto_link = Memᴰ.head refl
  node_complete dest _ at (of_address e) = Memᴰ.head (ap (λ d. (d, at)) e)
  node_complete dest _ _ (of_raw_html {s} {ss} {start} {stop} {at} b e t) =
      span_at dest (s.start, last_stop s ss) start stop at (pair_eq b e) t
  node_complete dest _ _ (of_html_block {lines} {closure} {start} {stop} {at} e t) =
      span_at dest (html_block_span lines closure) start stop at e t

  -- A destination is added, with its offset, exactly from the places of the nodes.
  pub walk_calls_iff :
      (c : Text × ℤ) (nodes : List Node)
      → Memᴰ c (walk_calls tokenize src nodes)
        ↔ ((n : Node) × Memᴰ n nodes × IsAt tokenize src c.0 n c.1)
  unfolding walk_calls
  walk_calls_iff c [] = ((λ m. absurd (Memᴰ.not-nil m)), λ (n, m, i). absurd (Memᴰ.not-nil m))
  walk_calls_iff c (n ∷ ns) = (
    λ m. elim (Memᴰ.append_cases (node_calls tokenize src n) m) [
      | inl here ↦ (n, Memᴰ.head refl, node_sound c n here)
      | inr later ↦ let (k, at, i) = (walk_calls_iff c ns).0 later in (k, Memᴰ.tail at, i)
    ],
    λ (k, m, i). elim (Memᴰ.cases_cons m) [
      | inl same ↦
          Memᴰ.append_left (walk_calls tokenize src ns) (node_complete c.0 n c.1 (rw same at i))
      | inr later ↦
          Memᴰ.append_right (node_calls tokenize src n) ((walk_calls_iff c ns).1 (k, later, i))
    ],
  )
