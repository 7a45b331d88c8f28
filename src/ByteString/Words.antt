-- ===== src/ByteString/Words.antt =====
-- crates/byte-string/src/lib.rs: `SplitSpaces` against a reference, the terms between single
-- spaces without the empty ones.
use minibot_rust.Base.{
  ℕ, zero, suc, ◌+◌, ◌≤◌, ◌<◌, List, [], ◌∷◌, ◌++◌, none, some, ◌==◌, if◌then◌else◌, Bytes, take,
  drop, length, append-nil, length-append, ok, ◌>>=◌, is_empty, Lacks, Bool-cases, Option-cases,
  inl, inr, ◌≡◌, ◌≢◌, ◌⊎◌, ==_iff, subst, refl, sym, ap, ◌∙◌, arith,
}
use minibot_rust.IrcRaw.Slice.{position, split, split-append, split-Lacks}
use minibot_rust.ByteString.{position_other, skip_spaces, cut_word, next, collect}

unfoldable pub nonempty : List Bytes → List Bytes
nonempty [] = []
nonempty (t ∷ ts) = let rest = nonempty ts in if is_empty t then rest else t ∷ rest

abbrev pub words : Bytes → List Bytes
words text = nonempty (split b' ' text)

split-space : (text : Bytes) → split b' ' (b' ' ∷ text) ≡ [] ∷ split b' ' text
split-space text = split-append b' ' [] text tt

words-space : (text : Bytes) → words (b' ' ∷ text) ≡ words text
unfolding nonempty
words-space text = rw (split-space text) refl

words-append : (w rest : Bytes) → Lacks b' ' w → w ≢ [] → words (w ++ b' ' ∷ rest) ≡ w ∷ words rest
unfolding nonempty
words-append [] rest h n = absurd (n refl)
words-append (c ∷ w) rest h n = rw (split-append b' ' (c ∷ w) rest h) refl

words-Lacks : (w : Bytes) → Lacks b' ' w → w ≢ [] → words w ≡ w ∷ []
unfolding nonempty
words-Lacks [] h n = absurd (n refl)
words-Lacks (c ∷ w) h n = rw (split-Lacks b' ' (c ∷ w) h) refl

-- The text behind its spaces.
trimmed : Bytes → Bytes
trimmed [] = []
trimmed (b ∷ bs) = let rest = trimmed bs in if b == b' ' then rest else b ∷ bs

drop-next : (i b : ℕ) (bs : Bytes) → drop (i + 1) (b ∷ bs) ≡ drop i bs
drop-next i b bs = let q : i + 1 ≡ suc i = omega arith in rw q refl

take-next : (i b : ℕ) (bs : Bytes) → take (i + 1) (b ∷ bs) ≡ b ∷ take i bs
take-next i b bs = let q : i + 1 ≡ suc i = omega arith in rw q refl

skip_spaces-trimmed : (text : Bytes) → skip_spaces text ≡ trimmed text
unfolding skip_spaces position_other trimmed
skip_spaces-trimmed [] = refl
skip_spaces-trimmed (b ∷ bs) = elim (Bool-cases (b == b' ')) [
  | inr other ↦ ground (arith, other)
  | inl same ↦ elim (Option-cases (position_other bs)) [
    | inl blank ↦ ground (arith, same, blank, skip_spaces-trimmed bs)
    | inr (i, there) ↦ ground (arith, same, there, drop-next i b bs, skip_spaces-trimmed bs)
  ]
]

words-trimmed : (text : Bytes) → words (trimmed text) ≡ words text
unfolding trimmed
words-trimmed [] = refl
words-trimmed (b ∷ bs) = elim (Bool-cases (b == b' ')) [
  | inr other ↦ ground (arith, other)
  | inl same ↦
      let e = (==_iff b b' ').0 same in
      let skipped = subst (λ c. words (c ∷ bs) ≡ words bs) (sym e) (words-space bs) in
      ground (arith, same, words-trimmed bs, skipped)
]

-- A word is cut off in front of the first space, if there is one.
cut_word-space : (text : Bytes) → cut_word (b' ' ∷ text) ≡ ([], b' ' ∷ text)
unfolding cut_word position
cut_word-space text = refl

cut_word-cons :
    (c : ℕ) (text : Bytes)
    → c ≢ b' '
    → cut_word (c ∷ text) ≡ (c ∷ (cut_word text).0, (cut_word text).1)
unfolding cut_word position
cut_word-cons c text h = elim (Option-cases (position b' ' text)) [
  | inl none_there ↦ ground (arith, none_there)
  | inr (i, there) ↦ ground (arith, there, drop-next i c text, take-next i c text)
]

abbrev Cut : Bytes → Bytes → Bytes → Type 0
Cut text w rest =
    Lacks b' ' w × (text ≡ w ++ rest) × ((rest ≡ []) ⊎ ((r : Bytes) × (rest ≡ b' ' ∷ r)))

cut_word-Cut : (text : Bytes) → Cut text (cut_word text).0 (cut_word text).1
cut_word-Cut [] = unfold cut_word position in (tt, refl, inl refl)
cut_word-Cut (c ∷ text) =
    let (lacks, whole, rest) = cut_word-Cut text in
    elim (Bool-cases (c == b' ')) [
      | inl same ↦
          let e = (==_iff c b' ').0 same in
          subst (λ b. Cut (b ∷ text) (cut_word (b ∷ text)).0 (cut_word (b ∷ text)).1) (sym e)
            (rw (cut_word-space text) (tt, refl, inr (text, refl)))
      | inr other ↦
          let n : c ≢ b' ' = ground (arith, other) in
          rw (cut_word-cons c text n) ((n, lacks), ap (◌∷◌ c) whole, rest)
    ]

Cut-words : (text w rest : Bytes) → Cut text w rest → w ≢ [] → words text ≡ w ∷ words rest
Cut-words text w rest (lacks, whole, inl e) n =
    let same : text ≡ w = whole ∙ ap (λ r. w ++ r) e ∙ append-nil w in
    rw (same, e) (words-Lacks w lacks n ∙ unfold nonempty split in refl)
Cut-words text w rest (lacks, whole, inr (r, e)) n =
    let same : text ≡ w ++ b' ' ∷ r = whole ∙ ap (λ t. w ++ t) e in
    rw (same, e) (words-append w r lacks n ∙ ap (◌∷◌ w) (sym (words-space r)))

-- What stands behind the spaces of a text is no longer than it, and starts with no space.
abbrev StartsWord : Bytes → Type 0
StartsWord [] = Unit
StartsWord (c ∷ cs) = c ≢ b' '

trimmed-StartsWord :
    (text : Bytes) → StartsWord (trimmed text) × (length (trimmed text) ≤ length text)
unfolding trimmed
trimmed-StartsWord [] = (tt, omega arith)
trimmed-StartsWord (b ∷ bs) = ground (arith, trimmed-StartsWord bs)

-- The first word of a text that starts with one, and the rest, which is shorter.
first_word :
    (c : ℕ) (cs : Bytes)
    → c ≢ b' '
    → (words (c ∷ cs) ≡ (cut_word (c ∷ cs)).0 ∷ words (cut_word (c ∷ cs)).1)
      × (length (cut_word (c ∷ cs)).1 < length (c ∷ cs))
first_word c cs n =
    let cut = cut_word-Cut (c ∷ cs) in
    let start = cut_word-cons c cs n in
    let (lacks, whole, rest) = cut_word-Cut cs in
    (
      Cut-words (c ∷ cs) (cut_word (c ∷ cs)).0 (cut_word (c ∷ cs)).1 cut
          (λ e. let bad : c ∷ (cut_word cs).0 ≡ [] = ap (λ p. p.0) (sym start) ∙ e in cc),
      rw start
          (omega (arith, ap (length {A = ℕ}) whole, length-append (cut_word cs).0 (cut_word cs).1)),
    )

next-nil : (text : Bytes) → skip_spaces text ≡ [] → next text ≡ none
unfolding next
next-nil text h = rw (h, next) refl

next-cons :
    (c : ℕ) (text cs : Bytes) → skip_spaces text ≡ c ∷ cs → next text ≡ some (cut_word (c ∷ cs))
unfolding next
next-cons c text cs h = rw (h, next) refl

collect-nil : (fuel : ℕ) (text : Bytes) → next text ≡ none → collect (suc fuel) text ≡ ok []
unfolding collect
collect-nil fuel text h = rw (h, collect) refl

collect-cons :
    (fuel : ℕ) (text w rest : Bytes)
    → next text ≡ some (w, rest)
    → collect (suc fuel) text ≡ (collect fuel rest >>= λ later. ok (w ∷ later))
unfolding collect
collect-cons fuel text w rest h = rw (h, collect) refl

collect-step :
    (fuel : ℕ) (text t : Bytes)
    → ((rest : Bytes) → length rest < fuel → collect fuel rest ≡ ok (words rest))
    → skip_spaces text ≡ t
    → StartsWord t
    → length t ≤ fuel
    → collect (suc fuel) text ≡ ok (words t)
collect-step fuel text [] later skipped s h =
    collect-nil fuel text (next-nil text skipped) ∙ unfold nonempty split in refl
collect-step fuel text (c ∷ cs) later skipped s h =
    let (same, shorter) = first_word c cs s in
    collect-cons fuel text (cut_word (c ∷ cs)).0 (cut_word (c ∷ cs)).1 (next-cons c text cs skipped)
    ∙ rw (later (cut_word (c ∷ cs)).1 (omega (arith, shorter))) (ap ok (sym same))

-- With more fuel than the text has bytes, the iterator over its words comes to an end, and it gives
-- the terms of the text between single spaces, without the empty ones, in order.
pub collect-words :
    (fuel : ℕ) (text : Bytes) → length text < fuel → collect fuel text ≡ ok (words text)
collect-words zero text h = absurd (omega arith)
collect-words (suc fuel) text h =
    let (starts, no_longer) = trimmed-StartsWord text in
    collect-step fuel text (trimmed text) (collect-words fuel) (skip_spaces-trimmed text) starts
      (omega arith)
    ∙ ap ok (words-trimmed text)
