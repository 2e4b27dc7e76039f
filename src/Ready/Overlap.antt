-- ===== src/Ready/Overlap.antt =====
-- `trailing_overlap` (src/driver/ready.rs), and the search for a marker in a text that is continued.
use vm_rs.Prelude.{
  ℕ, suc, ◌≤◌, ◌≡◌, refl, sym, ap, ◌∙◌, inl, inr, ◌⊎◌, Option, none, some, List, [], ◌∷◌, ◌++◌,
  reverse, arith, append_assoc,
}
use mathlib.Core.List.{reverse-append, reverse-reverse, reverse-cons}
use vm_rs.Prelude.Tests.{◌==◌, leb, Bool-cases}
use vm_rs.Prelude.Lists.{
  length, take, drop, take-append-drop, length-append, length-take, length-drop,
}
use vm_rs.Prelude.Text.{Str, strip_prefix, split_once, here_or, behind}
use vm_rs.Config.{ready_marker}
use vm_rs.Ready.{parse_ready_marker, word_after, trailing_overlap}

length-reverse : {A : Type 0} (s : List A) → length (reverse s) ≡ length s
length-reverse [] = refl
length-reverse (x ∷ s) =
    ap length (reverse-cons x s)
    ∙ length-append (reverse s) (x ∷ [])
    ∙ omega (arith, length-reverse s)

nil_of_length : (s : Str) → length s ≡ 0 → s ≡ []
nil_of_length [] h = refl
nil_of_length (c ∷ s) h = absurd (omega arith)

overlap_split_at :
    (n : ℕ) (t : Str)
    → (pre : Str) × (t ≡ pre ++ reverse (take n (reverse t)))
      × ((pre ≡ []) ⊎ (n ≤ length (reverse (take n (reverse t)))))
overlap_split_at n t =
    let r = reverse t in
    let long = length-reverse (take n r) ∙ length-take n r in
    let whole = length-reverse t in
    (
      reverse (drop n r),
      sym (reverse-reverse t)
          ∙ ap reverse (sym (take-append-drop n r))
          ∙ reverse-append (take n r) (drop n r),
      elim (Bool-cases (leb n (length t))) [
        | inl yes' ↦ inr (ground arith)
        | inr no' ↦ inl (
            nil_of_length (reverse (drop n r))
              (length-reverse (drop n r) ∙ length-drop n r ∙ ground arith))
      ],
    )

-- What the tail leaves out, and that it is long enough for all of a marker but its last character.
overlap_split :
    (t : Str)
    → (pre : Str) × (t ≡ pre ++ trailing_overlap t)
      × ((pre ≡ []) ⊎ (10 ≤ length (trailing_overlap t)))
unfolding trailing_overlap
overlap_split t =
    let (pre, e, long) = overlap_split_at 74 t in
    (pre, e, elim long [ inl nil ↦ inl nil | inr long ↦ inr (omega arith) ])

strip_prefix-longer :
    (s p b : Str) → length p ≤ length s → strip_prefix s p ≡ none → strip_prefix (s ++ b) p ≡ none
unfolding strip_prefix
strip_prefix-longer s [] b h e = cc
strip_prefix-longer [] (d ∷ p) b h e = absurd (omega arith)
strip_prefix-longer (c ∷ s) (d ∷ p) b h e = elim (Bool-cases (c == d)) [
  | inl yes' ↦ ground (arith, strip_prefix-longer s p b)
  | inr no' ↦ rw no' refl
]

word_after-behind : (c : ℕ) (o : Option (Str × Str)) → word_after (behind c o) ≡ word_after o
unfolding word_after behind
word_after-behind c none = refl
word_after-behind c (some (before, after)) = refl

none-of-here_or :
    (m : Option Str) (c : ℕ) (o : Option (Str × Str))
    → here_or m (behind c o) ≡ none
    → (m ≡ none) × (o ≡ none)
unfolding here_or behind
none-of-here_or none c none h = (refl, refl)
none-of-here_or none c (some (x, y)) h = cc
none-of-here_or (some r) c o h = cc

-- A search that found nothing may start again behind any part of the text that is followed by as much as a
-- marker, whatever comes after it.
word_after-skip :
    (p pre tail b : Str)
    → length p ≤ suc (length tail)
    → split_once p (pre ++ tail) ≡ none
    → word_after (split_once p (pre ++ tail ++ b)) ≡ word_after (split_once p (tail ++ b))
unfolding split_once
word_after-skip p [] tail b h e = refl
word_after-skip p (c ∷ pre) tail b h e =
    let (m, e') =
      none-of-here_or (strip_prefix (c ∷ (pre ++ tail)) p) c (split_once p (pre ++ tail)) e in
    let long = length-append pre tail in
    let none' = strip_prefix-longer (c ∷ (pre ++ tail)) p b (omega arith) m in
    rw (none', word_after-behind c (split_once p (pre ++ tail ++ b)))
      (word_after-skip p pre tail b h e')

skip_to :
    (t pre tail b : Str)
    → t ≡ pre ++ tail
    → (pre ≡ []) ⊎ (10 ≤ length tail)
    → split_once ready_marker t ≡ none
    → word_after (split_once ready_marker (tail ++ b))
      ≡ word_after (split_once ready_marker (t ++ b))
skip_to t pre tail b e (inl nil) h = cc
skip_to t pre tail b e (inr long) h = rw e (
    sym (
      word_after-skip ready_marker pre tail b (omega arith)
        (sym (ap (split_once ready_marker) e) ∙ h)))

-- A text without a marker may be cut down to its overlap before the log goes on.
pub overlap_suffices :
    (t b : Str)
    → split_once ready_marker t ≡ none
    → parse_ready_marker (trailing_overlap t ++ b) ≡ parse_ready_marker (t ++ b)
unfolding parse_ready_marker
overlap_suffices t b h =
    let (pre, e, long) = overlap_split t in skip_to t pre (trailing_overlap t) b e long h

split_once-suffix :
    (p pre tail : Str) → split_once p (pre ++ tail) ≡ none → split_once p tail ≡ none
unfolding split_once
split_once-suffix p [] tail h = h
split_once-suffix p (c ∷ pre) tail h =
    split_once-suffix p pre tail
      (none-of-here_or (strip_prefix (c ∷ (pre ++ tail)) p) c (split_once p (pre ++ tail)) h).1

strip_prefix-shorter : (s p b : Str) → strip_prefix (s ++ b) p ≡ none → strip_prefix s p ≡ none
unfolding strip_prefix
strip_prefix-shorter s [] b e = cc
strip_prefix-shorter [] (d ∷ p) b e = refl
strip_prefix-shorter (c ∷ s) (d ∷ p) b e = elim (Bool-cases (c == d)) [
  | inl yes' ↦ ground (arith, strip_prefix-shorter s p b)
  | inr no' ↦ rw no' refl
]

pub split_once-prefix : (p s b : Str) → split_once p (s ++ b) ≡ none → split_once p s ≡ none
unfolding split_once here_or behind strip_prefix
split_once-prefix [] [] [] e = cc
split_once-prefix [] [] (c ∷ b) e = cc
split_once-prefix (d ∷ p) [] b e = refl
split_once-prefix p (c ∷ s) b e =
    let (m, e') = none-of-here_or (strip_prefix (c ∷ (s ++ b)) p) c (split_once p (s ++ b)) e in
    rw (strip_prefix-shorter (c ∷ s) p b m, split_once-prefix p s b e') refl

-- What a tail has to keep of the text that was read: it ends the text, and any continuation gives the same.
pub record Covers (tail text : Str) : Type 0 where
  pub pre : Str
  pub suffix : text ≡ pre ++ tail
  pub covers : (b : Str) → parse_ready_marker (tail ++ b) ≡ parse_ready_marker (text ++ b)

pub Covers-overlap :
    (tail text b : Str)
    → Covers tail text
    → split_once ready_marker (text ++ b) ≡ none
    → Covers (trailing_overlap (tail ++ b)) (text ++ b)
Covers-overlap tail text b k h =
    let whole : text ++ b ≡ k.pre ++ (tail ++ b) =
      ap (λ (t : Str). t ++ b) k.suffix ∙ append_assoc k.pre tail b in
    let none' =
      split_once-suffix ready_marker k.pre (tail ++ b)
        (sym (ap (split_once ready_marker) whole) ∙ h) in
    let (pre, e, _) = overlap_split (tail ++ b) in
    record {
      pre = k.pre ++ pre;
      suffix =
          whole
          ∙ ap (λ (t : Str). k.pre ++ t) e
          ∙ sym (append_assoc k.pre pre (trailing_overlap (tail ++ b)));
      covers = λ d.
          overlap_suffices (tail ++ b) d none'
          ∙ ap parse_ready_marker (append_assoc tail b d)
          ∙ k.covers (b ++ d)
          ∙ sym (ap parse_ready_marker (append_assoc text b d));
    }
