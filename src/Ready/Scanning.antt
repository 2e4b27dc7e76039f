-- ===== src/Ready/Scanning.antt =====
-- `ReadyMarkerCache::scan` (src/driver/ready.rs) against one search of the whole log: what the tail that is
-- kept between two scans is for.
use vm_rs.Prelude.{
  ℕ, ◌≤◌, ◌<◌, ◌≡◌, refl, sym, ap, ◌∙◌, inl, inr, ◌⊎◌, Option, none, some, List, [], ◌∷◌, ◌++◌,
  arith, append_assoc, append-nil,
}
use vm_rs.Prelude.Lists.{length, All, drop, length-append}
use vm_rs.Prelude.Text.{Str, is_empty, split_once}
use vm_rs.Result.{ok}
use vm_rs.Config.{ready_marker}
use vm_rs.Ready.{
  ReadyMarkerCache, Log, fresh, parse_ready_marker, word_after, trailing_overlap, keep_found,
  scan_bytes, scan, rewound,
}
use vm_rs.Ready.Overlap.{Covers, Covers-overlap, split_once-prefix}

-- A log that can be read, with these bytes in it.
unfoldable pub log_of : List ℕ → Log
log_of bytes = record {
  metadata = ok (length bytes);
  seek = λ offset. ok tt;
  read_to_end = λ offset. ok (drop offset bytes);
}

drop-length : (a b : List ℕ) → drop (length a) (a ++ b) ≡ b
drop-length [] b = refl
drop-length (x ∷ a) b = drop-length a b

parse-none : (t : Str) → split_once ready_marker t ≡ none → parse_ready_marker t ≡ none
unfolding parse_ready_marker word_after
parse-none t h = rw h refl

-- ASCII bytes, which decode to themselves.
abbrev pub IsAscii : List ℕ → Type 0
IsAscii = All (λ c. c < 128)

unfoldable pub concat : List (List ℕ) → List ℕ
concat [] = []
concat (piece ∷ pieces) = piece ++ concat pieces

module _ (from_utf8_lossy : List ℕ → Str)
    (ascii : (bytes : List ℕ) → IsAscii bytes → from_utf8_lossy bytes ≡ bytes) where
  waiting : ℕ → Str → ReadyMarkerCache
  waiting n tail = record { ready_ip = none; scan_offset = n; tail = tail }

  keep_found-0 :
      (c : ReadyMarkerCache) (t : Str) (o : Option Str) → (keep_found from_utf8_lossy c t o).0 ≡ o
  unfolding keep_found
  keep_found-0 c t none = refl
  keep_found-0 c t (some ip) = refl

  keep_found-none :
      (n : ℕ) (tail t : Str) (o : Option Str)
      → o ≡ none
      → (keep_found from_utf8_lossy (waiting n tail) t o).1 ≡ waiting n (trailing_overlap t)
  unfolding keep_found waiting
  keep_found-none n tail t none h = refl
  keep_found-none n tail t (some ip) h = cc

  rewound-waiting :
      (n m : ℕ) (tail : Str) → n ≤ m → rewound from_utf8_lossy (waiting n tail) m ≡ waiting n tail
  unfolding rewound waiting
  rewound-waiting n m tail h = ground arith

  -- Unless nothing is new and nothing is kept, the tail and the new bytes are searched.
  scan_bytes-searches :
      (n : ℕ) (tail : Str) (buf : List ℕ)
      → ((buf ≡ []) × (tail ≡ []))
        ⊎ (scan_bytes from_utf8_lossy (waiting n tail) buf
            ≡ keep_found from_utf8_lossy
                (waiting n tail)
                (tail ++ from_utf8_lossy buf)
                (parse_ready_marker (tail ++ from_utf8_lossy buf)))
  unfolding scan_bytes waiting is_empty
  scan_bytes-searches n [] [] = inl (refl, refl)
  scan_bytes-searches n (c ∷ tail) [] = inr refl
  scan_bytes-searches n [] (d ∷ buf) = inr refl
  scan_bytes-searches n (c ∷ tail) (d ∷ buf) = inr refl

  scan_bytes-nothing : (n : ℕ) → scan_bytes from_utf8_lossy (waiting n []) [] ≡ (none, waiting n [])
  unfolding scan_bytes waiting is_empty
  scan_bytes-nothing n = refl

  scan_bytes-finds :
      (n : ℕ) (tail : Str) (buf : List ℕ)
      → IsAscii buf
      → (scan_bytes from_utf8_lossy (waiting n tail) buf).0 ≡ parse_ready_marker (tail ++ buf)
  unfolding split_once
  scan_bytes-finds n tail buf h = elim (scan_bytes-searches n tail buf) [
    | inl (b, t) ↦ rw (b, t, scan_bytes-nothing n) (sym (parse-none [] refl))
    | inr e ↦
        ap (λ (r : Option Str × ReadyMarkerCache). r.0) e
        ∙ keep_found-0 (waiting n tail) (tail ++ from_utf8_lossy buf)
            (parse_ready_marker (tail ++ from_utf8_lossy buf))
        ∙ ap (λ (t : Str). parse_ready_marker (tail ++ t)) (ascii buf h)
  ]

  scan-grown :
      (tail : Str) (a b : List ℕ)
      → scan from_utf8_lossy (waiting (length a) tail) (ok (log_of (a ++ b)))
        ≡ scan_bytes from_utf8_lossy (waiting (length (a ++ b)) tail) b
  unfolding scan log_of waiting
  scan-grown tail a b =
      rw
        (
          rewound-waiting (length a) (length (a ++ b)) tail (omega (arith, length-append a b)),
          drop-length a b,
        )
        refl

  scan_bytes-waits :
      (n : ℕ) (tail text : Str) (buf : List ℕ)
      → IsAscii buf
      → Covers tail text
      → split_once ready_marker (text ++ buf) ≡ none
      → (tail' : Str) × ((scan_bytes from_utf8_lossy (waiting n tail) buf).1 ≡ waiting n tail')
        × Covers tail' (text ++ buf)
  scan_bytes-waits n tail text buf h k e = elim (scan_bytes-searches n tail buf) [
    | inl (b, t) ↦ ([], rw (b, t, scan_bytes-nothing n) refl, rw (b, append-nil text) (rw t at k))
    | inr s ↦ (
      trailing_overlap (tail ++ buf),
      ap (λ (r : Option Str × ReadyMarkerCache). r.1) s
          ∙ keep_found-none n tail (tail ++ from_utf8_lossy buf)
              (parse_ready_marker (tail ++ from_utf8_lossy buf))
              (ap (λ (t : Str). parse_ready_marker (tail ++ t)) (ascii buf h)
                ∙ k.covers buf
                ∙ parse-none (text ++ buf) e)
          ∙ ap (λ (t : Str). waiting n (trailing_overlap (tail ++ t))) (ascii buf h),
      Covers-overlap tail text buf k e,
    )
  ]

  -- The scans of a log that grows by the given pieces, after the bytes that were read before.
  unfoldable pub scans : List ℕ → ReadyMarkerCache → List (List ℕ) → ReadyMarkerCache
  scans bytes c [] = c
  scans bytes c (piece ∷ pieces) =
      scans (bytes ++ piece) (scan from_utf8_lossy c (ok (log_of (bytes ++ piece)))).1 pieces

  scans-waits :
      (bytes : List ℕ) (tail : Str) (pieces : List (List ℕ))
      → Covers tail bytes
      → All IsAscii pieces
      → split_once ready_marker (bytes ++ concat pieces) ≡ none
      → (tail' : Str) × (scans bytes (waiting (length bytes) tail) pieces
          ≡ waiting (length (bytes ++ concat pieces)) tail')
        × Covers tail' (bytes ++ concat pieces)
  unfolding scans concat
  scans-waits bytes tail [] k h e = (tail, rw (append-nil bytes) refl, rw (append-nil bytes) k)
  scans-waits bytes tail (piece ∷ pieces) k (h, hs) e =
      let assoc = append_assoc bytes piece (concat pieces) in
      let before =
        split_once-prefix ready_marker (bytes ++ piece) (concat pieces)
          (ap (split_once ready_marker) assoc ∙ e) in
      let (tail1, same1, k1) =
        scan_bytes-waits (length (bytes ++ piece)) tail bytes piece h k before in
      let (tail2, same2, k2) =
        scans-waits (bytes ++ piece) tail1 pieces k1 hs (ap (split_once ready_marker) assoc ∙ e) in
      (
        tail2,
        ap (λ (c : ReadyMarkerCache). scans (bytes ++ piece) c pieces)
              (ap (λ (r : Option Str × ReadyMarkerCache). r.1) (scan-grown tail bytes piece)
                ∙ same1)
            ∙ same2
            ∙ ap (λ (t : Str). waiting (length t) tail2) assoc,
        rw (← assoc) k2,
      )

  -- If the decoder leaves ASCII bytes as they are: however an ASCII log is cut into pieces that
  -- are scanned one after the other, as long as there is no marker in them, the scan after one
  -- last piece returns what one search of the whole log returns.
  pub scans_find :
      (pieces : List (List ℕ)) (last : List ℕ)
      → All IsAscii pieces
      → IsAscii last
      → split_once ready_marker (concat pieces) ≡ none
      → (scan from_utf8_lossy (scans [] fresh pieces) (ok (log_of (concat pieces ++ last)))).0
        ≡ parse_ready_marker (concat pieces ++ last)
  unfolding waiting
  scans_find pieces last hs h e =
      let (tail, same, k) =
        scans-waits [] [] pieces (record { pre = []; suffix = refl; covers = λ b. refl }) hs e in
      ap
        (λ (c : ReadyMarkerCache). (scan from_utf8_lossy c (ok (log_of (concat pieces ++ last)))).0)
        same
      ∙ ap (λ (r : Option Str × ReadyMarkerCache). r.0) (scan-grown tail (concat pieces) last)
      ∙ scan_bytes-finds (length (concat pieces ++ last)) tail last h
      ∙ k.covers last
