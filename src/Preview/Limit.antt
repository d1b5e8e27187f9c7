-- ===== src/Preview/Limit.antt =====
-- compute_preview of src/nntp/mod.rs: how long a preview is, and when cutting it cannot panic.
use september.Base.{
  ℕ, zero, suc, ◌-◌, ◌≤◌, ◌<◌, ◌≡◌, inl, inr, refl, sym, ◌∙◌, ap, Bool, false, ◌||◌, Option, none,
  some, List, [], ◌∷◌, ◌++◌, arith, ltb, leb, if◌then◌else◌, Bool-cases, length, take, drop,
}
use september.Base.Text.{Text}
use september.Worker.Stuffing.{lines}
use september.Overview.Counts.{bind_inverse}
use september.Preview.{
  join_lines, strip_block_quotes, len_utf8, len, split_at, max_lines, hard_limit, truncate,
  newline_after, cut_at_newline, extend, long_preview, compute_preview,
}

-- The two parts at a boundary.
pub len-split_at :
    (n : ℕ) (s : Text) (parts : Text × Text)
    → split_at n s ≡ some parts
    → (len parts.0 ≡ n) × (s ≡ parts.0 ++ parts.1)
unfolding split_at
len-split_at zero s parts h = let same : ([], s) ≡ parts = cc in rw (sym same) (refl, refl)
len-split_at (suc n) [] parts h = absurd cc
len-split_at (suc n) (c ∷ s) parts h = elim (Bool-cases (leb (len_utf8 c) (suc n))) [
  | inl fits ↦
      let (rest, e, e') =
        bind_inverse (split_at (suc n - len_utf8 c) s) (λ r. some (c ∷ r.0, r.1)) parts
          (sym (rw (split_at, fits) refl) ∙ h) in
      let same : (c ∷ rest.0, rest.1) ≡ parts = cc in
      let (size, whole) = len-split_at (suc n - len_utf8 c) s rest e in
      rw (sym same) (ground (arith, size, fits), ap (λ l. c ∷ l) whole)
  | inr wide ↦ absurd (none_is_some (sym (rw (split_at, wide) refl) ∙ h))
]
  where
    none_is_some : ¬ (◌≡◌ {A = Option (Text × Text)} none (some parts))
    none_is_some e = cc

len-truncate : (n : ℕ) (s t : Text) → truncate n s ≡ some t → len t ≤ n
unfolding truncate
len-truncate n s t h = elim (Bool-cases (leb n (len s))) [
  | inl long ↦
      let (parts, e, e') = bind_inverse (split_at n s) (λ r. some r.0) t (sym (rw long refl) ∙ h) in
      let same : parts.0 ≡ t = cc in rw (sym same) (omega (arith, (len-split_at n s parts e).0))
  | inr short ↦
      let same : ◌≡◌ {A = Option Text} (some s) (some t) = sym (rw short refl) ∙ h in
      let same_text : s ≡ t = cc in rw (sym same_text) (ground (arith, short))
]

len-long_preview : (ls : List Text) (t : Text) → long_preview ls ≡ some t → len t ≤ hard_limit
unfolding long_preview
len-long_preview ls t h =
    let (result, e, e') =
      bind_inverse (extend (join_lines (take max_lines ls)) (drop max_lines ls))
        (λ r. if ltb hard_limit (len r) then truncate hard_limit r else some r) t h in
    elim (Bool-cases (ltb hard_limit (len result))) [
      | inl long ↦ len-truncate hard_limit result t (sym (rw long refl) ∙ e')
      | inr short ↦
          let same : ◌≡◌ {A = Option Text} (some result) (some t) = sym (rw short refl) ∙ e' in
          let same_text : result ≡ t = cc in rw (sym same_text) (ground (arith, short))
    ]

-- When compute_preview returns, its flag says whether the text without its quotes is over one of the
-- two limits, which is not whether the preview leaves anything out. A text within both is returned
-- whole, and one of too many lines is cut to the limit, which counts bytes.
pub compute_preview-Limited :
    (body preview : Text) (has_more : Bool)
    → compute_preview body ≡ some (preview, has_more)
    → (has_more ≡ (
        ltb max_lines (length (lines (strip_block_quotes body)))
        || ltb hard_limit (len (strip_block_quotes body))))
      × (has_more ≡ false → preview ≡ strip_block_quotes body)
      × (max_lines < length (lines (strip_block_quotes body)) → len preview ≤ hard_limit)
unfolding compute_preview
compute_preview-Limited body preview has_more h =
    let stripped : Text = strip_block_quotes body in
    let ls : List Text = lines stripped in
    elim (Bool-cases (leb (length ls) max_lines)) [
      | inl few ↦ elim (Bool-cases (leb (len stripped) hard_limit)) [
        | inl short ↦
            let same : ◌≡◌ {A = Option (Text × Bool)} (some (stripped, false))
                (some (preview, has_more)) =
              sym (rw (few, short) refl) ∙ h in
            let same_text : stripped ≡ preview = cc in
            let same_flag : false ≡ has_more = cc in
            (
              ground (arith, few, short, same_flag),
              λ e. sym same_text,
              λ many. absurd (ground (arith, few)),
            )
        | inr long ↦
            let (t, e, e') =
              bind_inverse (cut_at_newline stripped (newline_after (split_at hard_limit stripped)))
                (λ r. some (r, ltb max_lines (length ls) || ltb hard_limit (len stripped)))
                (preview, has_more) (sym (rw (few, long) refl) ∙ h) in
            let same_flag : (ltb max_lines (length ls) || ltb hard_limit (len stripped))
                ≡ has_more =
              cc in
            (
              sym same_flag,
              λ e. absurd (ground (arith, long, same_flag)),
              λ many. absurd (ground (arith, few)),
            )
      ]
      | inr many ↦
          let (t, e, e') =
            bind_inverse (long_preview ls)
              (λ r. some (r, ltb max_lines (length ls) || ltb hard_limit (len stripped)))
              (preview, has_more) (sym (rw many refl) ∙ h) in
          let same_flag : (ltb max_lines (length ls) || ltb hard_limit (len stripped)) ≡ has_more =
            cc in
          let same_text : t ≡ preview = cc in
          (
            sym same_flag,
            λ e. absurd (ground (arith, many, same_flag)),
            λ over. rw (sym same_text) (len-long_preview ls t e),
          )
    ]
