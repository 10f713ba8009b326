-- ===== src/RsyncClient/Laws.antt =====
-- internal/rsync/client.go: what the channel of reports holds.
use grabarr.Common.{
  ℕ, zero, suc, ◌≤◌, ◌≡◌, refl, sym, ap, ◌∙◌, Bool-cases, inl, inr, Option-cases, none, some, List,
  [], ◌∷◌, ◌++◌, append-nil, append_assoc, length, length-append, take, ltb, Text, arith,
}
use grabarr.Models.Job.{JobProgress}
use grabarr.RsyncClient.{
  Platform, Transfer, split_lines, parse_progress_line, send_report, after_line,
  parse_progress_lines, parse_progress,
}

take-all : {A : Type 0} (n : ℕ) (xs ys : List A) → length xs ≡ n → take n (xs ++ ys) ≡ xs
take-all zero [] ys h = refl
take-all (suc n) [] ys h = ground (arith, h)
take-all zero (x ∷ xs) ys h = ground (arith, h)
take-all (suc n) (x ∷ xs) ys h = ap (λ (zs : List _). x ∷ zs) (take-all n xs ys (ground (arith, h)))

take-short : {A : Type 0} (n : ℕ) (xs : List A) → length xs ≤ n → take n xs ≡ xs
take-short zero [] h = refl
take-short (suc n) [] h = refl
take-short zero (x ∷ xs) h = ground (arith, h)
take-short (suc n) (x ∷ xs) h = ap (λ (zs : List _). x ∷ zs) (take-short n xs (ground (arith, h)))

module _ (p : Platform) where
  -- The reports of the lines, in their order, from a number of clock readings on.
  unfoldable pub reports : ℕ → List Text → List JobProgress
  reports clock [] = []
  reports clock (line ∷ lines) = elim (parse_progress_line p clock line) [
    | none ↦ reports clock lines
    | some r ↦ r ∷ reports (suc (suc clock)) lines
  ]

  sent_first :
      (r : JobProgress) (chan rest : List JobProgress)
      → length chan ≤ 10
      → (length (send_report r chan) ≤ 10)
        × (take 10 (send_report r chan ++ rest) ≡ take 10 (chan ++ r ∷ rest))
  sent_first r chan rest h = elim (Bool-cases (ltb (length chan) 10)) [
    | inl e ↦ rw e (
      ground (arith, e, length-append chan (r ∷ [])),
      ap (take 10) (append_assoc chan (r ∷ []) rest),
    )
    | inr e ↦
        let full : length chan ≡ 10 = ground (arith, e, h) in
        rw e (h, take-all 10 chan rest full ∙ sym (take-all 10 chan (r ∷ rest) full))
  ]

  parse_progress_lines-take :
      (lines : List Text) (t : Transfer)
      → length t.progress_chan ≤ 10
      → (parse_progress_lines p lines t).progress_chan
        ≡ take 10 (t.progress_chan ++ reports t.clock lines)
  unfolding parse_progress_lines reports
  parse_progress_lines-take [] t h =
      rw (append-nil t.progress_chan) (sym (take-short 10 t.progress_chan h))
  parse_progress_lines-take (line ∷ lines) t h =
      elim (Option-cases (parse_progress_line p t.clock line)) [
        | inl e ↦ rw (e, parse_progress_lines, reports) (parse_progress_lines-take lines t h)
        | inr (r, e) ↦
            let rest = reports (suc (suc t.clock)) lines in
            let (small, same) = sent_first r t.progress_chan rest h in
            rw (e, parse_progress_lines, reports)
              (parse_progress_lines-take lines (after_line (some r) t) small ∙ same)
      ]

  -- While nobody receives, the parser leaves in the channel the first ten of the reports that were
  -- there and those of the output's lines, in their order: it neither blocks nor drops an earlier
  -- one for a later one.
  pub parse_progress-take :
      (stdout : Text) (t : Transfer)
      → length t.progress_chan ≤ 10
      → (parse_progress p stdout t).progress_chan
        ≡ take 10 (t.progress_chan ++ reports t.clock (split_lines stdout))
  unfolding parse_progress
  parse_progress-take stdout t h = parse_progress_lines-take (split_lines stdout) t h
