-- ===== src/Entity/Replace.antt =====
-- The search loop of `REPLACE` against a rewriting of the text in one pass.
use xevxml.Prelude.{
  ℕ, zero, suc, ◌+◌, ◌-◌, ◌<◌, true, false, Bytes, [], ◌∷◌, ◌++◌, none, some, length, take, drop,
  ◌≡◌, refl, sym, ap, ◌∙◌, inl, inr, arith, Bool-cases, Option-cases, append_assoc, subst,
  length-append, take-length, drop-length,
}
use xevxml.Entity.{starts_with, find_at, find, replace_range, replace_loop, replace}

-- One pass from the left: each occurrence of `p` is written as `q`. The first number counts the
-- bytes that are still to be skipped.
unfoldable pub scan : Bytes → Bytes → ℕ → Bytes → Bytes
scan p q k [] = []
scan p q (suc k) (c ∷ s) = scan p q k s
scan p q zero (c ∷ s) = elim (starts_with p (c ∷ s)) [
  | true ↦ q ++ scan p q (length p - 1) s
  | false ↦ c ∷ scan p q zero s
]

pub scan-nil : (p q : Bytes) (k : ℕ) → scan p q k [] ≡ []
unfolding scan
scan-nil p q zero = refl
scan-nil p q (suc k) = refl

scan_skip : (p q w s : Bytes) → scan p q (length w) (w ++ s) ≡ scan p q 0 s
unfolding scan
scan_skip p q [] s = refl
scan_skip p q (c ∷ w) s = scan_skip p q w s

starts_with-split : (p s : Bytes) → starts_with p s ≡ true → s ≡ p ++ drop (length p) s
unfolding starts_with
starts_with-split [] s h = refl
starts_with-split (b ∷ p) [] h = ground arith
starts_with-split (b ∷ p) (c ∷ s) h = ground (arith, starts_with-split p s)

starts_with_self : (p s : Bytes) → starts_with p (p ++ s) ≡ true
unfolding starts_with
starts_with_self [] s = refl
starts_with_self (b ∷ p) s = ground (arith, starts_with_self p s)

-- What a search that ends at `k` says of the text that was searched from position `i` on.
record FoundAt (p q s : Bytes) (i k : ℕ) : Type 0 where
  pub before : Bytes
  pub after : Bytes
  pub at : k ≡ i + length before
  pub text : s ≡ before ++ (p ++ after)
  pub pass : scan p q 0 s ≡ before ++ (q ++ scan p q 0 after)

module _ (p q : Bytes) (c : ℕ) (s : Bytes) where
  pub scan_hit : starts_with p (c ∷ s) ≡ true → scan p q 0 (c ∷ s) ≡ q ++ scan p q (length p - 1) s
  unfolding scan
  scan_hit h = rw (h, scan)

  pub scan_miss : starts_with p (c ∷ s) ≡ false → scan p q 0 (c ∷ s) ≡ c ∷ scan p q 0 s
  unfolding scan
  scan_miss h = rw (h, scan)

module _ (p : Bytes) (c : ℕ) (s : Bytes) (i : ℕ) where
  find_at_hit : starts_with p (c ∷ s) ≡ true → find_at p (c ∷ s) i ≡ some i
  unfolding find_at
  find_at_hit h = rw (h, find_at)

  find_at_miss : starts_with p (c ∷ s) ≡ false → find_at p (c ∷ s) i ≡ find_at p s (i + 1)
  unfolding find_at
  find_at_miss h = rw (h, find_at)

find-behind :
    (p done rest : Bytes) → find p (done ++ rest) (length done) ≡ find_at p rest (length done)
unfolding find
find-behind p done rest = rw (drop-length done rest)

take-at : (xs ys : Bytes) (n : ℕ) → n ≡ length xs → take n (xs ++ ys) ≡ xs
take-at xs ys n h = rw h (take-length xs ys)

drop-at : (xs ys : Bytes) (n : ℕ) → n ≡ length xs → drop n (xs ++ ys) ≡ ys
drop-at xs ys n h = rw h (drop-length xs ys)

replace_range-split :
    (done pre m post new rest : Bytes) (k : ℕ)
    → rest ≡ pre ++ (m ++ post)
    → k ≡ length done + length pre
    → replace_range (done ++ rest) k (length m) new ≡ ((done ++ pre) ++ new) ++ post
unfolding replace_range
replace_range-split done pre m post new rest k t h =
    let front : done ++ rest ≡ (done ++ pre) ++ (m ++ post) = simp (t, append_assoc) in
    let back : done ++ rest ≡ ((done ++ pre) ++ m) ++ post = simp (t, append_assoc) in
    let before : take k (done ++ rest) ≡ done ++ pre =
      rw front (take-at (done ++ pre) (m ++ post) k (omega (arith, h, length-append done pre))) in
    let behind : drop (k + length m) (done ++ rest) ≡ post = rw back (
      drop-at ((done ++ pre) ++ m) post (k + length m)
        (omega (arith, h, length-append (done ++ pre) m, length-append done pre))) in
    rw (before, behind) (simp append_assoc)

module _ (b : ℕ) (p q : Bytes) where
  scan_match : (s : Bytes) → scan (b ∷ p) q 0 ((b ∷ p) ++ s) ≡ q ++ scan (b ∷ p) q 0 s
  scan_match s =
      scan_hit (b ∷ p) q b (p ++ s) (starts_with_self (b ∷ p) s)
      ∙ ap (λ t. q ++ t)
          (ap (λ k. scan (b ∷ p) q k (p ++ s)) (omega arith) ∙ scan_skip (b ∷ p) q p s)

  find_at-none : (s : Bytes) (i : ℕ) → find_at (b ∷ p) s i ≡ none → scan (b ∷ p) q 0 s ≡ s
  find_at-none [] i h = scan-nil _ _ _
  find_at-none (c ∷ s) i h = elim (Bool-cases (starts_with (b ∷ p) (c ∷ s))) [
    | inl e ↦ cc (find_at_hit (b ∷ p) c s i e)
    | inr e ↦
        scan_miss (b ∷ p) q c s e
        ∙ ap (λ t. c ∷ t) (find_at-none s (i + 1) (sym (find_at_miss (b ∷ p) c s i e) ∙ h))
  ]

  found_here : (s : Bytes) (i : ℕ) → starts_with (b ∷ p) s ≡ true → FoundAt (b ∷ p) q s i i
  found_here s i e =
      let split = starts_with-split (b ∷ p) s e in
      record {
        before = [];
        after = drop (length (b ∷ p)) s;
        at = omega arith;
        text = split;
        pass = ap (scan (b ∷ p) q 0) split ∙ scan_match (drop (length (b ∷ p)) s);
      }

  found_later :
      (c : ℕ) (s : Bytes) (i k : ℕ)
      → starts_with (b ∷ p) (c ∷ s) ≡ false
      → FoundAt (b ∷ p) q s (i + 1) k
      → FoundAt (b ∷ p) q (c ∷ s) i k
  found_later c s i k e r = record {
    before = c ∷ r.before;
    after = r.after;
    at = omega (arith, r.at);
    text = ap (λ t. c ∷ t) r.text;
    pass = scan_miss (b ∷ p) q c s e ∙ ap (λ t. c ∷ t) r.pass;
  }

  find_at-some : (s : Bytes) (i k : ℕ) → find_at (b ∷ p) s i ≡ some k → FoundAt (b ∷ p) q s i k
  find_at-some [] i k h = unfold find_at starts_with in cc
  find_at-some (c ∷ s) i k h = elim (Bool-cases (starts_with (b ∷ p) (c ∷ s))) [
    | inl e ↦
        let same : i ≡ k = cc (h, find_at_hit (b ∷ p) c s i e) in
        subst (λ n. FoundAt (b ∷ p) q (c ∷ s) i n) same (found_here (c ∷ s) i e)
    | inr e ↦
        found_later c s i k e (find_at-some s (i + 1) k (sym (find_at_miss (b ∷ p) c s i e) ∙ h))
  ]

  -- One round: the text before the match is done with, and the search goes on behind the
  -- replacement.
  round_text :
      (done rest : Bytes) (k : ℕ) (r : FoundAt (b ∷ p) q rest (length done) k)
      → replace_range (done ++ rest) k (length (b ∷ p)) q ≡ ((done ++ r.before) ++ q) ++ r.after
  round_text done rest k r = replace_range-split done r.before (b ∷ p) r.after q rest k r.text r.at

  round_pos :
      (done rest : Bytes) (k : ℕ) (r : FoundAt (b ∷ p) q rest (length done) k)
      → k + length q ≡ length ((done ++ r.before) ++ q)
  round_pos done rest k r =
      omega (arith, r.at, length-append (done ++ r.before) q, length-append done r.before)

  replace_loop-scan :
      (f : ℕ) (done rest : Bytes)
      → length rest < f
      → replace_loop f (done ++ rest) (b ∷ p) q (find (b ∷ p) (done ++ rest) (length done))
        ≡ some (done ++ scan (b ∷ p) q 0 rest)
  unfolding replace_loop scan
  replace_loop-scan zero done rest h = absurd (omega arith)
  replace_loop-scan (suc f) done rest h =
      rw (find-behind (b ∷ p) done rest) (elim (Option-cases (find_at (b ∷ p) rest (length done))) [
        | inl e ↦ rw (e, find_at-none rest (length done) e) (unfold replace_loop in refl)
        | inr (k, e) ↦
            let r = find_at-some rest (length done) k e in
            let shorter : length r.after < f = omega (
              arith,
              ap length r.text,
              length-append r.before ((b ∷ p) ++ r.after),
              length-append p r.after,
            ) in
            rw (e, replace_loop, round_text done rest k r, round_pos done rest k r, r.pass)
              (replace_loop-scan f ((done ++ r.before) ++ q) r.after shorter
                ∙ ap some (simp append_assoc))
      ])

  -- The loop of `REPLACE` ends, for a pattern that is not empty, and it comes to one pass over the text:
  -- what was put in is never searched again.
  pub replace-scan : (s : Bytes) → replace s (b ∷ p) q ≡ scan (b ∷ p) q 0 s
  unfolding replace scan
  replace-scan s = rw (replace, replace_loop-scan (suc (length s)) [] s (omega arith))
