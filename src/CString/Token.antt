-- ===== src/CString/Token.antt =====
-- The tokens that strtok_r cuts from a string.
use cs140_operating_systems.Base.{
  ℕ, zero, suc, ◌+◌, ◌-◌, ◌%◌, ◌^◌, ◌≤◌, ◌<◌, ◌≡◌, ◌≢◌, refl, sym, ap, ◌∙◌, Bool, true, false, not,
  ◌||◌, Option, some, ◌==◌, if◌then◌else◌, update, ◌>>=◌, arith, inl, inr, ◌⊎◌, Bool-cases,
  ==-eq_false, update_self, update_ne,
}
use cs140_operating_systems.Memory.{Mem}
use cs140_operating_systems.CString.{skip_loop, token_loop, cut_token, strtok_r}
use cs140_operating_systems.CString.Find.{Str, scan, First, scan-First, is_end}
use cs140_operating_systems.CString.Span.{occurs-true, among, is_in-among, Span, First-Span}

Str-drop : {m : Mem} {p n : ℕ} (i : ℕ) → Str m p n → i ≤ n → Str m (p + i) (n - i)
Str-drop {m} i s le = record {
  ends = ap m (omega arith) ∙ s.ends;
  before = λ j lt e. s.before (i + j) (omega arith) (ap m (omega arith) ∙ e);
}

-- What strtok_r does where a token is found: the first i bytes are delimiters, the next l are not.
pub record Tokenized (delim : ℕ → Bool) (m : Mem) (start n i l : ℕ) (m' : Mem) (save : ℕ)
    : Type 0 where
  pub skipped : (j : ℕ) → j < i → delim j ≡ true
  pub nonempty : 0 < l
  pub inside : i + l ≤ n
  pub token : (j : ℕ) → j < l → delim (i + j) ≡ false
  pub string : Str m' (start + i) l
  pub rest :
      ((i + l ≡ n) × (m' ≡ m) × (save ≡ start + n))
      ⊎ ((i + l < n)
          × (delim (i + l) ≡ true)
          × (m' ≡ update m (start + i + l) 0)
          × (save ≡ start + i + l + 1))

module _ (fuel : ℕ) (m : Mem) (set k : ℕ) (hs : set ≢ 0) (s : Str m set k) (hk : k < fuel) where
  among_null : (q : ℕ) → m q ≡ 0 → among m set k (m q) ≡ true
  among_null q z = occurs-true m set (suc k) (m q % 2 ^ 8) k (omega arith) (s.ends ∙ rw z)

  skip_loop-scan :
      (n q : ℕ)
      → skip_loop n fuel m set q
        ≡ (scan n (λ q. is_end m q || not (among m set k (m q))) q >>= λ q. some (q, is_end m q))
  unfolding skip_loop
  skip_loop-scan zero q = refl
  skip_loop-scan (suc n) q = elim (Bool-cases (among m set k (m q))) [
    | inl y ↦ elim (Bool-cases (m q == 0)) [
      | inl z ↦ rw (is_in-among fuel m set (m q) k hs s hk, y, z, z)
      | inr nz ↦ rw (is_in-among fuel m set (m q) k hs s hk, y, nz) (skip_loop-scan n (q + 1))
    ]
    | inr y ↦
        let nz : (m q == 0) ≡ false = ==-eq_false (m q) 0 (λ z. let t = among_null q z in cc) in
        rw (is_in-among fuel m set (m q) k hs s hk, y, nz, nz)
  ]

  token_loop-scan : (n q : ℕ) → token_loop n fuel m set q ≡ scan n (λ q. among m set k (m q)) q
  unfolding token_loop
  token_loop-scan zero q = refl
  token_loop-scan (suc n) q = elim (Bool-cases (among m set k (m q))) [
    | inl y ↦ rw (is_in-among fuel m set (m q) k hs s hk, y)
    | inr y ↦ rw (is_in-among fuel m set (m q) k hs s hk, y) (token_loop-scan n (q + 1))
  ]

  -- The token that starts at q, where the string has n more bytes and the first is no delimiter.
  cut_token-cuts :
      (q n : ℕ)
      → Str m q n
      → n < fuel
      → among m set k (m q) ≡ false
      → (l : ℕ) × (0 < l)
        × (l ≤ n)
        × ((j : ℕ) → j < l → among m set k (m (q + j)) ≡ false)
        × (among m set k (m (q + l)) ≡ true)
        × (cut_token fuel m set (q, false)
            ≡ some (
                if not (m (q + l) == 0) then (update m (q + l) 0, q + l + 1, q) else (m, q + l, q)))
  unfolding cut_token
  cut_token-cuts q n t h out =
      let (l, le, run, first) =
        scan-First n fuel (λ q. among m set k (m q)) q h (among_null (q + n) t.ends) in
      (l, positive l first, le, first.fails, first.holds, rw (token_loop-scan fuel q, run))
    where
      positive : (l : ℕ) → First (λ q. among m set k (m q)) q l → 0 < l
      positive zero first =
          let same : among m set k (m q) ≡ among m set k (m (q + 0)) =
            ap (λ a. among m set k (m a)) (omega arith) in
          let clash : false ≡ true = sym out ∙ same ∙ first.holds in absurd (cc)
      positive (suc l) first = omega arith

  abbrev delim : ℕ → ℕ → Bool
  delim start j = among m set k (m (start + j))

  -- The result of strtok_r, from where the skipping of delimiters ended.
  abbrev Result : ℕ → ℕ → ℕ → Option (Mem × ℕ × ℕ) → Type 0
  Result start n i r =
      ((i ≡ n) × (r ≡ some (m, start + n, 0)))
      ⊎ ((l : ℕ) × (m' : Mem) × (save : ℕ) × (r ≡ some (m', save, start + i))
          × Tokenized (delim start) m start n i l m' save)

  after_skip :
      (start n i : ℕ)
      → Str m start n
      → n < fuel
      → Span (λ j. not (delim start j)) n i
      → Result start n i (cut_token fuel m set (start + i, is_end m (start + i)))
  unfolding cut_token
  after_skip start n i t h span = elim span.ends [
    | inl e ↦
        let z : m (start + i) ≡ 0 = ap (λ j. m (start + j)) e ∙ t.ends in
        inl (e, rw z (ap (λ j. some (m, start + j, 0)) e))
    | inr (lt, y) ↦
        let out : among m set k (m (start + i)) ≡ false = ground (arith, y) in
        let (l, pos, le, within, holds, run) =
          cut_token-cuts (start + i) (n - i) (Str-drop i t (omega arith)) (omega arith) out in
        let nz : (m (start + i) == 0) ≡ false = ==-eq_false (m (start + i)) 0 (t.before i lt) in
        let skipped : (j : ℕ) → j < i → delim start j ≡ true =
          λ j lt. let f = span.within j lt in ground arith in
        let token : (j : ℕ) → j < l → delim start (i + j) ≡ false =
          λ j lt. ap (λ a. among m set k (m a)) (omega arith) ∙ within j lt in
        let bytes : (j : ℕ) → j < l → m (start + i + j) ≢ 0 =
          λ j lt e. t.before (i + j) (omega arith) (ap m (omega arith) ∙ e) in
        let there : m (start + i + l) ≡ m (start + (i + l)) = ap m (omega arith) in
        elim (Bool-cases (i + l == n)) [
          | inl last ↦
              let same : i + l ≡ n = ground arith in
              let z : m (start + i + l) ≡ 0 = there ∙ ap (λ j. m (start + j)) same ∙ t.ends in
              inr (
                l,
                m,
                start + i + l,
                rw nz (run ∙ rw z),
                record {
                  skipped = skipped;
                  nonempty = pos;
                  inside = omega (arith, same);
                  token = token;
                  string = record { ends = z; before = bytes };
                  rest = inl (same, refl, omega (arith, same));
                },
              )
          | inr more ↦
              let inner : i + l < n = ground arith in
              let nz' : (m (start + i + l) == 0) ≡ false =
                ==-eq_false (m (start + i + l)) 0 (λ e. t.before (i + l) inner (sym there ∙ e)) in
              inr (
                l,
                update m (start + i + l) 0,
                start + i + l + 1,
                rw nz (run ∙ rw nz'),
                record {
                  skipped = skipped;
                  nonempty = pos;
                  inside = omega arith;
                  token = token;
                  string = record {
                    ends = update_self m (start + i + l) 0;
                    before = λ j lt e.
                        bytes j lt
                          (sym (update_ne m (start + i + l) 0 (start + i + j) (omega arith)) ∙ e);
                  };
                  rest =
                      inr (inner, ap (λ a. among m set k (m a)) (omega arith) ∙ holds, refl, refl);
                },
              )
        ]
  ]

-- Where strtok_r starts: at s, or at the saved place if s is null.
abbrev pub resume : ℕ → ℕ → ℕ
resume s save = if s == 0 then save else s

-- On a string of n bytes, at s or else at the saved place, and a string of delimiters, with fuel above
-- both lengths, strtok_r fails no ASSERT. If all bytes are delimiters, it returns the null pointer, saves
-- the end of the string and changes nothing. Else it returns the first byte that is none; the bytes from
-- there on that are none are then a string of their own: they run to the end of the string and nothing
-- changed, or the delimiter after them was set to 0 and the place after it was saved.
pub strtok_r-Tokenized :
    (fuel : ℕ) (m : Mem) (s delimiters save n k : ℕ)
    → delimiters ≢ 0
    → resume s save ≢ 0
    → Str m (resume s save) n
    → Str m delimiters k
    → n < fuel
    → k < fuel
    → (((j : ℕ) → j < n → among m delimiters k (m (resume s save + j)) ≡ true)
        × (strtok_r fuel m s delimiters save ≡ some (m, resume s save + n, 0)))
      ⊎ ((i l : ℕ) × (m' : Mem) × (save' : ℕ) × (strtok_r fuel m s delimiters save
            ≡ some (m', save', resume s save + i))
          × Tokenized
              (λ j. among m delimiters k (m (resume s save + j)))
              m
              (resume s save)
              n
              i
              l
              m'
              save')
unfolding strtok_r
strtok_r-Tokenized fuel m s delimiters save n k hd hs t u hn hk =
    let (i, le, run, first) =
      scan-First n fuel (λ q. is_end m q || not (among m delimiters k (m q))) (resume s save) hn
        (rw t.ends) in
    let span =
      First-Span m (resume s save) n i (λ j. not (among m delimiters k (m (resume s save + j)))) t
        le first.holds first.fails in
    let cut : strtok_r fuel m s delimiters save
        ≡ cut_token fuel m delimiters (resume s save + i, is_end m (resume s save + i)) =
      rw (
        ==-eq_false delimiters 0 hd,
        ==-eq_false (resume s save) 0 hs,
        skip_loop-scan fuel m delimiters k hd u hk fuel (resume s save),
        run,
      ) in
    elim (after_skip fuel m delimiters k hd u hk (resume s save) n i t hn span) [
      | inl (e, r) ↦
          inl (λ j lt. let f = span.within j (omega (arith, e, lt)) in ground arith, cut ∙ r)
      | inr (l, m', save', r, tok) ↦ inr (i, l, m', save', cut ∙ r, tok)
    ]
