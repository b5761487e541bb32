-- ===== src/Jsonl/Append.antt =====
-- What is appended to a JSON-lines file is read back behind what was there.
use mathlib.Core.List.{append_assoc}
use missionforge.Common.{
  ℕ, ◌≡◌, refl, sym, ap, ◌∙◌, true, false, ◌&&◌, some, List, [], ◌∷◌, ◌++◌, ◌⊎◌, inl, inr, ◌==◌,
  is_empty, Bool-cases, any, subst,
}
use missionforge.Text.{Text, starts_with, cons_head, strip}
use missionforge.Outcome.{Outcome, ok, Error, ◌>>=◌, >>=-eq-ok, ok_injective}
use missionforge.Value.{dict, Fields}
use missionforge.Jsonl.{Codec, is_break, splitlines, as_object, parse_lines}

-- The file is empty or ends with a line feed.
abbrev pub IsLog : Text → Type 0
IsLog s = (s ≡ []) ⊎ ((r : Text) × (s ≡ r ++ 10 ∷ []))

starts_with-append :
    (c : ℕ) (s t : Text) → starts_with (10 ∷ []) (s ++ c ∷ t) ≡ starts_with (10 ∷ []) (s ++ c ∷ [])
unfolding starts_with
starts_with-append c [] t = refl
starts_with-append c (d ∷ s) t = refl

cons_head_cons :
    (c : ℕ) (ls : List Text) → (w : Text) × (ws : List Text) × (cons_head c ls ≡ w ∷ ws)
cons_head_cons c [] = (c ∷ [], [], refl)
cons_head_cons c (l ∷ ls) = (c ∷ l, ls, refl)

cons_head-append :
    (c : ℕ) (w : Text) (ws ls : List Text)
    → cons_head c ((w ∷ ws) ++ ls) ≡ cons_head c (w ∷ ws) ++ ls
cons_head-append c w ws ls = refl

-- A text of at least one code point has at least one line.
splitlines_cons : (c : ℕ) (s : Text) → (w : Text) × (ws : List Text) × (splitlines (c ∷ s) ≡ w ∷ ws)
unfolding splitlines
splitlines_cons c [] = elim (Bool-cases (is_break c)) [
  | inl y ↦ elim (Bool-cases (c == 13)) [
    | inl r ↦ ([], [], rw (y, r) refl)
    | inr n ↦ ([], [], rw (y, n) refl)
  ]
  | inr n ↦ (c ∷ [], [], rw n refl)
]
splitlines_cons c (d ∷ s) =
    let (w, ws, e) = splitlines_cons d s in
    elim (Bool-cases (is_break c)) [
      | inl y ↦ elim (Bool-cases (c == 13 && starts_with (10 ∷ []) (d ∷ s))) [
        | inl r ↦ (w, ws, rw (y, r) e)
        | inr n ↦ ([], splitlines (d ∷ s), rw (y, n) refl)
      ]
      | inr n ↦ let (v, vs, f) = cons_head_cons c (splitlines (d ∷ s)) in (v, vs, rw n f)
    ]

splitlines_snoc :
    (s : Text) (c : ℕ) → (w : Text) × (ws : List Text) × (splitlines (s ++ c ∷ []) ≡ w ∷ ws)
splitlines_snoc [] c = splitlines_cons c []
splitlines_snoc (d ∷ s) c = splitlines_cons d (s ++ c ∷ [])

-- What follows a line feed has lines of its own.
pub splitlines-log :
    (s t : Text) → splitlines (s ++ 10 ∷ t) ≡ splitlines (s ++ 10 ∷ []) ++ splitlines t
unfolding splitlines is_break
splitlines-log [] t = refl
splitlines-log (c ∷ s) t =
    let (w, ws, e) = splitlines_snoc s 10 in
    let ih = splitlines-log s t in
    let same = starts_with-append 10 s t in
    elim (Bool-cases (is_break c)) [
      | inl y ↦ elim (Bool-cases (c == 13 && starts_with (10 ∷ []) (s ++ 10 ∷ []))) [
        | inl r ↦ (rw (same, y, r) ih)
        | inr n ↦ rw (same, y, n) (ap (λ ls. [] ∷ ls) ih)
      ]
      | inr n ↦ rw (n, ih, e) refl
    ]

splitlines_line : (l : Text) → any is_break l ≡ false → splitlines (l ++ 10 ∷ []) ≡ l ∷ []
unfolding splitlines
splitlines_line [] h = refl
splitlines_line (c ∷ l) h = elim (Bool-cases (is_break c)) [
  | inl y ↦ let k : true ≡ false = rw y at h in cc
  | inr n ↦ let k : any is_break l ≡ false = rw n at h in rw (n, splitlines_line l k) refl
]

-- A line written behind the log is its last line.
pub splitlines-appended :
    (s l : Text)
    → IsLog s
    → any is_break l ≡ false
    → splitlines (s ++ (l ++ 10 ∷ [])) ≡ splitlines s ++ l ∷ []
unfolding splitlines
splitlines-appended s l (inl e) h =
    subst (λ u. splitlines (u ++ (l ++ 10 ∷ [])) ≡ splitlines u ++ l ∷ []) (sym e)
      (splitlines_line l h)
splitlines-appended s l (inr (r, e)) h =
    subst (λ u. splitlines (u ++ (l ++ 10 ∷ [])) ≡ splitlines u ++ l ∷ []) (sym e)
      (ap splitlines (append_assoc r (10 ∷ []) (l ++ 10 ∷ []))
        ∙ splitlines-log r (l ++ 10 ∷ [])
        ∙ ap (λ ls. splitlines (r ++ 10 ∷ []) ++ ls) (splitlines_line l h))

pub IsLog-appended : (s l : Text) → IsLog (s ++ (l ++ 10 ∷ []))
IsLog-appended s l = inr (s ++ l, sym (append_assoc s l (10 ∷ [])))

module _ {ℓ} {A : Type ℓ} (json : Codec) (bad : Error) (parse : Fields → Outcome A) where
  parse_lines_snoc :
      (ls : List Text) (l : Text) (fs : Fields) (x : A) (old : List A)
      → parse_lines json bad parse ls ≡ ok old
      → is_empty (strip l) ≡ false
      → json.loads l ≡ some (dict fs)
      → parse fs ≡ ok x
      → parse_lines json bad parse (ls ++ l ∷ []) ≡ ok (old ++ x ∷ [])
  unfolding parse_lines
  parse_lines_snoc [] l fs x old h b d p = rw (b, d, p, sym (ok_injective h)) refl
  parse_lines_snoc (k ∷ ls) l fs x old h b d p = elim (Bool-cases (is_empty (strip k))) [
    | inl y ↦
        let h' : parse_lines json bad parse ls ≡ ok old = rw y at h in
        rw y (parse_lines_snoc ls l fs x old h' b d p)
    | inr n ↦
        let h' : (as_object (json.loads k) bad >>= λ gs.
        parse gs >>= λ z. parse_lines json bad parse ls >>= λ more. ok (z ∷ more))
            ≡ ok old =
          rw n at h in
        let (gs, e1, h1) =
          >>=-eq-ok (as_object (json.loads k) bad)
            (λ gs. parse gs >>= λ z. parse_lines json bad parse ls >>= λ more. ok (z ∷ more)) h' in
        let (z, e2, h2) =
          >>=-eq-ok (parse gs) (λ z. parse_lines json bad parse ls >>= λ more. ok (z ∷ more)) h1 in
        let (more, e3, h3) = >>=-eq-ok (parse_lines json bad parse ls) (λ more. ok (z ∷ more)) h2 in
        rw (n, e1, e2, parse_lines_snoc ls l fs x more e3 b d p, sym (ok_injective h3)) refl
  ]

  -- What was read from the log, and behind it what was appended.
  pub parse_lines-appended :
      (s l : Text) (fs : Fields) (x : A) (old : List A)
      → IsLog s
      → parse_lines json bad parse (splitlines s) ≡ ok old
      → any is_break l ≡ false
      → is_empty (strip l) ≡ false
      → json.loads l ≡ some (dict fs)
      → parse fs ≡ ok x
      → parse_lines json bad parse (splitlines (s ++ (l ++ 10 ∷ []))) ≡ ok (old ++ x ∷ [])
  parse_lines-appended s l fs x old log h n b d p =
      ap (parse_lines json bad parse) (splitlines-appended s l log n)
      ∙ parse_lines_snoc (splitlines s) l fs x old h b d p
